-- ===== src/Tests/SchemaTest.antt =====
-- Runs of common/TelemetrySchema.cpp, after common/test/TestTelemetrySchema.cpp.
use mozilla_telemetry.Prelude.{
  ◌+◌, ◌≡◌, ◌↔◌, refl, Bool, true, some, none, List, [], ◌∷◌, ◌++◌, length, All, Bytes, codes,
  c_str, leb,
}
use mozilla_telemetry.Prelude.Int.{ℤ, pos, negsuc}
use mozilla_telemetry.Outcome.{ok, throw}
use mozilla_telemetry.Json.{
  int, string, array, object, Items, nil, item, Members, end, member, items,
}
use mozilla_telemetry.Schema.{
  Metrics, new_metrics, k_value, k_set, k_range, TelemetryDimension, TelemetrySchema, Boost,
  set_contains, set_insert, safe_path, read_chars, load_set, new_dimension, parse_schema,
  new_schema,
}
use mozilla_telemetry.Schema.SafePath.{IsSafe, safe_path-IsClean, new_schema-space}
use mozilla_telemetry.Schema.DimensionPath.{get_dimension_path}
use mozilla_telemetry.Schema.Accounts.{Accounts, count_absent, get_dimension_path-Accounts}
use mozilla_telemetry.Schema.Sets.{IsAllowed, new_dimension-allows}
use mozilla_telemetry.Tests.Instances.{sample_json}

abbrev le_ℤ : ℤ → ℤ → Bool
le_ℤ (pos a) (pos b) = leb a b
le_ℤ (pos a) (negsuc b) = leb 1 0
le_ℤ (negsuc a) (pos b) = true
le_ℤ (negsuc a) (negsuc b) = leb b a

abbrev show_digit : ℤ → Bytes
show_digit (pos n) = (48 + n) ∷ []
show_digit (negsuc n) = codes "-"

-- Paths as their parts.
abbrev pub parts_boost : Boost ℤ
parts_boost = record {
  FsPath = List Bytes;
  empty = [];
  append = λ p s. p ++ (s ∷ []);
  lexical_cast = show_digit;
  le = le_ℤ;
}

program : Unit {0}
unfolding get_dimension_path new_schema new_dimension load_set set_insert set_contains safe_path
    read_chars c_str
program = tt

abbrev reasons : Items ℤ
reasons = item (string (codes "idle-daily")) (item (string (codes "saved-session")) nil)

abbrev pub reason : Members ℤ
reason =
    member (codes "field_name") (string (codes "reason"))
      (member (codes "allowed_values") (array reasons) end)

abbrev pub reason_dimension : TelemetryDimension ℤ
reason_dimension = record {
  type = k_set;
  name = codes "reason";
  value = [];
  set = codes "saved-session" ∷ codes "idle-daily" ∷ [];
  range = (pos 0, pos 0);
}

builds : new_dimension sample_json (object reason) ≡ ok reason_dimension
unfolding program
builds = refl

abbrev any : Bytes → TelemetryDimension ℤ
any name = record {
  type = k_value;
  name = name;
  value = codes "*";
  set = [];
  range = (pos 0, pos 0);
}

abbrev cpus : TelemetryDimension ℤ
cpus = record {
  type = k_range;
  name = codes "cpucount";
  value = [];
  set = [];
  range = (pos 1, pos 4);
}

abbrev pub schema : TelemetrySchema ℤ
schema = record {
  version = pos 1;
  dimensions =
      reason_dimension
      ∷ any (codes "appName")
      ∷ cpus
      ∷ any (codes "memsize")
      ∷ any (codes "persona")
      ∷ [];
  metrics = new_metrics;
}

abbrev info : Members ℤ
info = member (codes "reason") (string (codes "idle-daily")) (
    member (codes "appName") (string (codes "Fire fox"))
      (member (codes "cpucount") (int (pos 8)) (member (codes "memsize") (int (pos 447)) end)))

abbrev doc : Members ℤ
doc = member (codes "info") (object info) end

path_of :
    (get_dimension_path sample_json parts_boost (object doc) schema).0
    ≡ ok (codes "idle_daily" ∷ codes "Fire_fox" ∷ codes "other" ∷ [])
unfolding program
path_of = refl

no_file :
    new_schema sample_json (codes "missing.json") none
    ≡ throw (codes "file open failed: missing.json")
unfolding program
no_file = refl

no_version :
    new_schema sample_json (codes "a.json") (some (codes "{\"a\": 8}"))
    ≡ throw (codes "version element is missing")
unfolding program parse_schema
no_version = refl

get_dimension_path-Accounts_example :
    (p : List Bytes) × (metrics : Metrics) × (get_dimension_path sample_json parts_boost
        (object doc)
        schema
      ≡ (ok p, record schema { metrics = metrics }))
    × Accounts sample_json parts_boost 5
        (count_absent sample_json parts_boost schema.dimensions info)
        ([], new_metrics)
        (p, metrics)
get_dimension_path-Accounts_example =
    get_dimension_path-Accounts sample_json parts_boost schema doc info refl

safe_path-IsClean_example :
    (length (safe_path (codes "en-US")) ≡ 5)
    × All IsSafe (safe_path (codes "en-US"))
    × ((safe_path (codes "en-US") ≡ codes "en-US") ↔ All IsSafe (codes "en-US"))
safe_path-IsClean_example = safe_path-IsClean (codes "en-US")

new_schema-space_example :
    new_schema sample_json (codes "a.json") (some (codes "{\"a " ++ codes "b\":8}"))
    ≡ new_schema sample_json (codes "a.json") (some (codes "{\"a" ++ codes "b\":8}"))
new_schema-space_example =
    new_schema-space sample_json (codes "a.json") (codes "{\"a") (codes "b\":8}") 32 refl

new_dimension-allows_example :
    (reason_dimension.type ≡ k_set)
    × (reason_dimension.name ≡ c_str (codes "reason"))
    × ((s : Bytes) → (set_contains s reason_dimension.set ≡ true) ↔ IsAllowed s (items reasons))
new_dimension-allows_example =
    new_dimension-allows sample_json reason (codes "reason") reasons reason_dimension refl refl
      builds
