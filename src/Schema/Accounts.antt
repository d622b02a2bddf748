-- ===== src/Schema/Accounts.antt =====
-- common/TelemetrySchema.cpp: the parts of the path that `GetDimensionPath` makes, and its counters.
use mozilla_telemetry.Prelude.{
  ℕ, suc, ◌+◌, ◌≡◌, refl, ◌⊎◌, inl, inr, Bool, true, false, List, [], ◌∷◌, ◌++◌, ap, sym, ◌∙◌,
  length-append, arith, length, All, Bytes, codes, c_str, if◌then◌else◌,
}
use mozilla_telemetry.Outcome.{ok}
use mozilla_telemetry.Json.{
  Value, null, bool, int, double, string, array, object, Members, Rapidjson, lookup,
}
use mozilla_telemetry.Schema.{
  Metrics, DimensionType, k_value, k_set, k_range, TelemetryDimension, TelemetrySchema, Boost,
  safe_path, other,
}
use mozilla_telemetry.Schema.SafePath.{IsSafe, safe_path_fixed, safe_path-IsClean}
use mozilla_telemetry.Schema.DimensionPath.{
  string_step, number_step, dimension_step, dimension_loop, get_dimension_path,
}

other_safe : safe_path other ≡ other
unfolding safe_path
other_safe = refl

module _ (J : Rapidjson) (B : Boost J.Double) where
  open J use {Double}
  open B use {FsPath, empty, append, lexical_cast}

  -- A folder name of the layout: of safe characters, or a number.
  abbrev pub IsPart : Bytes → Type 0
  IsPart part = All IsSafe part ⊎ ((x : Double) × (part ≡ lexical_cast x))

  -- A path with these parts appended in order.
  abbrev pub append_all : FsPath → List Bytes → FsPath
  append_all p [] = p
  append_all p (part ∷ parts) = append_all (append p part) parts

  -- A member that is neither a string nor a number has no place in the path.
  abbrev pub absent : Value Double → ℕ
  absent (string s) = 0
  absent (int z) = 0
  absent (double x) = 0
  absent _ = 1

  abbrev pub count_absent : List (TelemetryDimension Double) → Members Double → ℕ
  count_absent [] info = 0
  count_absent (d ∷ ds) info = absent (lookup J info (c_str d.name)) + count_absent ds info

  abbrev pub errors : Metrics → ℕ
  errors m = m.invalid_string_dimension.value + m.invalid_numeric_dimension.value

  -- From a path and counters to others, over so many dimensions of which some had no value.
  pub record Accounts (dims skipped : ℕ) (before after : FsPath × Metrics) : Type 0 where
    pub parts : List Bytes
    pub path : after.0 ≡ append_all before.0 parts
    pub valid : All IsPart parts
    pub balance : errors after.1 + length parts + skipped ≡ errors before.1 + dims

  appends :
      (p : FsPath) (m : Metrics) (part : Bytes)
      → IsPart part
      → Accounts 1 0 (p, m) (append p part, m)
  appends p m part h = record {
    parts = part ∷ [];
    path = refl;
    valid = (h, tt);
    balance = omega arith;
  }

  other-IsPart : IsPart other
  other-IsPart = inl (safe_path_fixed other other_safe)

  -- Either choice of a part accounts for its dimension.
  choice :
      (b : Bool) (p : FsPath) (m : Metrics) (part : Bytes)
      → IsPart part
      → Accounts 1 0 (p, m) (if b then (append p part, m) else (append p other, m))
  choice true p m part h = appends p m part h
  choice false p m part h = appends p m other other-IsPart

  safe-IsPart : (s : Bytes) → IsPart (safe_path s)
  safe-IsPart s = inl (safe_path-IsClean s).1

  of_string :
      (type : DimensionType) (name value : Bytes) (set : List Bytes) (range : Double × Double)
      (dim : Bytes) (p : FsPath) (m : Metrics)
      → Accounts 1 0
          (p, m)
          (string_step J B
            (record { type = type; name = name; value = value; set = set; range = range })
            dim
            (p, m))
  unfolding string_step
  of_string k_value name value set range dim p m = choice _ p m (safe_path dim) (safe-IsPart dim)
  of_string k_set name value set range dim p m = choice _ p m (safe_path dim) (safe-IsPart dim)
  of_string k_range name value set range dim p m = record {
    parts = [];
    path = refl;
    valid = tt;
    balance = omega arith;
  }

  string_step-Accounts :
      (d : TelemetryDimension Double) (dim : Bytes) (pm : FsPath × Metrics)
      → Accounts 1 0 pm (string_step J B d dim pm)
  string_step-Accounts d dim (p, m) = of_string d.type d.name d.value d.set d.range dim p m

  of_number :
      (type : DimensionType) (name value : Bytes) (set : List Bytes) (range : Double × Double)
      (dim : Double) (p : FsPath) (m : Metrics)
      → Accounts 1 0
          (p, m)
          (number_step J B
            (record { type = type; name = name; value = value; set = set; range = range })
            dim
            (p, m))
  unfolding number_step
  of_number k_range name value set range dim p m = choice _ p m (lexical_cast dim) (inr (dim, refl))
  of_number k_value name value set range dim p m = record {
    parts = [];
    path = refl;
    valid = tt;
    balance = omega arith;
  }
  of_number k_set name value set range dim p m = record {
    parts = [];
    path = refl;
    valid = tt;
    balance = omega arith;
  }

  number_step-Accounts :
      (d : TelemetryDimension Double) (dim : Double) (pm : FsPath × Metrics)
      → Accounts 1 0 pm (number_step J B d dim pm)
  number_step-Accounts d dim (p, m) = of_number d.type d.name d.value d.set d.range dim p m

  dimension_step-Accounts :
      (d : TelemetryDimension Double) (v : Value Double) (pm : FsPath × Metrics)
      → Accounts 1 (absent v) pm (dimension_step J B d v pm)
  unfolding dimension_step
  dimension_step-Accounts d (string s) pm = string_step-Accounts d (c_str s) pm
  dimension_step-Accounts d (int z) pm = number_step-Accounts d (J.of_int z) pm
  dimension_step-Accounts d (double x) pm = number_step-Accounts d x pm
  dimension_step-Accounts d null pm = record {
    parts = [];
    path = refl;
    valid = tt;
    balance = omega arith;
  }
  dimension_step-Accounts d (bool b) pm = record {
    parts = [];
    path = refl;
    valid = tt;
    balance = omega arith;
  }
  dimension_step-Accounts d (array vs) pm = record {
    parts = [];
    path = refl;
    valid = tt;
    balance = omega arith;
  }
  dimension_step-Accounts d (object ms) pm = record {
    parts = [];
    path = refl;
    valid = tt;
    balance = omega arith;
  }

  append_all-append :
      (p : FsPath) (xs ys : List Bytes) → append_all p (xs ++ ys) ≡ append_all (append_all p xs) ys
  append_all-append p [] ys = refl
  append_all-append p (x ∷ xs) ys = append_all-append (append p x) xs ys

  All-append : (xs ys : List Bytes) → All IsPart xs → All IsPart ys → All IsPart (xs ++ ys)
  All-append [] ys h k = k
  All-append (x ∷ xs) ys h k = (h.0, All-append xs ys h.1 k)

  chain :
      (n k l : ℕ) (pm pm' pm'' : FsPath × Metrics)
      → Accounts 1 k pm pm'
      → Accounts n l pm' pm''
      → Accounts (suc n) (k + l) pm pm''
  chain n k l pm pm' pm'' a b = record {
    parts = a.parts ++ b.parts;
    path =
        b.path
        ∙ ap (λ p. append_all p b.parts) a.path
        ∙ sym (append_all-append pm.0 a.parts b.parts);
    valid = All-append a.parts b.parts a.valid b.valid;
    balance = omega (arith, a.balance, b.balance, length-append a.parts b.parts);
  }

  dimension_loop-Accounts :
      (ds : List (TelemetryDimension Double)) (info : Members Double) (pm : FsPath × Metrics)
      → Accounts (length ds) (count_absent ds info) pm (dimension_loop J B ds info pm)
  unfolding dimension_loop
  dimension_loop-Accounts [] info pm = record {
    parts = [];
    path = refl;
    valid = tt;
    balance = omega arith;
  }
  dimension_loop-Accounts (d ∷ ds) info pm =
      let v = lookup J info (c_str d.name) in
      let pm' = dimension_step J B d v pm in
      chain (length ds) (absent v) (count_absent ds info) pm pm' (dimension_loop J B ds info pm')
        (dimension_step-Accounts d v pm) (dimension_loop-Accounts ds info pm')

  -- On a document whose `info` is an object, `GetDimensionPath` returns a path of folder names that
  -- are made of safe characters or are numbers, and changes nothing of the schema but its counters.
  -- Each dimension gives one folder name or one counted error, unless its member of `info` is
  -- neither a string nor a number.
  pub get_dimension_path-Accounts :
      (schema : TelemetrySchema Double) (doc info : Members Double)
      → lookup J doc (codes "info") ≡ object info
      → (p : FsPath) × (metrics : Metrics) × (get_dimension_path J B (object doc) schema
          ≡ (ok p, record schema { metrics = metrics }))
        × Accounts
            (length schema.dimensions)
            (count_absent schema.dimensions info)
            (empty, schema.metrics)
            (p, metrics)
  unfolding get_dimension_path
  get_dimension_path-Accounts schema doc info h =
      let pm = dimension_loop J B schema.dimensions info (empty, schema.metrics) in
      (
        pm.0,
        pm.1,
        rw (h, get_dimension_path),
        dimension_loop-Accounts schema.dimensions info (empty, schema.metrics),
      )
