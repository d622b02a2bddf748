-- ===== src/Schema.antt =====
-- common/TelemetrySchema.h and .cpp: the dimensions that records are stored by.
-- boost::filesystem, boost::lexical_cast and the order of doubles are the parameter `Boost`.
pub mod Faults
pub mod SafePath
pub mod DimensionPath
pub mod Accounts
pub mod Sets
use mozilla_telemetry.Prelude.{
  ℕ, Bool, true, false, ◌&&◌, ◌||◌, Option, none, some, List, [], ◌∷◌, ◌++◌, map, Bytes, codes,
  c_str, bytes_eq, leb, ◌==◌, if◌then◌else◌,
}
use mozilla_telemetry.Prelude.Int.{ℤ, pos}
use mozilla_telemetry.Outcome.{Outcome, ok, throw, fault, ◌>>=◌, ◌>>◌, require, rethrow}
use mozilla_telemetry.Metric.{
  Counter, new_metric, count, bump, reset, Message, clear_fields, construct_field,
}
use mozilla_telemetry.Json.{
  Value, null, bool, int, double, string, array, object, Members, items, is_object, is_string,
  Rapidjson, parse_error, document, lookup, at,
}
use mozilla_telemetry.Specification.{require_string, require_int, require_array}

-- `TelemetrySchema::Metrics`
pub record Metrics : Type 0 where
  pub invalid_string_dimension : Counter
  pub invalid_numeric_dimension : Counter

abbrev pub new_metrics : Metrics
new_metrics = record {
  invalid_string_dimension = new_metric (codes "Invalid String Dimension") count;
  invalid_numeric_dimension = new_metric (codes "Invalid Numeric Dimension") count;
}

-- `TelemetryDimension::Type`
pub data DimensionType : Type 0 where
  k_value k_set k_range : DimensionType

-- `TelemetryDimension`; a `std::set` is the list of its elements.
pub record TelemetryDimension (D : Type 0) : Type 0 where
  pub type : DimensionType
  pub name : Bytes
  pub value : Bytes
  pub set : List Bytes
  pub range : D × D

pub record TelemetrySchema (D : Type 0) : Type 0 where
  pub version : ℤ
  pub dimensions : List (TelemetryDimension D)
  pub metrics : Metrics

-- What the code uses of boost, over the floating-point numbers: paths with `operator/=`, the text
-- of a number, and `operator<=` of two of them.
pub record Boost (D : Type 0) : Type 1 where
  pub FsPath : Type 0
  pub empty : FsPath
  pub append : FsPath → Bytes → FsPath
  pub lexical_cast : D → Bytes
  pub le : D → D → Bool

-- `mSet.find(s) != mSet.end()`
unfoldable pub set_contains : Bytes → List Bytes → Bool
set_contains s [] = false
set_contains s (x ∷ xs) = bytes_eq x s || set_contains s xs

-- `mSet.insert(s)`
unfoldable pub set_insert : Bytes → List Bytes → List Bytes
unfolding set_contains
set_insert s xs = if set_contains s xs then xs else s ∷ xs

-- `clean_re` of `SafePath` does not match this character.
abbrev pub is_safe_char : ℕ → Bool
is_safe_char c =
    leb b'a' c && leb c b'z'
    || leb b'A' c && leb c b'Z'
    || leb b'0' c && leb c b'9'
    || c == b'_'
    || c == b'/'
    || c == b'.'

-- `SafePath`
unfoldable pub safe_path : Bytes → Bytes
safe_path [] = []
safe_path (c ∷ cs) = (if is_safe_char c then c else b'_') ∷ safe_path cs

-- The characters that `operator>>` of a `char` skips.
abbrev pub is_space : ℕ → Bool
is_space c = c == 32 || leb 9 c && leb c 13

-- `string(istream_iterator<char>(ifs), istream_iterator<char>())`
unfoldable pub read_chars : Bytes → Bytes
read_chars [] = []
read_chars (c ∷ cs) = if is_space c then read_chars cs else c ∷ read_chars cs

abbrev pub other : Bytes
other = codes "other"

module _ (J : Rapidjson) where
  open J use {Double, of_int, parse}

  -- The loop over the strings of a set
  unfoldable pub load_set : List (Value Double) → List Bytes → Outcome (List Bytes)
  load_set [] set = ok set
  load_set (v ∷ vs) set = do
    s ← require_string v (codes "allowed_values must be strings")
    load_set vs (set_insert (c_str s) set)

  abbrev pub require_number : Value Double → Bytes → Outcome Double
  require_number (int z) what = ok (of_int z)
  require_number (double d) what = ok d
  require_number _ what = throw what

  -- A dimension of the name before its allowed values are read.
  abbrev pub fresh : Bytes → DimensionType → TelemetryDimension Double
  fresh name type = record {
    type = type;
    name = name;
    value = [];
    set = [];
    range = (of_int (pos 0), of_int (pos 0));
  }

  -- The switch on the type of `allowed_values`
  unfoldable pub load_values : Bytes → Value Double → Outcome (TelemetryDimension Double)
  unfolding load_set
  load_values name (string s) = ok (record (fresh name k_value) { value = c_str s })
  load_values name (array vs) = do
    set ← load_set (items vs) []
    ok (record (fresh name k_set) { set = set })
  load_values name (object ms) = do
    first ←
        require_number (lookup J ms (codes "min"))
          (codes "allowed_values range is missing min element")
    second ←
        require_number (lookup J ms (codes "max"))
          (codes "allowed_values range is missing max element")
    ok (record (fresh name k_range) { range = (first, second) })
  load_values name _ = throw (codes "invalid allowed_values element")

  -- The constructor of `TelemetryDimension`
  unfoldable pub new_dimension : Value Double → Outcome (TelemetryDimension Double)
  unfolding load_values
  new_dimension v = do
    fn ← at J v (codes "field_name")
    name ← require_string fn (codes "missing field_name element")
    av ← at J v (codes "allowed_values")
    load_values (c_str name) av

  abbrev pub in_schema : Bytes → Bytes
  in_schema what = codes "invalid dimension schema: " ++ what

  -- The loop of `LoadDimensions`
  unfoldable pub load_loop : List (Value Double) → Outcome (List (TelemetryDimension Double))
  unfolding new_dimension
  load_loop [] = ok []
  load_loop (v ∷ vs) = do
    require (is_object v) (codes "dimension elemenst must be objects")
    dim ← rethrow in_schema (new_dimension v)
    dims ← load_loop vs
    ok (dim ∷ dims)

  -- `LoadDimensions`
  unfoldable pub load_dimensions : Value Double → Outcome (List (TelemetryDimension Double))
  unfolding load_loop
  load_dimensions doc = do
    dimensions ← at J doc (codes "dimensions")
    vs ← require_array dimensions (codes "dimensions element must be an array")
    load_loop vs

  -- The constructor after the file was read
  unfoldable pub parse_schema : Bytes → Outcome (TelemetrySchema Double)
  unfolding load_dimensions c_str
  parse_schema json = elim (parse (c_str json)) [
    | parse_error e ↦ throw (codes "json parse failed: " ++ e)
    | document doc ↦ (do
      v ← at J doc (codes "version")
      version ← require_int v (codes "version element is missing")
      dims ← load_dimensions doc
      ok (record { version = version; dimensions = dims; metrics = new_metrics }))
  ]

  -- The constructor of `TelemetrySchema`, of a file name and what the file holds, if it opens
  unfoldable pub new_schema : Bytes → Option Bytes → Outcome (TelemetrySchema Double)
  unfolding parse_schema read_chars
  new_schema file_name none = throw (codes "file open failed: " ++ file_name)
  new_schema file_name (some text) = parse_schema (read_chars text)
