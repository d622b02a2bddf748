-- ===== src/Specification.antt =====
-- common/HistogramSpecification.h and .cpp: the histogram definitions of one revision.
-- The hash tables are association lists that keep the first entry of a key, as `insert` does.
pub mod Faults
pub mod Buckets
pub mod Acceptance
pub mod Names
pub mod Order
pub mod Hashing
pub mod Ownership
use mozilla_telemetry.Prelude.{
  ℕ, ◌+◌, ◌≡◌, Bool, true, false, Option, none, some, List, [], ◌∷◌, ◌++◌, Bytes, codes, c_str,
  bytes_eq, show_ℕ, if◌then◌else◌,
}
use mozilla_telemetry.Prelude.Int.{ℤ, pos, negsuc, is_int32, eqb_ℤ, to_int32, show_ℤ}
use mozilla_telemetry.Outcome.{Outcome, ok, throw, fault, ◌>>=◌, ◌>>◌, require, rethrow}
use mozilla_telemetry.Json.{
  Value, int, string, array, object, Members, end, member, items, is_object, is_array, is_string,
  is_int, Rapidjson, parse_error, document, at,
}

pub record HistogramDefinition : Type 0 where
  pub kind : ℤ
  pub min : ℤ
  pub max : ℤ
  pub bucket_count : ℤ
  pub buckets : List (ℤ × ℕ)

-- `unordered_map<int, int>::find` and `insert`, which leaves a key that is there.
unfoldable pub find_bucket : ℤ → List (ℤ × ℕ) → Option ℕ
find_bucket k [] = none
find_bucket k ((j, i) ∷ bs) = if eqb_ℤ j k then some i else find_bucket k bs

unfoldable pub insert_bucket : ℤ → ℕ → List (ℤ × ℕ) → List (ℤ × ℕ)
insert_bucket k i bs = elim (find_bucket k bs) [ none ↦ (k, i) ∷ bs | some _ ↦ bs ]

module _ {D : Type 0} where
  -- `if (!v.IsString()) throw runtime_error(what); v.GetString()`, and so for the other types.
  abbrev pub require_string : Value D → Bytes → Outcome Bytes
  require_string (string s) what = ok s
  require_string _ what = throw what

  abbrev pub require_int : Value D → Bytes → Outcome ℤ
  require_int (int z) what = if is_int32 z then ok z else throw what
  require_int _ what = throw what

  abbrev pub require_array : Value D → Bytes → Outcome (List (Value D))
  require_array (array vs) what = ok (items vs)
  require_array _ what = throw what

  abbrev pub require_object : Value D → Bytes → Outcome (Members D)
  require_object (object ms) what = ok ms
  require_object _ what = throw what

  -- The loop over the array `buckets`, with the final `index` and the table.
  unfoldable pub load_buckets : List (Value D) → ℕ → List (ℤ × ℕ) → Outcome (ℕ × List (ℤ × ℕ))
  load_buckets [] index bs = ok (index, bs)
  load_buckets (v ∷ vs) index bs = do
    k ← require_int v (codes "buckets array must contain integer elements")
    load_buckets vs (index + 1) (insert_bucket k index bs)

-- The text of `boost::bad_lexical_cast`, as the tests of the repository show it.
abbrev pub bad_lexical_cast : Bytes
bad_lexical_cast = codes "bad lexical cast: source type value could not be interpreted as target"

unfoldable pub cast_int : (Bytes → Option ℤ) → Bytes → Outcome ℤ
cast_int lexical_cast s = elim (lexical_cast (c_str s)) [
  | none ↦ throw bad_lexical_cast
  | some z ↦ ok z
]

-- The check behind the loop.
unfoldable pub check_count : ℤ → ℕ → Outcome (Unit {0})
check_count expected index = require (eqb_ℤ (pos index) expected) (
    codes "buckets array should contain: "
    ++ (show_ℤ expected ++ (codes " elements;  " ++ (show_ℕ index ++ codes " were specified"))))

-- `GetBucketCount`
unfoldable pub get_bucket_count : HistogramDefinition → ℤ
get_bucket_count d = d.bucket_count

-- `GetBucketIndex`; the argument is a `long`, and the key of the table an `int`.
unfoldable pub get_bucket_index : HistogramDefinition → ℤ → ℤ
unfolding find_bucket to_int32
get_bucket_index d lower_bound = elim (find_bucket (to_int32 lower_bound) d.buckets) [
  | none ↦ negsuc 0
  | some i ↦ pos i
]

-- The table of a `HistogramSpecification`; a key is a C string.
abbrev pub HistogramSpecification : Type 0
HistogramSpecification = List (Bytes × HistogramDefinition)

unfoldable pub find_definition : Bytes → HistogramSpecification → Option HistogramDefinition
find_definition k [] = none
find_definition k ((j, d) ∷ ds) = if bytes_eq j k then some d else find_definition k ds

unfoldable pub insert_definition :
    Bytes → HistogramDefinition → HistogramSpecification → HistogramSpecification
insert_definition k d ds = elim (find_definition k ds) [ none ↦ (k, d) ∷ ds | some _ ↦ ds ]

-- `GetDefinition`
unfoldable pub get_definition : HistogramSpecification → Bytes → Option HistogramDefinition
unfolding find_definition c_str
get_definition spec name = find_definition (c_str name) spec

abbrev pub not_a_definition : Bytes → Bytes
not_a_definition name = codes "Key: '" ++ (name ++ codes "' is not a histogram definition")

abbrev pub in_key : Bytes → Bytes → Bytes
in_key name what = codes "Key: '" ++ (name ++ (codes "' " ++ what))

-- `lexical_cast` is `boost::lexical_cast<int>`, `none` where it throws.
module _ (J : Rapidjson) (lexical_cast : Bytes → Option ℤ) where
  open J use {Double, parse}

  -- The constructor `HistogramDefinition(const RapidjsonValue&)`
  unfoldable pub new_definition : Value Double → Outcome HistogramDefinition
  unfolding cast_int check_count
  new_definition v = do
    k ← at J v (codes "kind")
    text ← require_string k (codes "missing kind element")
    kind ← cast_int lexical_cast text
    mn ← at J v (codes "min")
    min ← require_int mn (codes "missing min element")
    mx ← at J v (codes "max")
    max ← require_int mx (codes "missing max element")
    b ← at J v (codes "bucket_count")
    bucket_count ← require_int b (codes "missing bucket_count element")
    a ← at J v (codes "buckets")
    vs ← require_array a (codes "missing bucket array element")
    loaded ← load_buckets vs 0 []
    check_count bucket_count loaded.0
    ok (record {
      kind = kind;
      min = min;
      max = max;
      bucket_count = bucket_count;
      buckets = loaded.1;
    })

  -- The loop of `LoadDefinitions`
  unfoldable pub load_members :
      Members Double → HistogramSpecification → Outcome HistogramSpecification
  load_members end ds = ok ds
  load_members (member n v ms) ds = do
    require (is_object v) (not_a_definition (c_str n))
    hd ← rethrow (in_key (c_str n)) (new_definition v)
    load_members ms (insert_definition (c_str n) hd ds)

  -- `LoadDefinitions`
  unfoldable pub load_definitions : Value Double → Outcome HistogramSpecification
  unfolding load_members
  load_definitions doc = do
    histograms ← at J doc (codes "histograms")
    ms ← require_object histograms (codes "histograms element must be an object")
    load_members ms []

  -- The constructor `HistogramSpecification(const std::string&)`
  unfoldable pub new_specification : Bytes → Outcome HistogramSpecification
  unfolding load_definitions
  new_specification json = elim (parse (c_str json)) [
    | parse_error e ↦ throw (codes "json parse failed: " ++ e)
    | document doc ↦ load_definitions doc
  ]
