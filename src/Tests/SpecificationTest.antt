-- ===== src/Tests/SpecificationTest.antt =====
-- Runs of common/HistogramSpecification.cpp, after common/test/TestHistogramSpecification.cpp.
use mozilla_telemetry.Prelude.{
  ℕ, ◌≡◌, ◌↔◌, refl, Option, none, some, List, [], ◌∷◌, Bytes, codes, c_str, bytes_eq,
  if◌then◌else◌,
}
use mozilla_telemetry.Prelude.Int.{ℤ, pos}
use mozilla_telemetry.Outcome.{ok, throw, fault, failed_assertion}
use mozilla_telemetry.Json.{
  Value, int, string, array, object, Items, nil, item, Members, end, member, lookup, items,
}
use mozilla_telemetry.Specification.{
  HistogramDefinition, HistogramSpecification, load_buckets, insert_bucket, insert_definition,
  find_definition, find_bucket, get_definition, new_definition, load_definitions, new_specification,
}
use mozilla_telemetry.Specification.Buckets.{IsTableOf, IsWellFormed, load_buckets-first_index}
use mozilla_telemetry.Specification.Acceptance.{Describes, new_definition-accepts_iff}
use mozilla_telemetry.Specification.Names.{
  AllAccepted, first_definition, load_definitions-first_definition, get_definition-IsWellFormed,
}
use mozilla_telemetry.Tests.Instances.{sample_json}

-- A `lexical_cast<int>` that knows one digit.
abbrev pub cast_digit : Bytes → Option ℤ
cast_digit s = if bytes_eq s (codes "2") then some (pos 2) else none

abbrev pub ints : List ℕ → Items ℤ
ints [] = nil
ints (n ∷ ns) = item (int (pos n)) (ints ns)

abbrev pub definition_members : Members ℤ
definition_members = member (codes "kind") (string (codes "2")) (
    member (codes "min") (int (pos 1)) (
      member (codes "max") (int (pos 2)) (
        member (codes "bucket_count") (int (pos 3))
          (member (codes "buckets") (array (ints (0 ∷ 1 ∷ 2 ∷ []))) end))))

abbrev pub flag_definition : HistogramDefinition
flag_definition = record {
  kind = pos 2;
  min = pos 1;
  max = pos 2;
  bucket_count = pos 3;
  buckets = (pos 2, 2) ∷ (pos 1, 1) ∷ (pos 0, 0) ∷ [];
}

abbrev pub flag : Bytes
flag = codes "FLAG_USAGE"

abbrev pub specification_document : Value ℤ
specification_document =
    object (member (codes "histograms") (object (member flag (object definition_members) end)) end)

abbrev pub flag_specification : HistogramSpecification
flag_specification = (flag, flag_definition) ∷ []

builds : new_definition sample_json cast_digit (object definition_members) ≡ ok flag_definition
unfolding new_definition load_buckets insert_bucket find_bucket c_str
builds = refl

pub loads : load_definitions sample_json cast_digit specification_document ≡ ok flag_specification
unfolding load_definitions new_definition load_buckets insert_bucket find_bucket insert_definition
    find_definition c_str
loads = refl

-- The histograms element of an array is asked for.
asserts : load_definitions sample_json cast_digit (array nil) ≡ fault failed_assertion
unfolding load_definitions
asserts = refl

missing_kind :
    load_definitions sample_json cast_digit (
      object
        (member (codes "histograms") (object (member (codes "MY_HISTOGRAM") (object end) end)) end))
    ≡ throw (codes "Key: 'MY_HISTOGRAM' missing kind element")
unfolding load_definitions new_definition c_str
missing_kind = refl

invalid_kind :
    load_definitions sample_json cast_digit (
      object (
        member
          (codes "histograms")
          (object (
            member
              (codes "MY_HISTOGRAM")
              (object (member (codes "kind") (string (codes "bogus")) end))
              end))
          end))
    ≡ throw (
        codes
          "Key: 'MY_HISTOGRAM' bad lexical cast: source type value could not be interpreted as target")
unfolding load_definitions new_definition c_str
invalid_kind = refl

invalid_file :
    new_specification sample_json cast_digit (codes "invalid json data")
    ≡ throw (codes "json parse failed: Expect either an object or array at root")
unfolding new_specification c_str
invalid_file = refl

abbrev elements : List (Value ℤ)
elements = items (ints (0 ∷ 1 ∷ 2 ∷ []))

flag_loads : load_buckets elements 0 [] ≡ ok (3, flag_definition.buckets)
unfolding load_buckets insert_bucket find_bucket
flag_loads = refl

flag_table : IsTableOf flag_definition elements
unfolding find_bucket
flag_table = record {
  ints = (refl, (refl, (refl, tt)));
  count = refl;
  table = (load_buckets-first_index elements 0 [] 3 flag_definition.buckets flag_loads).1;
}

flag_described : Describes sample_json cast_digit definition_members flag_definition
unfolding c_str
flag_described = record {
  text = codes "2";
  elements = ints (0 ∷ 1 ∷ 2 ∷ []);
  kind = refl;
  kind_value = refl;
  min = refl;
  min_range = refl;
  max = refl;
  max_range = refl;
  bucket_count = refl;
  bucket_count_range = refl;
  buckets = refl;
  built = flag_table;
}

-- The two directions of `new_definition-accepts_iff`, at the members above.
new_definition-accepts_iff_example :
    ((d : HistogramDefinition) × (new_definition sample_json cast_digit (object definition_members)
        ≡ ok d))
    ↔ ((d : HistogramDefinition) × Describes sample_json cast_digit definition_members d)
new_definition-accepts_iff_example =
    new_definition-accepts_iff sample_json cast_digit definition_members

load_definitions-first_definition_example :
    (top : Members ℤ) × (ms : Members ℤ) × (specification_document ≡ object top)
    × (lookup sample_json top (codes "histograms") ≡ object ms)
    × AllAccepted sample_json cast_digit ms
    × ((name : Bytes)
        → get_definition flag_specification name
          ≡ first_definition sample_json cast_digit (c_str name) ms)
load_definitions-first_definition_example =
    load_definitions-first_definition sample_json cast_digit specification_document
      flag_specification loads

flag_found : get_definition flag_specification flag ≡ some flag_definition
unfolding get_definition
flag_found = refl

get_definition-IsWellFormed_example : IsWellFormed flag_definition
get_definition-IsWellFormed_example =
    get_definition-IsWellFormed sample_json cast_digit specification_document flag_specification
      flag flag_definition loads flag_found
