-- ===== src/Tests/ConverterTest.antt =====
-- Runs of common/HistogramConverter.cpp, after common/test/TestHistogramConverter.cpp.
use mozilla_telemetry.Prelude.{
  ◌≤◌, ◌<◌, ◌≡◌, ◌≢◌, ◌↔◌, ◌⊎◌, refl, Bool, true, false, Option, none, some, List, arith, length,
  replicate, take, drop, Bytes, codes, c_str, bytes_eq,
}
use mozilla_telemetry.Prelude.Int.{ℤ, pos, negsuc}
use mozilla_telemetry.Outcome.{ok, fault, out_of_bounds}
use mozilla_telemetry.Json.{
  int, double, string, array, object, Items, nil, item, Members, end, member, lookup,
}
use mozilla_telemetry.Specification.{
  get_definition, find_bucket, get_bucket_index, get_bucket_count,
}
use mozilla_telemetry.Specification.Buckets.{IsWellFormed}
use mozilla_telemetry.Specification.Names.{get_definition-IsWellFormed}
use mozilla_telemetry.Converter.{
  strtol, resolve, rewrite_value, rewrite_values, rewrite_entry, rewrite_object, rewrite_histogram,
}
use mozilla_telemetry.Converter.Values.{LoopResult, rewrite_values-last_count}
use mozilla_telemetry.Converter.Histograms.{
  AllWellFormed, AllResolve, Rewrites, rewrite_histogram-Rewrites,
}
use mozilla_telemetry.Converter.Resolution.{resolve-some_iff, resolve-fault_iff}
use mozilla_telemetry.Converter.Document.{FindHistogram, convert_histogram_data}
use mozilla_telemetry.Converter.Document.Steps.{IsReady}
use mozilla_telemetry.Converter.Document.Versions.{
  IsUpdate, convert_other_version, convert-IsUpdate,
}
use mozilla_telemetry.Tests.Instances.{sample_json}
use mozilla_telemetry.Tests.SpecificationTest.{
  cast_digit, flag, flag_definition, flag_specification, specification_document, loads,
}

abbrev counts : Members ℤ
counts = member (codes "0") (int (pos 1)) (member (codes "1") (int (pos 0)) end)

abbrev histogram : Members ℤ
histogram = member (codes "values") (object counts) (member (codes "sum") (int (pos 7)) end)

abbrev pub histograms : Members ℤ
histograms = member flag (object histogram) end

abbrev pub revision : Bytes
revision = codes "http://hg/rev/1"

abbrev pub top : Members ℤ
top = member (codes "ver") (int (pos 1)) (
    member (codes "histograms") (object histograms)
      (member (codes "info") (object (member (codes "revision") (string revision) end)) end))

-- A server that knows the specification of every revision.
abbrev pub knows : FindHistogram Unit
knows c key = ok (c, some flag_specification)

abbrev knows_none : FindHistogram Unit
knows_none c key = ok (c, none)

abbrev converted : Items ℤ
converted = item (int (pos 1)) (
    item (int (pos 0)) (
      item (int (pos 0)) (
        item (double (pos 7)) (
          item (double (negsuc 0))
            (item (double (negsuc 0)) (item (double (negsuc 0)) (item (double (negsuc 0)) nil)))))))

program : Unit {0}
unfolding convert_histogram_data rewrite_histogram rewrite_entry rewrite_object resolve
    rewrite_value get_bucket_index get_bucket_count get_definition strtol c_str
program = tt

converts :
    convert_histogram_data sample_json knows tt (object top)
    ≡ ok (record {
      cache = tt;
      doc = object (
          member (codes "ver") (int (pos 2)) (
            member (codes "histograms") (object (member flag (array converted) end)) (
              member
                (codes "info")
                (object (member (codes "revision") (string revision) end))
                end)));
      result = true;
    })
unfolding program
converts = refl

pub ready : IsReady sample_json top revision histograms
ready = record {
  info = member (codes "revision") (string revision) end;
  info_read = refl;
  revision_read = refl;
  histograms_read = refl;
  version_read = refl;
}

pub all_well_formed : AllWellFormed flag_specification
all_well_formed name d h =
    get_definition-IsWellFormed sample_json cast_digit specification_document flag_specification
      name d loads h

pub all_resolve : AllResolve sample_json flag_specification histograms
unfolding program
all_resolve = ((some (flag, flag_definition), refl), tt)

convert-IsUpdate_example :
    (top' : Members ℤ) × (ms' : Members ℤ) × (r : Bool) × (convert_histogram_data sample_json knows
        tt
        (object top)
      ≡ ok (record { cache = tt; doc = object top'; result = r }))
    × Rewrites sample_json flag_specification histograms ms' r
    × IsUpdate sample_json top top' ms' r
convert-IsUpdate_example =
    convert-IsUpdate sample_json knows tt top revision histograms tt flag_specification ready refl
      all_well_formed all_resolve

-- A document that was converted has version 2.
abbrev old : Members ℤ
old = member (codes "ver") (int (pos 2)) top

old_version : lookup sample_json old (codes "ver") ≢ int (pos 1)
old_version e = cc e

convert_other_version_example :
    convert_histogram_data sample_json knows tt (object old)
    ≡ ok (record { cache = tt; doc = object old; result = false })
convert_other_version_example = convert_other_version sample_json knows tt old old_version

rewrite_histogram-Rewrites_example :
    (ms' : Members ℤ) × (r : Bool) × (rewrite_histogram sample_json flag_specification histograms
      ≡ ok (ms', r))
    × Rewrites sample_json flag_specification histograms ms' r
rewrite_histogram-Rewrites_example =
    rewrite_histogram-Rewrites sample_json flag_specification histograms all_well_formed all_resolve

flag_IsWellFormed : IsWellFormed flag_definition
unfolding find_bucket
flag_IsWellFormed = record { size = 3; count = refl; in_range = λ k i h. ground arith }

rewrite_values-last_count_example :
    (r : Option (List ℤ)) × (rewrite_values sample_json flag_definition
        (object histogram)
        (replicate 3 (pos 0))
      ≡ ok r)
    × LoopResult flag_definition counts (replicate 3 (pos 0)) r
unfolding flag_IsWellFormed
rewrite_values-last_count_example =
    rewrite_values-last_count sample_json flag_definition flag_IsWellFormed histogram counts refl

-- "STARTUP_" in front of a name that has a definition hides it.
startup_hides : resolve flag_specification (codes "STARTUP_FLAG_USAGE") ≡ ok none
unfolding program
startup_hides = refl

abbrev other_name : Bytes
other_name = codes "SHUTDOWNFLAG_USAGE"

-- Any other eight bytes in front of it are chopped off.
resolve-some_iff_example :
    (resolve flag_specification other_name ≡ ok (some (flag, flag_definition))) ↔ (
      ((get_definition flag_specification (c_str other_name) ≡ some flag_definition)
        × (flag ≡ other_name))
      ⊎ ((get_definition flag_specification (c_str other_name) ≡ none)
          × (8 ≤ length (c_str other_name))
          × (bytes_eq (take 8 (c_str other_name)) (codes "STARTUP_") ≡ false)
          × (flag ≡ drop 8 (c_str other_name))
          × (get_definition flag_specification flag ≡ some flag_definition)))
resolve-some_iff_example = resolve-some_iff flag_specification other_name flag flag_definition

chopped : resolve flag_specification other_name ≡ ok (some (flag, flag_definition))
unfolding program
chopped = refl

short_name : resolve flag_specification (codes "SHORT") ≡ fault out_of_bounds
unfolding program
short_name = refl

resolve-fault_iff_example : (resolve flag_specification (codes "SHORT") ≡ fault out_of_bounds) ↔ (
    (get_definition flag_specification (c_str (codes "SHORT")) ≡ none)
    × (length (c_str (codes "SHORT")) < 8))
resolve-fault_iff_example = resolve-fault_iff flag_specification (codes "SHORT")
