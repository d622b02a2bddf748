-- ===== src/Tests/CacheTest.antt =====
-- Runs of common/HistogramCache.cpp, after common/test/TestHistogramCache.cpp.
use mozilla_telemetry.Prelude.{
  suc, Bool, leb, ◌≡◌, refl, Option, some, none, inr, [], ◌∷◌, ◌++◌, Bytes, codes, c_str,
}
use mozilla_telemetry.Prelude.Int.{ℤ}
use mozilla_telemetry.Outcome.{Outcome, ok}
use mozilla_telemetry.Json.{Members, object, document, Rapidjson}
use mozilla_telemetry.Specification.{
  HistogramSpecification, new_specification, new_definition, load_buckets, insert_bucket,
  find_bucket, insert_definition, find_definition,
}
use mozilla_telemetry.Converter.Histograms.{Rewrites}
use mozilla_telemetry.Converter.Document.{convert_histogram_data}
use mozilla_telemetry.Converter.Document.Versions.{IsUpdate}
use mozilla_telemetry.Cache.{
  HistogramCache, new_cache, new_metrics, Answer, Network, find_entry, insert_entry,
}
use mozilla_telemetry.Cache.Response.{read_status, read_token, read_unsigned}
use mozilla_telemetry.Cache.Load.{find_histogram, count_hit, tmp_name}
use mozilla_telemetry.Cache.Invariant.{IsSound, IsSoundResult, find_histogram-IsSound}
use mozilla_telemetry.Cache.Revisions.{find_histogram-find_histogram, find_histogram_refused}
use mozilla_telemetry.Cache.Client.{cached, convert_cached}
use mozilla_telemetry.Tests.Instances.{sample_json}
use mozilla_telemetry.Tests.SpecificationTest.{
  cast_digit, flag_specification, specification_document,
}
use mozilla_telemetry.Tests.ConverterTest.{
  revision, top, histograms, ready, all_resolve, all_well_formed,
}

-- A parser that reads every text as the same specification.
abbrev one_json : Rapidjson
one_json = record sample_json { parse = λ s. document specification_document }

abbrev crlf : Bytes
crlf = 13 ∷ 10 ∷ []

abbrev response : Bytes → Answer
response line = record {
  buffered = line ++ crlf;
  headers = ok (codes "Server: x" ++ (crlf ++ (crlf ++ codes "{")));
  content = codes "}";
  failure = none;
}

-- A server that answers every request in one way, without temporary files.
abbrev pub server : Bytes → Network Unit
server line = record {
  open_file = λ w name. inr none;
  write_file = λ w name text. w;
  exchange = λ w host port request. (w, ok (response line));
  md5 = λ text. text;
}

program : Unit {0}
unfolding find_histogram read_status read_token read_unsigned new_specification new_definition
    load_buckets insert_bucket find_bucket insert_definition find_definition find_entry insert_entry
    tmp_name new_cache c_str
program = tt

abbrev pub fine : Bytes
fine = codes "HTTP/1.0 200 OK"

abbrev pub missing : Bytes
missing = codes "HTTP/1.0 404 Not Found"

abbrev pub empty : HistogramCache
empty = record {
  histogram_server = codes "localhost";
  histogram_server_port = codes "9898";
  cache = [];
  revisions = [];
  metrics = new_metrics;
}

host_and_port : new_cache (codes "localhost:9898") ≡ empty
unfolding program
host_and_port = refl

abbrev found : Outcome (Option HistogramSpecification) × (HistogramCache × Unit {0})
found = find_histogram one_json cast_digit (server fine) revision (empty, tt)

loads : found.0 ≡ ok (some flag_specification)
unfolding program
loads = refl

empty-IsSound : IsSound empty
empty-IsSound = record { cache = tt; revisions = tt }

find_histogram-IsSound_example :
    IsSoundResult (find_histogram one_json cast_digit (server fine) revision (empty, tt))
find_histogram-IsSound_example =
    find_histogram-IsSound one_json cast_digit (server fine) revision empty tt empty-IsSound

returns :
    find_histogram one_json cast_digit (server fine) revision (empty, tt)
    ≡ (ok (some flag_specification), (found.1.0, tt))
unfolding program
returns = refl

find_histogram-find_histogram_example :
    find_histogram one_json cast_digit (server fine) revision (found.1.0, tt)
    ≡ (ok (some flag_specification), (count_hit found.1.0, tt))
find_histogram-find_histogram_example =
    find_histogram-find_histogram one_json cast_digit (server fine) revision empty found.1.0 tt tt
      tt flag_specification returns

status_read :
    read_status (missing ++ crlf)
    ≡ some (record { http_version = codes "HTTP/1.0"; status_code = 404; rest = []; eof = leb 1 0 })
unfolding program
status_read = refl

no_entry : find_entry revision empty.revisions ≡ none
unfolding find_entry
no_entry = refl

find_histogram_refused_example :
    (h' : HistogramCache) × (w'' : Unit {0}) × (find_histogram one_json cast_digit
        (server missing)
        revision
        (empty, tt)
      ≡ (ok none, (h', w'')))
    × (h'.metrics.http_errors.value ≡ suc empty.metrics.http_errors.value)
    × (find_histogram one_json cast_digit (server missing) revision (h', tt)
        ≡ (ok none, (count_hit h', tt)))
find_histogram_refused_example =
    find_histogram_refused one_json cast_digit (server missing) revision empty tt tt
      (response missing) _ _ refl no_entry refl refl status_read refl refl refl

-- A cache that knows the revision.
abbrev known : HistogramCache
known = record empty { revisions = (revision, some flag_specification) ∷ [] }

known-IsSound : IsSound known
known-IsSound = record { cache = tt; revisions = (all_well_formed, tt) }

hit :
    find_histogram sample_json cast_digit (server missing) (c_str revision) (known, tt)
    ≡ (ok (some flag_specification), (count_hit known, tt))
unfolding program
hit = refl

convert_cached_example :
    (top' : Members ℤ) × (ms' : Members ℤ) × (r : Bool) × (convert_histogram_data sample_json
        (cached sample_json cast_digit (server missing))
        (known, tt)
        (object top)
      ≡ ok (record { cache = (count_hit known, tt); doc = object top'; result = r }))
    × Rewrites sample_json flag_specification histograms ms' r
    × IsUpdate sample_json top top' ms' r
    × IsSound (count_hit known)
convert_cached_example =
    convert_cached sample_json cast_digit (server missing) (known, tt) (count_hit known, tt) top
      revision histograms flag_specification known-IsSound ready hit all_resolve
