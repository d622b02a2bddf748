-- ===== src/Tests/BlameTest.antt =====
-- A run of `main` of convert.cpp on a configuration that is a number.
use mozilla_telemetry.Prelude.{◌≡◌, refl, Option, List, [], ◌∷◌, arith, Bytes, codes}
use mozilla_telemetry.Prelude.Int.{ℤ, pos}
use mozilla_telemetry.Convert.Process.{Run}
use mozilla_telemetry.Cache.{HistogramCache}
use mozilla_telemetry.Outcome.{Outcome, fault, failed_assertion}
use mozilla_telemetry.Json.{int, document, Rapidjson}
use mozilla_telemetry.Schema.{read_chars}
use mozilla_telemetry.Cache.Client.{cached}
use mozilla_telemetry.Writer.{collector}
use mozilla_telemetry.Convert.{read_config}
use mozilla_telemetry.Convert.Main.Faults.{IsQuietHost}
use mozilla_telemetry.Convert.Main.Start.{Exit, main}
use mozilla_telemetry.Convert.Main.Start.SetUp.{IsQuietSystem}
use mozilla_telemetry.Convert.Main.Start.Blame.{IsCulprit, main-IsCulprit}
use mozilla_telemetry.Tests.Instances.{sample_json, stored_zlib}
use mozilla_telemetry.Tests.SpecificationTest.{cast_digit}
use mozilla_telemetry.Tests.RecordTest.{memory}
use mozilla_telemetry.Tests.SchemaTest.{parts_boost}
use mozilla_telemetry.Tests.CacheTest.{server, fine}
use mozilla_telemetry.Tests.ConvertTest.{blank}
use mozilla_telemetry.Tests.WireTest.{small, messages_of}
use mozilla_telemetry.Tests.ProcessTest.{write_json, small_memory}
use mozilla_telemetry.Tests.StartTest.{one_log}

-- A parser that reads every text as a number.
abbrev number_json : Rapidjson
number_json = record sample_json { parse = λ s. document (int (pos 1)) }

files-IsQuietHost : IsQuietHost one_log.host
files-IsQuietHost = record {
  lists = λ w p. tt;
  places = λ p w. tt;
  renames = λ p q w. tt;
  removes = λ p w. tt;
  draws = λ w. tt;
  sizes = λ w p. tt;
}

one_log-IsQuietSystem : IsQuietSystem one_log
one_log-IsQuietSystem = record { host = files-IsQuietHost; creates = λ p w. tt }

abbrev run :
    Outcome Exit
    × (Option (Run ℤ (HistogramCache × Unit {0}) (List (List Bytes × Bytes))) × List Bytes)
run =
    main number_json stored_zlib memory 0 parts_boost (cached number_json cast_digit (server fine))
      write_json (collector (List Bytes)) (λ c. []) small messages_of one_log 0 tt blank
      (codes "convert.json" ∷ []) (codes "/in" ∷ [])

asserts : run.0 ≡ fault failed_assertion
unfolding main read_config read_chars
asserts = refl

main-IsCulprit_example :
    IsCulprit number_json
      (server fine)
      one_log
      (codes "convert.json")
      blank
      (codes "/in" ∷ [])
      run.1.0
main-IsCulprit_example =
    main-IsCulprit number_json stored_zlib memory 0 parts_boost cast_digit (server fine) write_json
      (collector (List Bytes)) (λ c. []) small_memory (omega arith) (λ w host port request. tt)
      small messages_of one_log one_log-IsQuietSystem 0 tt blank (codes "convert.json") []
      (codes "/in" ∷ []) failed_assertion asserts
