-- ===== src/Tests/StepsTest.antt =====
-- Runs of the daemon of convert.cpp with signals.
use mozilla_telemetry.Prelude.{
  ℕ, ◌≡◌, ◌≢◌, refl, Bool, true, false, none, some, arith, List, [], ◌∷◌, Bytes, codes,
}
use mozilla_telemetry.Prelude.Int.{ℤ, pos}
use mozilla_telemetry.Outcome.{Outcome, ok}
use mozilla_telemetry.Metric.{new_message}
use mozilla_telemetry.Cache.{HistogramCache}
use mozilla_telemetry.Cache.Client.{cached}
use mozilla_telemetry.Converter.Document.{FindHistogram}
use mozilla_telemetry.Writer.{collector}
use mozilla_telemetry.Record.Read.{read_record}
use mozilla_telemetry.Convert.Process.{Run, new_metrics, process_file}
use mozilla_telemetry.Convert.Main.{Daemon, roll_log, main_loop}
use mozilla_telemetry.Convert.Main.Signals.{Signalled, shutdown, arrive, signalled}
use mozilla_telemetry.Convert.Main.Reported.{IsReported}
use mozilla_telemetry.Convert.Main.Steps.{turn, interrupt, change, Reaches, here, step, round}
use mozilla_telemetry.Convert.Main.Steps.Logged.{Reaches-IsReported}
use mozilla_telemetry.Convert.Main.Steps.Stopped.{main_loop-shutdown}
use mozilla_telemetry.Tests.Instances.{sample_json, stored_zlib}
use mozilla_telemetry.Tests.SpecificationTest.{cast_digit}
use mozilla_telemetry.Tests.RecordTest.{memory, fresh}
use mozilla_telemetry.Tests.SchemaTest.{parts_boost, schema}
use mozilla_telemetry.Tests.CacheTest.{server, missing, empty}
use mozilla_telemetry.Tests.ProcessTest.{write_json}
use mozilla_telemetry.Tests.MainTest.{files}
use mozilla_telemetry.Tests.WireTest.{small, messages_of}

abbrev finds : FindHistogram (HistogramCache × Unit {0})
finds = cached sample_json cast_digit (server missing)

abbrev State : Type 0
State =
    Daemon (Run ℤ (HistogramCache × Unit {0}) (List (List Bytes × Bytes))) (Signalled (List Bytes))

abbrev started : State
started = record {
  run = record {
    reader = fresh;
    cache = (empty, tt);
    schema = schema;
    writer = [];
    metrics = new_metrics;
  };
  message = new_message;
  log = record { is_open = true; is_good = true; written = [] };
  world = record { g_stop = pos 0; coming = []; rest = codes "a" ∷ [] };
}

abbrev one_round : State → State
one_round d =
    (round sample_json stored_zlib memory 0 parts_boost finds write_json (collector (List Bytes))
      small messages_of files (codes "in") (codes "log") d).1

abbrev stopped : State → State
stopped d = record d { world = shutdown (pos 15) d.world }

abbrev changed : State → State
changed d = record d { world = record d.world { rest = codes "b" ∷ [] } }

abbrev Reaching : State → State → Type 0
Reaching =
    Reaches sample_json stored_zlib memory 0 parts_boost finds write_json (collector (List Bytes))
      small messages_of files (codes "in") (codes "log")

-- A round about the file, a signal, and a file that comes too late
run_of_three : Reaching started (changed (stopped (one_round started)))
run_of_three = step (turn started refl) (
    step (interrupt (one_round started) (pos 15))
      (step (change (stopped (one_round started)) (codes "b" ∷ [])) here))

Reaches-IsReported_example :
    IsReported sample_json stored_zlib memory 0 parts_boost finds write_json
      (collector (List Bytes))
      small
      messages_of
      (signalled files)
      []
      (changed (stopped (one_round started)))
Reaches-IsReported_example =
    Reaches-IsReported sample_json stored_zlib memory 0 parts_boost finds write_json
      (collector (List Bytes)) small messages_of files (codes "in") (codes "log") started
      (changed (stopped (one_round started))) run_of_three

-- Two files, and a signal during the second call: while the first file is renamed
abbrev disturbed : State
disturbed = record started {
  world = record {
    g_stop = pos 0;
    coming = none ∷ some (pos 15) ∷ [];
    rest = codes "a" ∷ codes "b" ∷ [];
  };
}

abbrev rounds : ℕ → Outcome Bool × State
rounds n =
    main_loop sample_json stored_zlib memory 0 parts_boost finds write_json (collector (List Bytes))
      small messages_of (signalled files) (codes "in") (codes "log") n disturbed

-- The first file is finished, and the second is left.
finishes_first : ((rounds 5).0 ≡ ok false) × ((rounds 5).1.world.rest ≡ codes "b" ∷ [])
unfolding main_loop process_file read_record arrive roll_log
finishes_first = (refl, refl)

main_loop-shutdown_example :
    ((rounds 5).0 ≢ ok true)
    × (rounds 5 ≡ rounds 3)
    × IsReported sample_json stored_zlib memory 0 parts_boost finds write_json
        (collector (List Bytes))
        small
        messages_of
        (signalled files)
        []
        (rounds 5).1
main_loop-shutdown_example =
    main_loop-shutdown sample_json stored_zlib memory 0 parts_boost finds write_json
      (collector (List Bytes)) small messages_of files (codes "in") (codes "log") 5 2 disturbed
      (omega arith) tt
