-- ===== src/Convert/Main/Steps/Logged.antt =====
-- convert.cpp: what the log holds after any steps.
use mozilla_telemetry.Prelude.{ℕ, sym, [], append-nil, Bytes}
use mozilla_telemetry.Json.{Rapidjson, Value}
use mozilla_telemetry.Record.Inflate.{Zlib}
use mozilla_telemetry.Converter.Document.{FindHistogram}
use mozilla_telemetry.Schema.{Boost}
use mozilla_telemetry.Cache.{HistogramCache}
use mozilla_telemetry.Writer.{Sink}
use mozilla_telemetry.Wire.{WireFormat}
use mozilla_telemetry.Wire.Framing.{Encoder}
use mozilla_telemetry.Convert.Main.{Host}
use mozilla_telemetry.Convert.Main.Signals.{signalled}
use mozilla_telemetry.Convert.Main.Reported.{IsReported, main_round-Reporting}
use mozilla_telemetry.Convert.Main.Steps.{The, Step, turn, interrupt, change, Reaches, here, step}

module _ (J : Rapidjson) (Z : Zlib) (memory junk : ℕ) (B : Boost J.Double) {N : Type 0}
    (find_histogram : FindHistogram (HistogramCache × N)) (write_json : Value J.Double → Bytes)
    (K : Sink B.FsPath) (F : WireFormat) (E : Encoder) {W : Type 0} (host : Host W)
    (input log_file : Bytes) where
  abbrev Daemon : Type 0
  Daemon = The J Z memory junk B find_histogram write_json K F E host input log_file

  abbrev Reported : Bytes → Daemon → Type 0
  Reported = IsReported J Z memory junk B find_histogram write_json K F E (signalled host)

  step-IsReported :
      (base : Bytes) (d d' : Daemon)
      → Step J Z memory junk B find_histogram write_json K F E host input log_file d d'
      → Reported base d
      → Reported base d'
  step-IsReported base _ _ (turn d going) h =
      (main_round-Reporting J Z memory junk B find_histogram write_json K F E (signalled host) base
        input log_file d h).1
  step-IsReported base _ _ (interrupt d signal) h = record { groups = h.groups; log = h.log }
  step-IsReported base _ _ (change d w) h = record { groups = h.groups; log = h.log }

  steps-IsReported :
      (base : Bytes) (d d' : Daemon)
      → Reaches J Z memory junk B find_histogram write_json K F E host input log_file d d'
      → Reported base d
      → Reported base d'
  steps-IsReported base _ _ here h = h
  steps-IsReported base d d' (step {d' = e} s more) h =
      steps-IsReported base e d' more (step-IsReported base d e s h)

  -- After any rounds, signals and changes of the files in any order, the log of the daemon is what it was
  -- with the frames of whole groups of four messages behind it: the messages of a group have the same
  -- uuid, timestamp and payload, and are about the cache, the reader, the schema and the converter in
  -- this order. No exception or fault of a round leaves a part of a group.
  pub Reaches-IsReported :
      (d d' : Daemon)
      → Reaches J Z memory junk B find_histogram write_json K F E host input log_file d d'
      → Reported d.log.written d'
  Reaches-IsReported d d' r =
      steps-IsReported d.log.written d d' r
        (record { groups = []; log = sym (append-nil d.log.written) })
