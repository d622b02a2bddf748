-- ===== src/Convert/Main/Reports.antt =====
-- convert.cpp: the four messages that `main` writes about a file.
use mozilla_telemetry.Prelude.{ℕ, ◌≡◌, refl, true, some, List, [], ◌∷◌, ◌++◌, map, Bytes, codes}
use mozilla_telemetry.Outcome.{ok}
use mozilla_telemetry.Metric.{
  Metric, Number, Counter, Field, Message, shown, exact, whole, reset, construct_field,
}
use mozilla_telemetry.Json.{Rapidjson, Value}
use mozilla_telemetry.Record.Inflate.{Zlib}
use mozilla_telemetry.Record.Report
use mozilla_telemetry.Converter.Document.{FindHistogram}
use mozilla_telemetry.Schema.{Boost}
use mozilla_telemetry.Schema.DimensionPath
use mozilla_telemetry.Cache.{HistogramCache}
use mozilla_telemetry.Cache
use mozilla_telemetry.Writer.{Sink}
use mozilla_telemetry.Wire.{WireFormat}
use mozilla_telemetry.Wire.Framing.{Encoder, write_all, frames_of, write_all-frames_of}
use mozilla_telemetry.Convert.Process
use mozilla_telemetry.Convert.Main.{Host, Running, Main, report_all}

-- The metrics of the program, in the order of a report
abbrev pub measures : Process.Metrics → List (Metric Number)
measures g =
    exact g.records_processed
    ∷ exact g.records_failed
    ∷ exact g.data_in
    ∷ exact g.data_out
    ∷ g.processing_time
    ∷ g.processing_throughput
    ∷ []

abbrev pub shows : List Counter → List Field
shows cs = map shown (map exact cs)

module _ (J : Rapidjson) (Z : Zlib) (memory junk : ℕ) (B : Boost J.Double) {N : Type 0}
    (find_histogram : FindHistogram (HistogramCache × N)) (write_json : Value J.Double → Bytes)
    (K : Sink B.FsPath) (F : WireFormat) (E : Encoder) {W : Type 0} (host : Host W) where
  abbrev The : Type 0
  The = Main J Z memory junk B find_histogram write_json K F E host

  abbrev Runs : Type 0
  Runs = Running J Z memory junk B find_histogram write_json K F E host

  -- The message, under this name and with these fields
  abbrev pub about : Message → Bytes → List Field → Message
  about m logger fields = record m { logger = some logger; fields = fields }

  -- The four messages
  abbrev pub messages : The → List Message
  messages d =
      about d.message (codes "cache") (shows (Cache.counters d.run.cache.0.metrics))
      ∷ about d.message (codes "record") (shows (Report.counters d.run.reader.metrics))
      ∷ about d.message (codes "schema") (shows (DimensionPath.counters d.run.schema.metrics))
      ∷ about d.message (codes "converter") (map shown (measures d.run.metrics))
      ∷ []

  -- Every counter and both measures start again at 0.
  pub record IsCleared (r r' : Runs) : Type 0 where
    pub cache : Cache.counters r'.cache.0.metrics ≡ map reset (Cache.counters r.cache.0.metrics)
    pub reader : Report.counters r'.reader.metrics ≡ map reset (Report.counters r.reader.metrics)
    pub schema :
        DimensionPath.counters r'.schema.metrics
        ≡ map reset (DimensionPath.counters r.schema.metrics)
    pub processed : r'.metrics.records_processed ≡ reset r.metrics.records_processed
    pub failed : r'.metrics.records_failed ≡ reset r.metrics.records_failed
    pub data_in : r'.metrics.data_in ≡ reset r.metrics.data_in
    pub data_out : r'.metrics.data_out ≡ reset r.metrics.data_out
    pub processing_time :
        r'.metrics.processing_time ≡ record r.metrics.processing_time { value = whole 0 }
    pub processing_throughput :
        r'.metrics.processing_throughput
        ≡ record r.metrics.processing_throughput { value = whole 0 }

  -- Behind a file, `main` writes four messages to a log that has not failed: about the cache, the
  -- record reader, the schema and the converter, in this order. Each holds the message's own members,
  -- its logger, and a field for every metric of its object, and all the counters and
  -- both measures then start again at 0.
  pub report_all-messages :
      (d : The)
      → d.log.is_good ≡ true
      → (d' : The) × (report_all J Z memory junk B find_histogram write_json K F E host d
          ≡ (ok tt, d'))
        × (d'.log ≡ record d.log { written = d.log.written ++ frames_of F E (messages d) })
        × IsCleared d.run d'.run
        × (d'.world ≡ d.world)
  unfolding report_all write_all Cache.get_metrics Report.get_metrics DimensionPath.get_metrics
      Process.get_metrics construct_field
  report_all-messages d good = (
    (report_all J Z memory junk B find_histogram write_json K F E host d).1,
    refl,
    write_all-frames_of F E d.log (messages d) good,
    record {
      cache = refl;
      reader = refl;
      schema = refl;
      processed = refl;
      failed = refl;
      data_in = refl;
      data_out = refl;
      processing_time = refl;
      processing_throughput = refl;
    },
    refl,
  )
