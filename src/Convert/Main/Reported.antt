-- ===== src/Convert/Main/Reported.antt =====
-- convert.cpp: what a round of the loop of `main` adds to the log.
use mozilla_telemetry.Prelude.{
  ℕ, ◌≡◌, refl, sym, ap, ◌∙◌, true, false, Bool-cases, inl, inr, not, ◌||◌, some, List, [], ◌∷◌,
  ◌++◌, append_assoc, map, Bytes, codes,
}
use mozilla_telemetry.Outcome.{Outcome, ok, throw, fault, Fault}
use mozilla_telemetry.Outcome.Ensures.{Ensures, Any}
use mozilla_telemetry.Exec.{Exec}
use mozilla_telemetry.Exec.Keeping.{Keeping}
use mozilla_telemetry.Metric.{Message, Field, shown}
use mozilla_telemetry.Json.{Rapidjson, Value}
use mozilla_telemetry.Record.Inflate.{Zlib}
use mozilla_telemetry.Record.Report
use mozilla_telemetry.Converter.Document.{FindHistogram}
use mozilla_telemetry.Schema.{Boost}
use mozilla_telemetry.Schema.DimensionPath
use mozilla_telemetry.Cache.{HistogramCache}
use mozilla_telemetry.Cache
use mozilla_telemetry.Writer.{Sink}
use mozilla_telemetry.Wire.{WireFormat}
use mozilla_telemetry.Wire.Framing.{Encoder, Output, write_message, framed, frames_of}
use mozilla_telemetry.Convert.Main.{
  Host, Main, roll_log, on_world, roll, report_all, announce, main_round,
}
use mozilla_telemetry.Convert.Main.Keeping.{FileParts, RoundParts, main_round-Keeping}
use mozilla_telemetry.Convert.Main.Reports.{shows, measures, report_all-messages}

-- The four messages about a file: one message, under four loggers and with the fields of four objects
pub record Group : Type 0 where
  pub message : Message
  pub cache : List Field
  pub reader : List Field
  pub schema : List Field
  pub converter : List Field

-- The messages of groups, in order
abbrev pub messages_of : List Group → List Message
messages_of [] = []
messages_of (g ∷ gs) =
    record g.message { logger = some (codes "cache"); fields = g.cache }
    ∷ record g.message { logger = some (codes "record"); fields = g.reader }
    ∷ record g.message { logger = some (codes "schema"); fields = g.schema }
    ∷ record g.message { logger = some (codes "converter"); fields = g.converter }
    ∷ messages_of gs

module _ (F : WireFormat) (E : Encoder) where
  messages_of-append :
      (gs hs : List Group)
      → frames_of F E (messages_of (gs ++ hs))
        ≡ frames_of F E (messages_of gs) ++ frames_of F E (messages_of hs)
  messages_of-append [] hs = refl
  messages_of-append (g ∷ gs) hs =
      let a = framed F E (record g.message { logger = some (codes "cache"); fields = g.cache }) in
      let b = framed F E (record g.message { logger = some (codes "record"); fields = g.reader }) in
      let c = framed F E (record g.message { logger = some (codes "schema"); fields = g.schema }) in
      let d =
        framed F E (record g.message { logger = some (codes "converter"); fields = g.converter }) in
      four a b c d _ _ _ (messages_of-append gs hs)
    where
      four :
          (a b c d s t u : Bytes)
          → s ≡ t ++ u
          → a ++ (b ++ (c ++ (d ++ s))) ≡ (a ++ (b ++ (c ++ (d ++ t)))) ++ u
      four a b c d s t u e =
          ap (λ (x : Bytes). a ++ (b ++ (c ++ (d ++ x)))) e
          ∙ ap (λ (x : Bytes). a ++ (b ++ (c ++ x))) (sym (append_assoc d t u))
          ∙ ap (λ (x : Bytes). a ++ (b ++ x)) (sym (append_assoc c (d ++ t) u))
          ∙ ap (λ (x : Bytes). a ++ x) (sym (append_assoc b (c ++ (d ++ t)) u))
          ∙ sym (append_assoc a (b ++ (c ++ (d ++ t))) u)

module _ (J : Rapidjson) (Z : Zlib) (memory junk : ℕ) (B : Boost J.Double) {N : Type 0}
    (find_histogram : FindHistogram (HistogramCache × N)) (write_json : Value J.Double → Bytes)
    (K : Sink B.FsPath) (F : WireFormat) (E : Encoder) {W : Type 0} (host : Host W)
    (base : Bytes) where
  abbrev The : Type 0
  The = Main J Z memory junk B find_histogram write_json K F E host

  -- The log has whole groups behind the bytes `base`.
  pub record IsReported (d : The) : Type 0 where
    pub groups : List Group
    pub log : d.log.written ≡ base ++ frames_of F E (messages_of groups)

  -- Any fault
  abbrev Some : The → Fault → Type 0
  Some d kind = Unit

  abbrev Reporting : {A : Type 0} → Exec The A → Type 0
  Reporting m = Keeping Some IsReported m

  any : {A : Type 0} (o : Outcome A) → Ensures (λ kind. Unit {0}) Any o
  any (ok a) = tt
  any (throw what) = tt
  any (fault kind) = tt

  on_world-Reporting :
      {A : Type 0} (f : Exec W A)
      → Reporting (on_world J Z memory junk B find_histogram write_json K F E host f)
  on_world-Reporting f d h = (any (f d.world).0, record { groups = h.groups; log = h.log })

  abbrev reports : Exec The (Unit {0})
  reports = report_all J Z memory junk B find_histogram write_json K F E host

  abbrev group_of : The → Group
  group_of d = record {
    message = d.message;
    cache = shows (Cache.counters d.run.cache.0.metrics);
    reader = shows (Report.counters d.run.reader.metrics);
    schema = shows (DimensionPath.counters d.run.schema.metrics);
    converter = map shown (measures d.run.metrics);
  }

  -- A log that has failed gets none of the messages.
  failed_log : (d : The) → d.log.is_good ≡ false → (reports d).1.log ≡ d.log
  unfolding report_all write_message
  failed_log d bad = rw (bad, write_message) refl

  good_log : (d : The) → IsReported d → d.log.is_good ≡ true → IsReported (reports d).1
  good_log d h good =
      let (d', run, log, cleared, world) =
        report_all-messages J Z memory junk B find_histogram write_json K F E host d good in
      record {
        groups = h.groups ++ (group_of d ∷ []);
        log =
            ap (λ (o : Outcome (Unit {0}) × The). o.1.log.written) run
            ∙ ap (λ (os : Output). os.written) log
            ∙ ap (λ (w : Bytes). w ++ frames_of F E (messages_of (group_of d ∷ []))) h.log
            ∙ append_assoc base _ _
            ∙ ap (λ (w : Bytes). base ++ w)
                (sym (messages_of-append F E h.groups (group_of d ∷ [])));
      }

  reports-Reporting : Reporting reports
  reports-Reporting d h = elim (Bool-cases d.log.is_good) [
    | inl good ↦ (any (reports d).0, good_log d h good)
    | inr bad ↦ (
      any (reports d).0,
      record {
        groups = h.groups;
        log = ap (λ (os : Output). os.written) (failed_log d bad) ∙ h.log;
      },
    )
  ]

  announce-Reporting :
      (tfn uuid : Bytes)
      → Reporting (announce J Z memory junk B find_histogram write_json K F E host tfn uuid)
  unfolding announce
  announce-Reporting tfn uuid d h =
      reports-Reporting
        (record d {
          message = record d.message {
            uuid = some uuid;
            timestamp = some (host.now d.world);
            payload = some (host.filename tfn);
          };
        })
        (record { groups = h.groups; log = h.log })

  module _ (input log_file : Bytes) where
    roll-Reporting :
        Reporting (roll J Z memory junk B find_histogram write_json K F E host log_file)
    unfolding roll_log
    roll-Reporting d h = elim (Bool-cases (not d.log.is_good || not d.log.is_open)) [
      | inl closed ↦ rw (closed, roll, roll_log) (tt, record { groups = h.groups; log = h.log })
      | inr fine ↦ rw (fine, roll, roll_log) (tt, record { groups = h.groups; log = h.log })
    ]

    reporting_file :
        FileParts J Z memory junk B find_histogram write_json K F E host Some IsReported log_file
    reporting_file = record {
      processes = λ tfn d h. (any _, record { groups = h.groups; log = h.log });
      removes = λ tfn. on_world-Reporting (host.remove tfn);
      rolls = roll-Reporting;
      draws = on_world-Reporting host.random_uuid;
      announces = announce-Reporting;
    }

    reporting_round :
        RoundParts J Z memory junk B find_histogram write_json K F E host Some IsReported log_file
          input
    reporting_round = record {
      file = reporting_file;
      places = λ name. on_world-Reporting (host.temp_path name);
      renames = λ fn tfn. on_world-Reporting (host.rename fn tfn);
      lists = λ d h. any (host.list_directory d.world input);
      waits = λ d h. record { groups = h.groups; log = h.log };
    }

    -- A round writes whole groups.
    pub main_round-Reporting :
        Reporting (main_round J Z memory junk B find_histogram write_json K F E host input log_file)
    main_round-Reporting =
        main_round-Keeping J Z memory junk B find_histogram write_json K F E host Some IsReported
          log_file input reporting_round
