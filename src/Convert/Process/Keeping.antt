-- ===== src/Convert/Process/Keeping.antt =====
-- convert.cpp: the faults of the body of the loop of `ProcessFile`. `F` is what may be said of a fault,
-- `Sound` of the cache and `Fits` of a document that was converted.
use mozilla_telemetry.Prelude.{ℕ, ◌≡◌, refl, Bool-cases, inl, inr, arith, Bytes}
use mozilla_telemetry.Outcome.{Outcome, ok, throw, fault, Fault}
use mozilla_telemetry.Exec.{Exec}
use mozilla_telemetry.Json.{Rapidjson, Value}
use mozilla_telemetry.Record.Bounds.{IsSound}
use mozilla_telemetry.Record.Inflate.{Zlib}
use mozilla_telemetry.Record.Read.{get_document}
use mozilla_telemetry.Converter.Document.{FindHistogram, Converted, convert_histogram_data}
use mozilla_telemetry.Outcome.Ensures.{Ensures, Any}
use mozilla_telemetry.Schema.{TelemetrySchema, Boost}
use mozilla_telemetry.Schema.DimensionPath.{get_dimension_path}
use mozilla_telemetry.Writer.{Sink}
use mozilla_telemetry.Convert.Process.{Run, with_converted, deliver, process_one}

module _ {D C S : Type 0} (memory : ℕ) (Sound : C → Type 0) where
  -- The buffers of the reader are in order, and the cache is sound.
  pub record IsRunning (r : Run D C S) : Type 0 where
    pub reader : IsSound memory r.reader
    pub cache : Sound r.cache

module _ {D C S : Type 0} (F : C → Value D → Fault → Type 0) (memory : ℕ) (Sound : C → Type 0) where
  -- A call that has no fault but those that `F` allows for the cache and the document of the reader, and
  -- keeps the objects
  pub record Keeps {A : Type 0} (o : Outcome A) (r : Run D C S) : Type 0 where
    pub ensures : Ensures (F r.cache r.reader.document) Any o
    pub kept : IsRunning memory Sound r

module _ (J : Rapidjson) (Z : Zlib) (memory junk : ℕ) (B : Boost J.Double) {C : Type 0}
    (find_histogram : FindHistogram C) (write_json : Value J.Double → Bytes) (K : Sink B.FsPath)
    (F : C → Value J.Double → Fault → Type 0) (Sound : C → Type 0) (Fits : Value J.Double → Type 0)
    (places : (cache : C) (doc : Value J.Double) (schema : TelemetrySchema J.Double)
      → Fits doc
      → Ensures (F cache doc) Any (get_dimension_path J B doc schema).0) where
  open J use {Double}
  open B use {FsPath}

  abbrev pub Running : Type 0
  Running = Run Double C K.State

  abbrev deliver_it : Exec Running (Unit {0})
  deliver_it = deliver J Z memory junk B find_histogram write_json K

  deliver_cases :
      (r : Running) (path : Outcome FsPath)
      → IsRunning memory Sound r
      → Ensures (F r.cache (get_document r.reader)) Any path
      → (get_dimension_path J B (get_document r.reader) r.schema).0 ≡ path
      → Keeps F memory Sound (deliver_it r).0 (deliver_it r).1
  unfolding deliver get_document
  deliver_cases r (ok path) w h e =
      rw (e, deliver)
        (record { ensures = tt; kept = record { reader = w.reader; cache = w.cache } })
  deliver_cases r (throw what) w h e =
      rw (e, deliver)
        (record { ensures = tt; kept = record { reader = w.reader; cache = w.cache } })
  deliver_cases r (fault kind) w h e =
      rw (e, deliver) (record { ensures = h; kept = record { reader = w.reader; cache = w.cache } })

  abbrev pub one : Exec Running (Unit {0})
  one = process_one J Z memory junk B find_histogram write_json K

  abbrev with_it : Converted C Double → Running → Running
  with_it = with_converted J Z memory junk B find_histogram write_json K

  with_it-IsRunning :
      (c : Converted C Double) (r : Running)
      → IsRunning memory Sound r
      → Sound c.cache
      → IsRunning memory Sound (with_it c r)
  with_it-IsRunning c r w s = record { reader = ground (arith, w.reader); cache = s }

  -- Where the conversion has no fault but those that `F` allows, and leaves a sound cache and a document
  -- that fits, the body of the loop keeps the objects.
  pub process_one_cases :
      (r : Running) (o : Outcome (Converted C Double))
      → IsRunning memory Sound r
      → Ensures (F r.cache (get_document r.reader)) (λ c. Sound c.cache × Fits c.doc) o
      → convert_histogram_data J find_histogram r.cache (get_document r.reader) ≡ o
      → Keeps F memory Sound (one r).0 (one r).1
  unfolding process_one get_document
  process_one_cases r (ok c) w h e = elim (Bool-cases c.result) [
    | inl fine ↦
        rw (e, fine, process_one)
          (deliver_cases (with_it c r) _ (with_it-IsRunning c r w h.0)
            (places c.cache c.doc r.schema h.1) refl)
    | inr bad ↦
        let w' = with_it-IsRunning c r w h.0 in
        rw (e, bad, process_one)
          (record { ensures = tt; kept = record { reader = w'.reader; cache = w'.cache } })
  ]
  process_one_cases r (throw what) w h e = rw (e, process_one) (record { ensures = tt; kept = w })
  process_one_cases r (fault kind) w h e = rw (e, process_one) (record { ensures = h; kept = w })
