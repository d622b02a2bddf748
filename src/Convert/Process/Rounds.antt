-- ===== src/Convert/Process/Rounds.antt =====
-- convert.cpp: the loop of `ProcessFile` ends on every file.
use mozilla_telemetry.Prelude.{ℕ, ◌+◌, ◌^◌, ◌<◌, ◌≡◌, ◌≢◌, refl, ◌∙◌, Bytes, codes}
use mozilla_telemetry.Outcome.{Outcome, ok, throw, fault, Fault, out_of_fuel}
use mozilla_telemetry.Json.{Rapidjson, Value, object, at}
use mozilla_telemetry.Record.Bounds.{IsSound}
use mozilla_telemetry.Record.Inflate.{Zlib}
use mozilla_telemetry.Converter.Document.{FindHistogram, Converted, convert_histogram_data}
use mozilla_telemetry.Outcome.Rounds.{Ends, ok-Ends, throw-Ends}
use mozilla_telemetry.Outcome.Ensures.{Ensures, Any, Ensures-Ends, Ends-Ensures}
use mozilla_telemetry.Converter.Document.Rounds.{convert_histogram_data-Ends}
use mozilla_telemetry.Record.Read.Parsed.{IsParsed}
use mozilla_telemetry.Schema.{TelemetrySchema, Boost}
use mozilla_telemetry.Schema.DimensionPath.{get_dimension_path}
use mozilla_telemetry.Writer.{Sink}
use mozilla_telemetry.Convert.Process.{File, Run, process_stream, process_file, caught}
use mozilla_telemetry.Convert.Process.Keeping.{Keeps}
use mozilla_telemetry.Convert.Process.Faults.{process_file-Keeps}

-- A fault that is not about rounds
abbrev Other : Fault → Type 0
Other kind = kind ≢ out_of_fuel

module _ (J : Rapidjson) (Z : Zlib) (memory junk : ℕ) (B : Boost J.Double) {C : Type 0}
    (find_histogram : FindHistogram C) (write_json : Value J.Double → Bytes) (K : Sink B.FsPath)
    (small : memory + 1 < 2 ^ 32)
    (finds : (cache : C) (key : Bytes) → Ends (find_histogram cache key)) where
  open J use {Double}

  abbrev Running : Type 0
  Running = Run Double C K.State

  at-Ends : (v : Value Double) (k : Bytes) → Ends (at J v k)
  at-Ends (object ms) k = ok-Ends
  at-Ends v k = λ e. cc e

  info_cases :
      (doc : Value Double) (schema : TelemetrySchema Double) (info : Outcome (Value Double))
      → at J doc (codes "info") ≡ info
      → Ends (get_dimension_path J B doc schema).0
  unfolding get_dimension_path
  info_cases doc schema (ok (object ms)) e = rw (e, get_dimension_path) ok-Ends
  info_cases doc schema (ok v) e = rw (e, get_dimension_path) throw-Ends
  info_cases doc schema (throw what) e = rw (e, get_dimension_path) throw-Ends
  info_cases doc schema (fault kind) e =
      rw (e, get_dimension_path) (λ h. at-Ends doc (codes "info") (e ∙ cc h))

  converted_cases :
      (o : Outcome (Converted C Double))
      → Ensures Other Any o
      → Ensures Other (λ c. Unit {0} × Unit {0}) o
  converted_cases (ok c) h = (tt, tt)
  converted_cases (throw what) h = tt
  converted_cases (fault kind) h = h

  converts :
      (cache : C) (doc : Value Double)
      → Unit {0}
      → IsParsed J Z memory junk doc
      → Ensures Other (λ c. Unit {0} × Unit {0}) (convert_histogram_data J find_histogram cache doc)
  converts cache doc sound parsed =
      converted_cases (convert_histogram_data J find_histogram cache doc)
        (Ends-Ensures _ (convert_histogram_data-Ends J find_histogram finds cache doc))

  places :
      (cache : C) (doc : Value Double) (schema : TelemetrySchema Double)
      → Unit {0}
      → Ensures Other Any (get_dimension_path J B doc schema).0
  places cache doc schema fits = Ends-Ensures _ (info_cases doc schema _ refl)

  kept :
      (f : File) (r : Running)
      → Ends f.size
      → IsSound memory r.reader
      → Keeps
          (λ cache doc. Other)
          memory
          Any
          (process_file J Z memory junk B find_histogram write_json K f r).0
          (process_file J Z memory junk B find_histogram write_json K f r).1
  kept f r h w =
      process_file-Keeps J Z memory junk B find_histogram write_json K small (λ cache doc. Other)
        Any Any converts places f r (λ cache doc. Ends-Ensures _ h)
        (record { reader = w; cache = tt })

  no_throw :
      (o : Outcome (Unit {0}) × Running) (what : Bytes)
      → (caught J Z memory junk B find_histogram write_json K o).0 ≢ throw what
  no_throw (ok u, r) what = λ e. cc e
  no_throw (throw _, r) what = λ e. cc e
  no_throw (fault kind, r) what = λ e. cc e

  -- On every file, `ProcessFile` ends within the rounds that the model gives it, throws nothing, and
  -- leaves the buffers of the reader in order, if they were so before. `FindHistogram` and `file_size`
  -- must end, and the largest array must be within 32 bits.
  pub process_file-Ends :
      (f : File) (r : Running)
      → Ends f.size
      → IsSound memory r.reader
      → Ends (process_file J Z memory junk B find_histogram write_json K f r).0
        × ((what : Bytes)
            → (process_file J Z memory junk B find_histogram write_json K f r).0 ≢ throw what)
        × IsSound memory (process_file J Z memory junk B find_histogram write_json K f r).1.reader
  unfolding process_file
  process_file-Ends f r h w =
      let done = kept f r h w in
      (
        Ensures-Ends _ done.ensures,
        no_throw (process_stream J Z memory junk B find_histogram write_json K f r),
        done.kept.reader,
      )
