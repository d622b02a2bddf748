-- ===== src/Convert/Process/Blame.antt =====
-- convert.cpp: who is to blame for a fault of `ProcessFile`, a behaviour that C++ or an assertion of
-- rapidjson leaves undefined.
use mozilla_telemetry.Prelude.{
  c_str, false, ℕ, ◌+◌, ◌^◌, ◌<◌, ◌≡◌, refl, Bool, true, Option, Bytes, codes,
}
use mozilla_telemetry.Prelude.Int.{ℤ}
use mozilla_telemetry.Outcome.{Outcome, ok, throw, fault, Fault}
use mozilla_telemetry.Outcome.Ensures.{Ensures, Any, Never, Ensures-weaken}
use mozilla_telemetry.Json.{Rapidjson, Value, object, document, is_object, at}
use mozilla_telemetry.Record.Inflate.{Zlib}
use mozilla_telemetry.Record.Read.Parsed.{IsParsed}
use mozilla_telemetry.Converter.Document.{convert_histogram_data}
use mozilla_telemetry.Converter.Document.Faults.{IsBad, Revision, convert_histogram_data-Ensures}
use mozilla_telemetry.Schema.{TelemetrySchema, Boost}
use mozilla_telemetry.Schema.DimensionPath.{get_dimension_path}
use mozilla_telemetry.Cache.{HistogramCache, Network}
use mozilla_telemetry.Cache.Invariant.{IsSound}
use mozilla_telemetry.Cache.Client.{cached}
use mozilla_telemetry.Cache.Faults.{Supplied, cached-Ensures}
use mozilla_telemetry.Writer.{Sink}
use mozilla_telemetry.Convert.Process.{File, Run, process_file}
use mozilla_telemetry.Convert.Process.Keeping.{IsRunning, Keeps}
use mozilla_telemetry.Convert.Process.Faults.{process_file-Keeps}

-- What is to blame where the document of the reader is `doc`, and the cache and the network are `hw`: this
-- document, which the parser has made, or the specification that the call of `FindHistogram` on `hw` for
-- the document's own revision is supplied with, which is no object.
pub data IsBlamed (J : Rapidjson) {W : Type 0} (N : Network W) (hw : HistogramCache × W)
    (doc : Value J.Double) : Type 0 where
  bad_record : {text : Bytes} → J.parse text ≡ document doc → IsBad J doc → IsBlamed J N hw doc
  bad_specification :
      {key json : Bytes} {spec : Value J.Double}
      → Revision J doc key
      → Supplied N hw key json
      → J.parse (c_str json) ≡ document spec
      → is_object spec ≡ false
      → IsBlamed J N hw doc

-- The network does its work or throws, while a message is exchanged and while the headers are read.
abbrev pub IsQuiet : {W : Type 0} → Network W → Type 0
IsQuiet {W} N =
    (w : W) (host port request : Bytes)
    → Ensures Never (λ a. Ensures Never Any a.headers) (N.exchange w host port request).1

-- The cache of a pair of the cache and the network
abbrev pub SoundCache : {W : Type 0} → HistogramCache × W → Type 0
SoundCache hw = IsSound hw.0

module _ (J : Rapidjson) (Z : Zlib) (memory junk : ℕ) (B : Boost J.Double)
    (lexical_cast : Bytes → Option ℤ) {W : Type 0} (N : Network W)
    (write_json : Value J.Double → Bytes) (K : Sink B.FsPath) (small : memory + 1 < 2 ^ 32)
    (quiet : IsQuiet N) where
  open J use {Double}
  open B use {FsPath}

  abbrev Blame : HistogramCache × W → Value Double → Fault → Type 0
  Blame hw doc kind = IsBlamed J N hw doc

  no_fault :
      (hw : HistogramCache × W) (doc : Value Double) (kind : Fault) → Never kind → Blame hw doc kind
  no_fault hw doc kind h = absurd h

  answers :
      (hw : HistogramCache × W) (doc : Value Double) (w : W) (host port request : Bytes)
      → Ensures
          (Blame hw doc)
          (λ a. Ensures (Blame hw doc) Any a.headers)
          (N.exchange w host port request).1
  answers hw doc w host port request =
      Ensures-weaken Never (Blame hw doc) (λ a. Ensures Never Any a.headers)
        (λ a. Ensures (Blame hw doc) Any a.headers) (N.exchange w host port request).1
        (no_fault hw doc)
        (λ a. Ensures-weaken Never (Blame hw doc) Any Any a.headers (no_fault hw doc) (λ s u. tt))
        (quiet w host port request)

  converts :
      (hw : HistogramCache × W) (doc : Value Double)
      → SoundCache hw
      → IsParsed J Z memory junk doc
      → Ensures
          (Blame hw doc)
          (λ c. SoundCache c.cache × (is_object c.doc ≡ true))
          (convert_histogram_data J (cached J lexical_cast N) hw doc)
  converts hw doc sound parsed =
      convert_histogram_data-Ensures (Blame hw doc) J (cached J lexical_cast N) SoundCache hw doc
        (λ key its.
          cached-Ensures (Blame hw doc) J lexical_cast N hw key
            (λ json spec given made other. bad_specification its given made other) (answers hw doc)
            sound)
        sound (λ kind bad. bad_record parsed.made bad)

  place_cases :
      (hw : HistogramCache × W) (doc : Value Double) (schema : TelemetrySchema Double)
      (info : Outcome (Value Double))
      → at J doc (codes "info") ≡ info
      → is_object doc ≡ true
      → Ensures (Blame hw doc) Any (get_dimension_path J B doc schema).0
  unfolding get_dimension_path
  place_cases hw doc schema (ok (object ms)) e o = rw (e, get_dimension_path) tt
  place_cases hw doc schema (ok v) e o = rw (e, get_dimension_path) tt
  place_cases hw doc schema (throw what) e o = rw (e, get_dimension_path) tt
  place_cases hw (object ms) schema (fault kind) e o = cc e
  place_cases hw doc schema (fault kind) e o = cc o

  abbrev Running : Type 0
  Running = Run Double (HistogramCache × W) K.State

  abbrev process : File → Running → Outcome Bool × Running
  process = process_file J Z memory junk B (cached J lexical_cast N) write_json K

  -- `ProcessFile` on sound objects has no fault but one to blame on the document of the record that it is
  -- at, or on the specification of its revision, and keeps the objects sound.
  pub process_file-Blame :
      (f : File) (r : Running)
      → Ensures Never Any f.size
      → IsRunning memory SoundCache r
      → Keeps (λ hw doc kind. IsBlamed J N hw doc) memory SoundCache (process f r).0 (process f r).1
  process_file-Blame f r sized running =
      process_file-Keeps J Z memory junk B (cached J lexical_cast N) write_json K small Blame
        SoundCache (λ doc. is_object doc ≡ true) converts
        (λ hw doc schema fits. place_cases hw doc schema (at J doc (codes "info")) refl fits) f r
        (λ hw doc.
          Ensures-weaken Never (Blame hw doc) Any Any f.size (no_fault hw doc) (λ n u. tt) sized)
        running
