-- ===== src/Convert/Process/Faults.antt =====
-- convert.cpp: the faults of `ProcessFile`. `F` is what may be said of a fault, `Sound` of the cache and
-- `Fits` of a document that was converted.
use mozilla_telemetry.Prelude.{
  ℕ, zero, suc, ◌+◌, ◌^◌, ◌<◌, ◌≡◌, refl, subst, Bool, true, false, ◌⊎◌, inl, inr, Option, none,
  some, arith, length, Bytes,
}
use mozilla_telemetry.Outcome.{Outcome, ok, throw, fault, Fault}
use mozilla_telemetry.Exec.{Exec}
use mozilla_telemetry.Json.{Rapidjson, Value}
use mozilla_telemetry.Stream.{Stream, good}
use mozilla_telemetry.Record.Bounds.{NoFault, IsSound}
use mozilla_telemetry.Record.Inflate.{Zlib}
use mozilla_telemetry.Record.Read.{get_document}
use mozilla_telemetry.Record.Read.Safety.{read_record-safe}
use mozilla_telemetry.Record.Read.Progress.{read_record-IsAdvance, read_record_stopped}
use mozilla_telemetry.Converter.Document.{FindHistogram, convert_histogram_data}
use mozilla_telemetry.Outcome.Ensures.{Ensures, Any}
use mozilla_telemetry.Record.Read.Parsed.{IsParsed, read_record-IsParsed}
use mozilla_telemetry.Schema.{TelemetrySchema, Boost}
use mozilla_telemetry.Schema.DimensionPath.{get_dimension_path}
use mozilla_telemetry.Writer.{Sink}
use mozilla_telemetry.Convert.Process.{
  File, Run, open_stream, finish, process_one, read_next, process_loop, process_stream,
  process_file, caught,
}
use mozilla_telemetry.Convert.Process.Keeping.{IsRunning, Keeps, process_one_cases}

module _ (J : Rapidjson) (Z : Zlib) (memory junk : ℕ) (B : Boost J.Double) {C : Type 0}
    (find_histogram : FindHistogram C) (write_json : Value J.Double → Bytes) (K : Sink B.FsPath)
    (small : memory + 1 < 2 ^ 32) (F : C → Value J.Double → Fault → Type 0) (Sound : C → Type 0)
    (Fits : Value J.Double → Type 0)
    (converts : (cache : C) (doc : Value J.Double)
      → Sound cache
      → IsParsed J Z memory junk doc
      → Ensures
          (F cache doc)
          (λ c. Sound c.cache × Fits c.doc)
          (convert_histogram_data J find_histogram cache doc))
    (places : (cache : C) (doc : Value J.Double) (schema : TelemetrySchema J.Double)
      → Fits doc
      → Ensures (F cache doc) Any (get_dimension_path J B doc schema).0) where
  open J use {Double}
  open B use {FsPath}

  abbrev pub Running : Type 0
  Running = Run Double C K.State

  abbrev one : Exec Running (Unit {0})
  one = process_one J Z memory junk B find_histogram write_json K

  abbrev next : Exec (Running × Stream) Bool
  next = read_next J Z memory junk B find_histogram write_json K

  abbrev loop : ℕ → Exec (Running × Stream) (Unit {0})
  loop = process_loop J Z memory junk B find_histogram write_json K

  abbrev Settled : Stream → Type 0
  Settled s = (good s ≡ true) ⊎ (s.fail ≡ true)

  -- A record was read: the stream is good and shorter.
  next_shorter :
      (r : Running) (s : Stream)
      → IsSound memory r.reader
      → Settled s
      → (next (r, s)).0 ≡ ok true
      → (good (next (r, s)).1.1 ≡ true) × (length (next (r, s)).1.1.rest < length s.rest)
  next_shorter r s w (inl g) e =
      read_record-IsAdvance J Z memory junk small (length s.rest + 2) r.reader s w g e
  next_shorter r s w (inr stopped) e =
      absurd (read_record_stopped J Z memory junk small (length s.rest + 2) r.reader s stopped e)

  next_safe :
      (r : Running) (s : Stream)
      → IsSound memory r.reader
      → Settled s
      → NoFault (next (r, s)).0 × IsSound memory (next (r, s)).1.0.reader
  next_safe r s w settled =
      read_record-safe J Z memory junk small (length s.rest + 2) r.reader s w settled (omega arith)

  next-IsRunning :
      (r : Running) (s : Stream)
      → IsRunning memory Sound r
      → Settled s
      → IsRunning memory Sound (next (r, s)).1.0
  next-IsRunning r s w settled = record {
    reader = (next_safe r s w.reader settled).1;
    cache = w.cache;
  }

  abbrev LoopKeeps : ℕ → Running → Stream → Type 0
  LoopKeeps fuel r s = Keeps F memory Sound (loop fuel (r, s)).0 (loop fuel (r, s)).1.0

  after_one :
      (fuel : ℕ) (r : Running) (s : Stream) (o : Outcome (Unit {0}))
      → (next (r, s)).0 ≡ ok true
      → (one (next (r, s)).1.0).0 ≡ o
      → Ensures (F (one (next (r, s)).1.0).1.cache (one (next (r, s)).1.0).1.reader.document) Any o
      → IsRunning memory Sound (one (next (r, s)).1.0).1
      → (IsRunning memory Sound (one (next (r, s)).1.0).1
          → LoopKeeps fuel (one (next (r, s)).1.0).1 (next (r, s)).1.1)
      → LoopKeeps (suc fuel) r s
  unfolding process_loop
  after_one fuel r s (ok u) got e h w rest = rw (got, e, process_loop) (rest w)
  after_one fuel r s (throw what) got e h w rest =
      rw (got, e, process_loop) (record { ensures = tt; kept = w })
  after_one fuel r s (fault kind) got e h w rest =
      rw (got, e, process_loop) (record { ensures = h; kept = w })

  loop_cases :
      (fuel : ℕ) (r : Running) (s : Stream) (got : Outcome Bool)
      → IsRunning memory Sound r
      → Settled s
      → length s.rest < suc fuel
      → (next (r, s)).0 ≡ got
      → ((r' : Running) (s' : Stream)
          → IsRunning memory Sound r'
          → Settled s'
          → length s'.rest < fuel
          → LoopKeeps fuel r' s')
      → LoopKeeps (suc fuel) r s
  unfolding process_loop get_document
  loop_cases fuel r s (ok true) w settled few e ih =
      let shorter = next_shorter r s w.reader settled e in
      let r' = (next (r, s)).1.0 in
      let w' = next-IsRunning r s w settled in
      let parsed = read_record-IsParsed J Z memory junk (length s.rest + 2) (r.reader, s) e in
      let step =
        process_one_cases J Z memory junk B find_histogram write_json K F Sound Fits places r' _ w'
          (converts r'.cache (get_document r'.reader) w'.cache parsed) refl in
      after_one fuel r s (one r').0 e refl step.ensures step.kept
        (λ w''. ih (one r').1 (next (r, s)).1.1 w'' (inl shorter.0) (omega (arith, shorter.1, few)))
  loop_cases fuel r s (ok false) w settled few e ih =
      rw (e, process_loop) (record { ensures = tt; kept = next-IsRunning r s w settled })
  loop_cases fuel r s (throw what) w settled few e ih =
      rw (e, process_loop) (record { ensures = tt; kept = next-IsRunning r s w settled })
  loop_cases fuel r s (fault kind) w settled few e ih =
      absurd (subst NoFault e (next_safe r s w.reader settled).0)

  process_loop-Keeps :
      (fuel : ℕ) (r : Running) (s : Stream)
      → IsRunning memory Sound r
      → Settled s
      → length s.rest < fuel
      → LoopKeeps fuel r s
  process_loop-Keeps zero r s w settled few = absurd (omega (arith, few))
  process_loop-Keeps (suc fuel) r s w settled few =
      loop_cases fuel r s (next (r, s)).0 w settled few refl (process_loop-Keeps fuel)

  abbrev stream : File → Exec Running (Unit {0})
  stream = process_stream J Z memory junk B find_histogram write_json K

  opened : (content : Option Bytes) → Settled (open_stream content)
  opened none = inr refl
  opened (some bs) = inl refl

  finish_cases :
      (f : File) (r : Running) (size : Outcome ℕ)
      → f.size ≡ size
      → Ensures (F r.cache r.reader.document) Any size
      → IsRunning memory Sound r
      → Keeps F memory Sound (finish f r).0 (finish f r).1
  unfolding finish
  finish_cases f r (ok n) e h w =
      rw (e, finish) (record { ensures = tt; kept = record { reader = w.reader; cache = w.cache } })
  finish_cases f r (throw what) e h w =
      rw (e, finish) (record { ensures = tt; kept = record { reader = w.reader; cache = w.cache } })
  finish_cases f r (fault kind) e h w =
      rw (e, finish) (record { ensures = h; kept = record { reader = w.reader; cache = w.cache } })

  abbrev looped : File → Running → Outcome (Unit {0}) × (Running × Stream)
  looped f r = loop (length (open_stream f.content).rest + 1) (r, open_stream f.content)

  stream_cases :
      (f : File) (r : Running) (o : Outcome (Unit {0}))
      → ((cache : C) (doc : Value Double) → Ensures (F cache doc) Any f.size)
      → Ensures (F (looped f r).1.0.cache (looped f r).1.0.reader.document) Any o
      → IsRunning memory Sound (looped f r).1.0
      → (looped f r).0 ≡ o
      → Keeps F memory Sound (stream f r).0 (stream f r).1
  unfolding process_stream
  stream_cases f r (ok u) h k w e =
      rw (e, process_stream)
        (finish_cases f (looped f r).1.0 f.size refl
          (h (looped f r).1.0.cache (looped f r).1.0.reader.document) w)
  stream_cases f r (throw what) h k w e = rw (e, process_stream) (record { ensures = tt; kept = w })
  stream_cases f r (fault kind) h k w e = rw (e, process_stream) (record { ensures = k; kept = w })

  abbrev catch : Outcome (Unit {0}) × Running → Outcome Bool × Running
  catch = caught J Z memory junk B find_histogram write_json K

  caught-Keeps :
      (o : Outcome (Unit {0}) × Running)
      → Keeps F memory Sound o.0 o.1
      → Keeps F memory Sound (catch o).0 (catch o).1
  caught-Keeps (ok u, r) h = record { ensures = tt; kept = h.kept }
  caught-Keeps (throw what, r) h = record { ensures = tt; kept = h.kept }
  caught-Keeps (fault kind, r) h = record { ensures = h.ensures; kept = h.kept }

  -- `ProcessFile` has no fault but those that `F` allows, and keeps the objects.
  pub process_file-Keeps :
      (f : File) (r : Running)
      → ((cache : C) (doc : Value Double) → Ensures (F cache doc) Any f.size)
      → IsRunning memory Sound r
      → Keeps F memory Sound
          (process_file J Z memory junk B find_histogram write_json K f r).0
          (process_file J Z memory junk B find_histogram write_json K f r).1
  unfolding process_file
  process_file-Keeps f r h w =
      let s = open_stream f.content in
      let done = process_loop-Keeps (length s.rest + 1) r s w (opened f.content) (omega arith) in
      caught-Keeps (stream f r) (stream_cases f r (looped f r).0 h done.ensures done.kept refl)
