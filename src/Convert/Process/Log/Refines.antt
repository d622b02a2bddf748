-- ===== src/Convert/Process/Log/Refines.antt =====
-- convert.cpp: `ProcessFile` on a log of whole records does what the reference does for them.
use mozilla_telemetry.Prelude.{
  ℕ, zero, suc, ◌+◌, ◌^◌, ◌<◌, ◌≡◌, ◌≢◌, refl, sym, ap, ◌∙◌, subst, Bool, true, false, inl, some,
  List, [], ◌∷◌, ◌++◌, append_assoc, append-nil, arith, length, All, Bytes,
}
use mozilla_telemetry.Prelude.Int.{ℤ}
use mozilla_telemetry.Constants.{record_separator}
use mozilla_telemetry.Outcome.{Outcome, ok, >>=-eq-ok}
use mozilla_telemetry.Exec.{Exec}
use mozilla_telemetry.Json.{Rapidjson, Value}
use mozilla_telemetry.Stream.{Stream, at, at_end}
use mozilla_telemetry.Record.{TelemetryRecord}
use mozilla_telemetry.Record.Frame.{skip}
use mozilla_telemetry.Record.Bounds.{IsSound}
use mozilla_telemetry.Record.Inflate.{Zlib}
use mozilla_telemetry.Record.Read.{read_record}
use mozilla_telemetry.Record.Read.Frames.{read_record-frame}
use mozilla_telemetry.Record.Read.Safety.{read_record-safe}
use mozilla_telemetry.Record.Read.End.{read_record_end}
use mozilla_telemetry.Converter.Document.{FindHistogram}
use mozilla_telemetry.Schema.{Boost}
use mozilla_telemetry.Writer.{collector}
use mozilla_telemetry.Convert.Process.{
  File, caught, Run, finish, read_next, process_loop, process_stream, process_file,
}
use mozilla_telemetry.Convert.Process.Log.{
  Entry, IsEntry, log_of, length-log_of, garbage_of, Handled, handle, handle_all,
}
use mozilla_telemetry.Convert.Process.Log.Steps.{
  ok_inj, one, Handles, KeepsReader, process_one-Handles,
}

module _ (J : Rapidjson) (Z : Zlib) (memory junk : ℕ) (B : Boost J.Double) {C : Type 0}
    (find_histogram : FindHistogram C) (write_json : Value J.Double → Bytes)
    (small : memory + 1 < 2 ^ 32) (junk_other : junk ≢ record_separator) where
  open J use {Double, parse}
  open B use {FsPath}

  abbrev Collecting : Type 0
  Collecting = Run Double C (List (FsPath × Bytes))

  abbrev next : Exec (Collecting × Stream) Bool
  next = read_next J Z memory junk B find_histogram write_json (collector FsPath)

  abbrev loop : ℕ → Exec (Collecting × Stream) (Unit {0})
  loop = process_loop J Z memory junk B find_histogram write_json (collector FsPath)

  abbrev After : Collecting → Collecting → Handled J B find_histogram write_json → ℕ → Type 0
  After = Handles J Z memory junk B find_histogram write_json

  abbrev corrupt : TelemetryRecord Double → ℕ
  corrupt reader = reader.metrics.corrupt_data.value

  two_more : (n : ℕ) → n + 2 ≡ suc (suc n)
  two_more n = omega arith

  next_of :
      (r : Collecting) (s : Stream) (o : Outcome Bool × (TelemetryRecord Double × Stream))
      → read_record J Z memory junk (suc (suc (length s.rest))) (r.reader, s) ≡ o
      → next (r, s) ≡ (o.0, (record r { reader = o.1.0 }, o.1.1))
  next_of r s o h = rw (two_more (length s.rest), h)

  next-IsSound :
      (r : Collecting) (bs : Bytes)
      → IsSound memory r.reader
      → IsSound memory (next (r, at bs)).1.0.reader
  next-IsSound r bs sound =
      (read_record-safe J Z memory junk small (length bs + 2) r.reader (at bs) sound (inl refl)
        (omega arith)).1

  -- Two runs of the loop, one after the other
  Handles-append :
      (r s t : Collecting) (h k : Handled J B find_histogram write_json) (n : ℕ)
      → After r s h 1
      → After s t k n
      → After r t (k.0, k.1, h.2 ++ k.2) (suc n)
  Handles-append r s t h k n a b = record {
    cache = b.cache;
    schema = b.schema;
    writer =
        b.writer
        ∙ ap (λ (w : List (FsPath × Bytes)). w ++ k.2) a.writer
        ∙ append_assoc r.writer h.2 k.2;
    processed = omega (arith, a.processed, b.processed);
  }

  -- A round of the loop that ends it, and one that goes on
  loop_ends :
      (fuel : ℕ) (r : Collecting) (s : Stream)
      → (next (r, s)).0 ≡ ok false
      → loop (suc fuel) (r, s) ≡ (ok tt, (next (r, s)).1)
  unfolding process_loop
  loop_ends fuel r s e = rw (e, process_loop)

  loop_goes :
      (fuel : ℕ) (r r' : Collecting) (s : Stream)
      → (next (r, s)).0 ≡ ok true
      → one J Z memory junk B find_histogram write_json (next (r, s)).1.0 ≡ (ok tt, r')
      → loop (suc fuel) (r, s) ≡ loop fuel (r', (next (r, s)).1.1)
  unfolding process_loop
  loop_goes fuel r r' s e ran =
      rw (e, ap (λ (x : Outcome (Unit {0}) × Collecting). x.0) ran, process_loop)
        (ap (λ (x : Outcome (Unit {0}) × Collecting). loop fuel (x.1, (next (r, s)).1.1)) ran)

  -- What the loop leaves of a log
  record IsProcessed (fuel : ℕ) (es : List (Entry Double)) (tail : Bytes) (r : Collecting)
      (h : Handled J B find_histogram write_json) : Type 0 where
    after : Collecting
    run : loop fuel (r, at (log_of J es tail)) ≡ (ok tt, (after, at_end))
    handles : After r after h (length es)
    skipped : corrupt after.reader ≡ corrupt r.reader + garbage_of J es + length tail + 1

  process_tail :
      (fuel : ℕ) (tail : Bytes) (r : Collecting) (h : Handled J B find_histogram write_json)
      → All (λ c. c ≢ record_separator) tail
      → (r.cache, r.schema, []) ≡ h
      → IsProcessed (suc fuel) [] tail r h
  process_tail fuel tail r h clean same =
      let read =
        next_of r (at tail) _
          (read_record_end J Z memory junk (length tail) tail r.reader clean junk_other) in
      let r' = record r { reader = skip (length tail + 1) r.reader } in
      record {
        after = r';
        run =
            loop_ends fuel r (at tail) (ap (λ (x : Outcome Bool × (Collecting × Stream)). x.0) read)
            ∙ ap (λ (x : Outcome Bool × (Collecting × Stream)). (ok tt, x.1)) read;
        handles =
            subst (λ k. After r r' k 0) same
              (record {
                cache = refl;
                schema = refl;
                writer = sym (append-nil r.writer);
                processed = omega arith;
              });
        skipped = omega arith;
      }

  KeepsReader-IsSound :
      (r r' : TelemetryRecord Double)
      → KeepsReader J Z memory junk B find_histogram write_json r r'
      → IsSound memory r
      → IsSound memory r'
  KeepsReader-IsSound r r' kept s = ground (arith, kept, s)

  module _ (fuel : ℕ) (e : Entry Double) (es : List (Entry Double)) (tail : Bytes) (r : Collecting)
      (h k : Handled J B find_histogram write_json) (entry : IsEntry J e)
      (sound : IsSound memory r.reader)
      (first : handle J B find_histogram write_json r.cache r.schema e ≡ ok h)
      (ih : (r' : Collecting)
        → IsSound memory r'.reader
        → r'.cache ≡ h.0
        → r'.schema ≡ h.1
        → IsProcessed fuel es tail r' k) where
    -- A record at the front of the log
    process_entry : IsProcessed (suc fuel) (e ∷ es) tail r (k.0, k.1, h.2 ++ k.2)
    process_entry =
        let rest = log_of J es tail in
        let bytes = log_of J (e ∷ es) tail in
        let (r₁, read, path, time, doc, count) =
          read_record-frame J Z memory junk e.garbage e.path e.content rest e.timestamp e.doc
            r.reader sound entry.clean entry.fits entry.plain entry.parsed (suc (length bytes)) in
        let got = next_of r (at bytes) _ read in
        let sound₁ : IsSound memory r₁ =
          subst (λ (x : Outcome Bool × (Collecting × Stream)). IsSound memory x.1.0.reader) got
            (next-IsSound r bytes sound) in
        let (r₂, ran, a, kept) =
          process_one-Handles J Z memory junk B find_histogram write_json (record r { reader = r₁ })
            e h path doc first in
        let more = ih r₂ (KeepsReader-IsSound r₁ r₂.reader kept sound₁) a.cache a.schema in
        record {
          after = more.after;
          run =
              loop_goes fuel r r₂ (at bytes)
                (ap (λ (x : Outcome Bool × (Collecting × Stream)). x.0) got)
                (ap
                    (λ (x : Outcome Bool × (Collecting × Stream)).
                      one J Z memory junk B find_histogram write_json x.1.0)
                    got
                  ∙ ran)
              ∙ ap (λ (x : Outcome Bool × (Collecting × Stream)). loop fuel (r₂, x.1.1)) got
              ∙ more.run;
          handles =
              Handles-append r r₂ more.after h k (length es)
                (record {
                  cache = a.cache;
                  schema = a.schema;
                  writer = a.writer;
                  processed = a.processed;
                })
                more.handles;
          skipped = omega (arith, more.skipped, count, ap corrupt kept);
        }

  process_loop_log :
      (es : List (Entry Double)) (fuel : ℕ) (tail : Bytes) (r : Collecting)
      (h : Handled J B find_histogram write_json)
      → length es < fuel
      → All (IsEntry J) es
      → All (λ c. c ≢ record_separator) tail
      → IsSound memory r.reader
      → handle_all J B find_histogram write_json r.cache r.schema es ≡ ok h
      → IsProcessed fuel es tail r h
  process_loop_log es zero tail r h few fine clean sound handled = absurd (omega (arith, few))
  process_loop_log [] (suc fuel) tail r h few fine clean sound handled =
      process_tail fuel tail r h clean (ok_inj handled)
  process_loop_log (e ∷ es) (suc fuel) tail r h few fine clean sound handled =
      let (h₁, first, later) =
        >>=-eq-ok _ (handle J B find_histogram write_json r.cache r.schema e) handled in
      let (k, all, last) =
        >>=-eq-ok _ (handle_all J B find_histogram write_json h₁.0 h₁.1 es) later in
      subst (IsProcessed (suc fuel) (e ∷ es) tail r) (ok_inj last) (
        process_entry fuel e es tail r h₁ k fine.0 sound first (λ r' sound' c s.
          process_loop_log es fuel tail r' k (omega (arith, few)) fine.1 clean sound'
            (rw (c, s) all)))

  -- On a log of whole records that are not compressed and hold documents, each possibly behind bytes
  -- that are none, `ProcessFile` of a sound object returns true and has done what the reference does
  -- for these records one after the other, where that succeeds: the writer was given these folders and
  -- texts in this order, every record is counted as processed, and every other byte, with one more at
  -- the end, as corrupt. The size of the file is known, the largest array is within 32 bits, and the
  -- unwritten `ch` is no separator.
  pub process_file_log :
      (es : List (Entry Double)) (tail : Bytes) (size : ℕ) (elapsed : ℤ) (r : Collecting)
      (h : Handled J B find_histogram write_json)
      → All (IsEntry J) es
      → All (λ c. c ≢ record_separator) tail
      → IsSound memory r.reader
      → handle_all J B find_histogram write_json r.cache r.schema es ≡ ok h
      → (r' : Collecting) × (process_file J Z memory junk B find_histogram write_json
            (collector FsPath)
            (record { content = some (log_of J es tail); size = ok size; elapsed = elapsed })
            r
          ≡ (ok true, r'))
        × (r'.writer ≡ r.writer ++ h.2)
        × (r'.cache ≡ h.0)
        × (r'.schema ≡ h.1)
        × (r'.metrics.records_processed.value ≡ r.metrics.records_processed.value + length es)
        × (corrupt r'.reader ≡ corrupt r.reader + garbage_of J es + length tail + 1)
  unfolding process_file process_stream finish
  process_file_log es tail size elapsed r h fine clean sound handled =
      let bytes = log_of J es tail in
      let done =
        process_loop_log es (length bytes + 1) tail r h (omega (arith, length-log_of J es tail))
          fine clean sound handled in
      let f : File = record { content = some bytes; size = ok size; elapsed = elapsed } in
      (
        (finish f done.after).1,
        rw
            (
              ap (λ (x : Outcome (Unit {0}) × (Collecting × Stream)). x.0) done.run,
              process_file,
              process_stream,
            )
            (ap
              (λ (x : Outcome (Unit {0}) × (Collecting × Stream)).
                caught J Z memory junk B find_histogram write_json (collector FsPath)
                  (finish f x.1.0))
              done.run),
        done.handles.writer,
        done.handles.cache,
        done.handles.schema,
        done.handles.processed,
        done.skipped,
      )
