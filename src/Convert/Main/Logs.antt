-- ===== src/Convert/Main/Logs.antt =====
-- convert.cpp: the batch mode on logs of whole records, against the records that they stand for.
use mozilla_telemetry.Prelude.{
  ℕ, ◌+◌, ◌^◌, ◌<◌, ◌≡◌, ◌≢◌, refl, sym, ap, ◌∙◌, subst, true, some, List, [], ◌∷◌, ◌++◌,
  append_assoc, append-nil, map, arith, length, length-append, All, Bytes,
}
use mozilla_telemetry.Prelude.Int.{ℤ}
use mozilla_telemetry.Constants.{record_separator}
use mozilla_telemetry.Outcome.{Outcome, ok, >>=-eq-ok}
use mozilla_telemetry.Json.{Rapidjson, Value}
use mozilla_telemetry.Record.Bounds.{IsSound}
use mozilla_telemetry.Record.Inflate.{Zlib}
use mozilla_telemetry.Converter.Document.{FindHistogram}
use mozilla_telemetry.Outcome.Rounds.{Ends, ok-Ends}
use mozilla_telemetry.Schema.{Boost, TelemetrySchema}
use mozilla_telemetry.Cache.{HistogramCache}
use mozilla_telemetry.Writer.{collector}
use mozilla_telemetry.Exec.{Exec}
use mozilla_telemetry.Prelude.{Bool}
use mozilla_telemetry.Wire.{WireFormat}
use mozilla_telemetry.Wire.Framing.{Encoder}
use mozilla_telemetry.Convert.Main.{Host, run_batch}
use mozilla_telemetry.Convert.Process.{File, Run, process_file}
use mozilla_telemetry.Convert.Process.Log.{Entry, IsEntry, log_of, Handled, handle, handle_all}
use mozilla_telemetry.Convert.Process.Log.Steps.{ok_inj}
use mozilla_telemetry.Convert.Process.Log.Refines.{process_file_log}
use mozilla_telemetry.Convert.Process.Rounds.{process_file-Ends}

-- A file of the command line: its records, the bytes at its end that are none, its size and the time
-- that it takes.
pub record Log (D : Type 0) : Type 0 where
  pub entries : List (Entry D)
  pub tail : Bytes
  pub size : ℕ
  pub elapsed : ℤ

-- The records of all the logs, in order
abbrev pub all_entries : {D : Type 0} → List (Log D) → List (Entry D)
all_entries [] = []
all_entries (l ∷ ls) = l.entries ++ all_entries ls

module _ (J : Rapidjson) where
  open J use {Double}

  abbrev pub file_of : Log Double → File
  file_of l = record {
    content = some (log_of J l.entries l.tail);
    size = ok l.size;
    elapsed = l.elapsed;
  }

  pub record IsLog (l : Log Double) : Type 0 where
    pub entries : All (IsEntry J) l.entries
    pub tail : All (λ c. c ≢ record_separator) l.tail

  module _ (B : Boost Double) {C : Type 0} (find_histogram : FindHistogram C)
      (write_json : Value Double → Bytes) where
    -- The reference for records and more records
    record Split (cache : C) (schema : TelemetrySchema Double) (es fs : List (Entry Double))
        (h : Handled J B find_histogram write_json) : Type 0 where
      before : Handled J B find_histogram write_json
      after : Handled J B find_histogram write_json
      first : handle_all J B find_histogram write_json cache schema es ≡ ok before
      second : handle_all J B find_histogram write_json before.0 before.1 fs ≡ ok after
      whole : h ≡ (after.0, after.1, before.2 ++ after.2)

    handle_all-cons :
        (cache : C) (schema : TelemetrySchema Double) (e : Entry Double) (es : List (Entry Double))
        (h k : Handled J B find_histogram write_json)
        → handle J B find_histogram write_json cache schema e ≡ ok h
        → handle_all J B find_histogram write_json h.0 h.1 es ≡ ok k
        → handle_all J B find_histogram write_json cache schema (e ∷ es) ≡ ok (k.0, k.1, h.2 ++ k.2)
    handle_all-cons cache schema e es h k first rest = rw (first, rest) refl

    handle_all-append :
        (cache : C) (schema : TelemetrySchema Double) (es fs : List (Entry Double))
        (h : Handled J B find_histogram write_json)
        → handle_all J B find_histogram write_json cache schema (es ++ fs) ≡ ok h
        → Split cache schema es fs h
    handle_all-append cache schema [] fs h e = record {
      before = (cache, schema, []);
      after = h;
      first = refl;
      second = e;
      whole = refl;
    }
    handle_all-append cache schema (x ∷ es) fs h e =
        let (h₁, first, later) =
          >>=-eq-ok _ (handle J B find_histogram write_json cache schema x) e in
        let (k, all, last) =
          >>=-eq-ok _ (handle_all J B find_histogram write_json h₁.0 h₁.1 (es ++ fs)) later in
        let rest = handle_all-append h₁.0 h₁.1 es fs k all in
        record {
          before = (rest.before.0, rest.before.1, h₁.2 ++ rest.before.2);
          after = rest.after;
          first = handle_all-cons cache schema x es h₁ rest.before first rest.first;
          second = rest.second;
          whole =
              sym (ok_inj last)
              ∙ ap (λ (t : Handled J B find_histogram write_json). (t.0, t.1, h₁.2 ++ t.2))
                  rest.whole
              ∙ ap (λ (given : List (B.FsPath × Bytes)). (rest.after.0, rest.after.1, given))
                  (sym (append_assoc h₁.2 rest.before.2 rest.after.2));
        }

module _ (J : Rapidjson) (Z : Zlib) (memory junk : ℕ) (B : Boost J.Double) {N : Type 0}
    (find_histogram : FindHistogram (HistogramCache × N)) (write_json : Value J.Double → Bytes)
    (small : memory + 1 < 2 ^ 32) (junk_other : junk ≢ record_separator)
    (finds : (cache : HistogramCache × N) (key : Bytes) → Ends (find_histogram cache key))
    (F : WireFormat) (E : Encoder) {W : Type 0} (host : Host W) where
  open J use {Double}
  open B use {FsPath}

  abbrev pub Collecting : Type 0
  Collecting = Run Double (HistogramCache × N) (List (FsPath × Bytes))

  abbrev pub batch : List File → Exec Collecting (Unit {0})
  batch = run_batch J Z memory junk B find_histogram write_json (collector FsPath) F E host

  -- What a run of the batch has done
  pub record IsDone (ls : List (Log Double)) (r : Collecting)
      (h : Handled J B find_histogram write_json) : Type 0 where
    pub after : Collecting
    pub run : batch (map (file_of J) ls) r ≡ (ok tt, after)
    pub writer : after.writer ≡ r.writer ++ h.2
    pub processed :
        after.metrics.records_processed.value
        ≡ r.metrics.records_processed.value + length (all_entries ls)

  process_file-IsSound :
      (l : Log Double) (r r' : Collecting)
      → IsSound memory r.reader
      → process_file J Z memory junk B find_histogram write_json (collector FsPath) (file_of J l) r
        ≡ (ok true, r')
      → IsSound memory r'.reader
  process_file-IsSound l r r' sound e =
      subst (λ (x : Outcome Bool × Collecting). IsSound memory x.1.reader) e
        (process_file-Ends J Z memory junk B find_histogram write_json (collector FsPath) small
          finds (file_of J l) r ok-Ends sound).2

  pub run_batch-IsDone :
      (ls : List (Log Double)) (r : Collecting) (h : Handled J B find_histogram write_json)
      → All (IsLog J) ls
      → IsSound memory r.reader
      → handle_all J B find_histogram write_json r.cache r.schema (all_entries ls) ≡ ok h
      → IsDone ls r h
  unfolding run_batch
  run_batch-IsDone [] r h fine sound handled = record {
    after = r;
    run = refl;
    writer =
        sym (append-nil r.writer)
        ∙ ap (λ (k : Handled J B find_histogram write_json). r.writer ++ k.2) (ok_inj handled);
    processed = omega arith;
  }
  run_batch-IsDone (l ∷ ls) r h fine sound handled =
      let parts =
        handle_all-append J B find_histogram write_json r.cache r.schema l.entries (all_entries ls)
          h handled in
      let (r₁, ran, writes, cache, schema, counts, skips) =
        process_file_log J Z memory junk B find_histogram write_json small junk_other l.entries
          l.tail l.size l.elapsed r parts.before fine.0.entries fine.0.tail sound parts.first in
      let more =
        run_batch-IsDone ls r₁ parts.after fine.1 (process_file-IsSound l r r₁ sound ran)
          (rw (cache, schema) parts.second) in
      record {
        after = more.after;
        run = rw (ran, run_batch) more.run;
        writer =
            more.writer
            ∙ ap (λ (given : List (FsPath × Bytes)). given ++ parts.after.2) writes
            ∙ append_assoc r.writer parts.before.2 parts.after.2
            ∙ sym (ap (λ (k : Handled J B find_histogram write_json). r.writer ++ k.2) parts.whole);
        processed = omega (arith, more.processed, counts, length-append l.entries (all_entries ls));
      }
