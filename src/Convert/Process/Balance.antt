-- ===== src/Convert/Process/Balance.antt =====
-- convert.cpp: what the metrics of `ProcessFile` say of the records that went to the writer.
use mozilla_telemetry.Prelude.{
  ℕ, zero, suc, ◌+◌, ◌≡◌, refl, Bool, true, false, Bool-cases, inl, inr, List, [], ◌∷◌, ◌++◌, arith,
  length, length-append, Bytes,
}
use mozilla_telemetry.Outcome.{Outcome, ok, throw, fault}
use mozilla_telemetry.Exec.{Exec}
use mozilla_telemetry.Json.{Rapidjson, Value}
use mozilla_telemetry.Stream.{Stream}
use mozilla_telemetry.Record.Inflate.{Zlib}
use mozilla_telemetry.Record.Read.{get_document}
use mozilla_telemetry.Converter.Document.{FindHistogram, Converted, convert_histogram_data}
use mozilla_telemetry.Schema.{Boost}
use mozilla_telemetry.Schema.DimensionPath.{get_dimension_path}
use mozilla_telemetry.Writer.{collector}
use mozilla_telemetry.Convert.Process.{
  File, open_stream, caught, Run, line, with_converted, finish, deliver, process_one, read_next,
  process_loop, process_stream, process_file,
}

-- The bytes of the records that were given to the writer.
abbrev pub total : {P : Type 0} → List (P × Bytes) → ℕ
total [] = 0
total ((p, text) ∷ given) = length text + total given

module _ (J : Rapidjson) (Z : Zlib) (memory junk : ℕ) (B : Boost J.Double) {C : Type 0}
    (find_histogram : FindHistogram C) (write_json : Value J.Double → Bytes) where
  open J use {Double}
  open B use {FsPath}

  abbrev pub Collecting : Type 0
  Collecting = Run Double C (List (FsPath × Bytes))

  total-append :
      (given : List (FsPath × Bytes)) (p : FsPath) (text : Bytes)
      → total (given ++ ((p, text) ∷ [])) ≡ total given + length text
  total-append [] p text = omega arith
  total-append ((q, s) ∷ given) p text = omega (arith, total-append given p text)

  -- From one state to another: as many more records are counted as processed as were discarded or
  -- given to the writer, and as many more bytes as out as it was given.
  pub record Balances (r r' : Collecting) : Type 0 where
    pub records :
        r'.metrics.records_failed.value + length r'.writer + r.metrics.records_processed.value
        ≡ r.metrics.records_failed.value + length r.writer + r'.metrics.records_processed.value
    pub bytes :
        total r'.writer + r.metrics.data_out.value ≡ total r.writer + r'.metrics.data_out.value

  Balances-refl : (r : Collecting) → Balances r r
  Balances-refl r = record { records = refl; bytes = refl }

  Balances-trans : (r s t : Collecting) → Balances r s → Balances s t → Balances r t
  Balances-trans r s t h k = record {
    records = omega (arith, h.records, k.records);
    bytes = omega (arith, h.bytes, k.bytes);
  }

  finish_cases :
      (f : File) (r : Collecting) (size : Outcome ℕ) → f.size ≡ size → Balances r (finish f r).1
  unfolding finish
  finish_cases f r (ok n) e = rw (e, finish) (record { records = refl; bytes = refl })
  finish_cases f r (throw what) e = rw (e, finish) (record { records = refl; bytes = refl })
  finish_cases f r (fault kind) e = rw (e, finish) (record { records = refl; bytes = refl })

  abbrev deliver_it : Exec Collecting (Unit {0})
  deliver_it = deliver J Z memory junk B find_histogram write_json (collector FsPath)

  deliver_cases :
      (r : Collecting) (path : Outcome FsPath)
      → (get_dimension_path J B (get_document r.reader) r.schema).0 ≡ path
      → Balances r (deliver_it r).1
  unfolding deliver
  deliver_cases r (ok path) e =
      let text = line J Z memory junk B find_histogram write_json (collector FsPath) r.reader in
      rw (e, deliver)
        (record {
          records = omega (arith, length-append r.writer ((path, text) ∷ []));
          bytes = omega (arith, total-append r.writer path text);
        })
  deliver_cases r (throw what) e = rw (e, deliver) (record { records = refl; bytes = refl })
  deliver_cases r (fault kind) e = rw (e, deliver) (record { records = refl; bytes = refl })

  abbrev one : Exec Collecting (Unit {0})
  one = process_one J Z memory junk B find_histogram write_json (collector FsPath)

  process_one_cases :
      (r : Collecting) (o : Outcome (Converted C Double))
      → convert_histogram_data J find_histogram r.cache (get_document r.reader) ≡ o
      → Balances r (one r).1
  unfolding process_one
  process_one_cases r (ok c) e = elim (Bool-cases c.result) [
    | inl fine ↦
        let r' =
          with_converted J Z memory junk B find_histogram write_json (collector FsPath) c r in
        let step =
          deliver_cases r' (get_dimension_path J B (get_document r'.reader) r'.schema).0 refl in
        rw (e, fine, process_one) (record { records = step.records; bytes = step.bytes })
    | inr refused ↦ rw (e, refused, process_one) (record { records = omega arith; bytes = refl })
  ]
  process_one_cases r (throw what) e = rw (e, process_one) (Balances-refl r)
  process_one_cases r (fault kind) e = rw (e, process_one) (Balances-refl r)

  process_one-Balances : (r : Collecting) → Balances r (one r).1
  process_one-Balances r =
      process_one_cases r (convert_histogram_data J find_histogram r.cache (get_document r.reader))
        refl

  abbrev next : Exec (Collecting × Stream) Bool
  next = read_next J Z memory junk B find_histogram write_json (collector FsPath)

  abbrev loop : ℕ → Exec (Collecting × Stream) (Unit {0})
  loop = process_loop J Z memory junk B find_histogram write_json (collector FsPath)

  after_one :
      (fuel : ℕ) (r : Collecting) (s : Stream) (o : Outcome (Unit {0}))
      → (next (r, s)).0 ≡ ok true
      → (one (next (r, s)).1.0).0 ≡ o
      → Balances r (one (next (r, s)).1.0).1
      → Balances
          (one (next (r, s)).1.0).1
          (loop fuel ((one (next (r, s)).1.0).1, (next (r, s)).1.1)).1.0
      → Balances r (loop (suc fuel) (r, s)).1.0
  unfolding process_loop
  after_one fuel r s (ok u) got e step rest =
      rw (got, e, process_loop) (Balances-trans _ _ _ step rest)
  after_one fuel r s (throw what) got e step rest = rw (got, e, process_loop) step
  after_one fuel r s (fault kind) got e step rest = rw (got, e, process_loop) step

  loop_cases :
      (fuel : ℕ) (r : Collecting) (s : Stream) (got : Outcome Bool)
      → (next (r, s)).0 ≡ got
      → ((r' : Collecting) (s' : Stream) → Balances r' (loop fuel (r', s')).1.0)
      → Balances r (loop (suc fuel) (r, s)).1.0
  unfolding process_loop
  loop_cases fuel r s (ok true) e ih =
      let r' = (next (r, s)).1.0 in
      let step = process_one-Balances r' in
      after_one fuel r s (one r').0 e refl (record { records = step.records; bytes = step.bytes })
        (ih (one r').1 (next (r, s)).1.1)
  loop_cases fuel r s (ok false) e ih =
      rw (e, process_loop) (record { records = refl; bytes = refl })
  loop_cases fuel r s (throw what) e ih =
      rw (e, process_loop) (record { records = refl; bytes = refl })
  loop_cases fuel r s (fault kind) e ih =
      rw (e, process_loop) (record { records = refl; bytes = refl })

  process_loop-Balances :
      (fuel : ℕ) (r : Collecting) (s : Stream) → Balances r (loop fuel (r, s)).1.0
  unfolding process_loop
  process_loop-Balances zero r s = Balances-refl r
  process_loop-Balances (suc fuel) r s =
      loop_cases fuel r s (next (r, s)).0 refl (process_loop-Balances fuel)

  abbrev stream : File → Exec Collecting (Unit {0})
  stream = process_stream J Z memory junk B find_histogram write_json (collector FsPath)

  abbrev looped : File → Collecting → Outcome (Unit {0}) × (Collecting × Stream)
  looped f r = loop (length (open_stream f.content).rest + 1) (r, open_stream f.content)

  process_stream_cases :
      (f : File) (r : Collecting) (o : Outcome (Unit {0}))
      → (looped f r).0 ≡ o
      → Balances r (stream f r).1
  unfolding process_stream
  process_stream_cases f r (ok u) e =
      let step =
        process_loop-Balances (length (open_stream f.content).rest + 1) r (open_stream f.content) in
      let r' = (looped f r).1.0 in
      rw (e, process_stream)
        (Balances-trans r r' (finish f r').1 step (finish_cases f r' f.size refl))
  process_stream_cases f r (throw what) e =
      rw (e, process_stream)
        (process_loop-Balances (length (open_stream f.content).rest + 1) r (open_stream f.content))
  process_stream_cases f r (fault kind) e =
      rw (e, process_stream)
        (process_loop-Balances (length (open_stream f.content).rest + 1) r (open_stream f.content))

  caught_same :
      (o : Outcome (Unit {0}) × Collecting)
      → (caught J Z memory junk B find_histogram write_json (collector FsPath) o).1 ≡ o.1
  caught_same (ok u, r) = refl
  caught_same (throw what, r) = refl
  caught_same (fault kind, r) = refl

  -- Whatever the file holds and however `ProcessFile` ends, the metrics account for its records: as
  -- many more are counted as processed as were counted as discarded or given to the writer, and as
  -- many more bytes are counted as out as the writer was given.
  pub process_file-Balances :
      (f : File) (r : Collecting)
      → Balances r
          (process_file J Z memory junk B find_histogram write_json (collector FsPath) f r).1
  unfolding process_file
  process_file-Balances f r =
      rw (caught_same (stream f r)) (process_stream_cases f r (looped f r).0 refl)
