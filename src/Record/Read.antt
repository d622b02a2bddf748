-- ===== src/Record/Read.antt =====
-- common/TelemetryRecord.cpp: `Read`, `ProcessRecord` and the accessors. `ParseInsitu` leaves its
-- buffer changed; nothing reads that buffer before it is written again, so it is left as it was.
pub mod Parts
pub mod Safety
pub mod Progress
pub mod Parsed
pub mod Frames
pub mod End
use mozilla_telemetry.Prelude.{
  ℕ, zero, suc, ◌+◌, ◌%◌, ◌^◌, Bool, true, false, not, ◌&&◌, Option, none, some, ◌∷◌, [], length,
  get_elem?, Bytes, c_str, has_nul, ltb, ◌==◌, if◌then◌else◌,
}
use mozilla_telemetry.Outcome.{Outcome, ok, throw, fault, out_of_bounds, out_of_fuel}
use mozilla_telemetry.Exec.{Exec, pure, gets, modify, ◌>>=◌, ◌>>◌}
use mozilla_telemetry.Stream.{Stream, good}
use mozilla_telemetry.Stream
use mozilla_telemetry.Json.{Rapidjson, Value, null, parse_error, document}
use mozilla_telemetry.Record.{
  TelemetryRecord, count_inflate_failure, count_parse_failure, find_record,
}
use mozilla_telemetry.Record.Inflate.{Zlib, copy_to, resize, inflate_data}

abbrev pub byte_at : Bytes → ℕ → ℕ
byte_at buf i = elim (get_elem? buf i) [ none ↦ 0 | some c ↦ c ]

-- An object and a stream, as `Read` changes them.
abbrev pub Session : Type 0 → Type 0
Session D = TelemetryRecord D × Stream

module _ {D : Type 0} where
  -- `GetPath`, `GetTimestamp`, `GetDocument`
  unfoldable pub get_path : TelemetryRecord D → Bytes
  get_path r = c_str r.path

  unfoldable pub get_timestamp : TelemetryRecord D → ℕ
  get_timestamp r = r.timestamp

  unfoldable pub get_document : TelemetryRecord D → Value D
  get_document r = r.document

  -- The test for the first two bytes of a gzip file
  abbrev pub is_gzip : TelemetryRecord D → Bool
  is_gzip r = ltb 2 r.data_length && (byte_at r.buffer 0 == 0x1f && byte_at r.buffer 1 == 0x8b)

  -- `aInput.read(mPath, mPathLength)`, and so for the data: is the stream still good?
  unfoldable pub read_path : Exec (Session D) Bool
  unfolding copy_to
  read_path (r, s) =
      let got = Stream.read r.path_length s in
      elim (copy_to r.path 0 got.0) [
        | ok path ↦ (ok (good got.1), (record r { path = path }, got.1))
        | throw e ↦ (throw e, (r, got.1))
        | fault e ↦ (fault e, (r, got.1))
      ]

  unfoldable pub read_data : Exec (Session D) Bool
  unfolding copy_to
  read_data (r, s) =
      let got = Stream.read r.data_length s in
      elim (copy_to r.buffer 0 got.0) [
        | ok buffer ↦ (ok (good got.1), (record r { buffer = buffer }, got.1))
        | throw e ↦ (throw e, (r, got.1))
        | fault e ↦ (fault e, (r, got.1))
      ]

  -- `mPath[mPathLength] = 0`
  unfoldable pub terminate_path : Exec (Session D) (Unit {0})
  unfolding copy_to
  terminate_path (r, s) = elim (copy_to r.path r.path_length (0 ∷ [])) [
    | ok path ↦ (ok tt, (record r { path = path }, s))
    | throw e ↦ (throw e, (r, s))
    | fault e ↦ (fault e, (r, s))
  ]

  unfoldable pub terminate_data : Exec (Session D) (Unit {0})
  unfolding copy_to
  terminate_data (r, s) = elim (copy_to r.buffer r.data_length (0 ∷ [])) [
    | ok buffer ↦ (ok tt, (record r { buffer = buffer }, s))
    | throw e ↦ (throw e, (r, s))
    | fault e ↦ (fault e, (r, s))
  ]

  unfoldable pub search : ℕ → Exec (Session D) Bool
  search junk (r, s) = let f = find_record junk r s in (ok f.2, (f.0, f.1))

-- The end of a round of the loop of `Read`: it returns true or false, or goes on.
pub data Round : Type 0 where
  found failed again : Round

-- The path and the data of the record whose header was read.
unfoldable pub fetch : {D : Type 0} → Exec (Session D) Bool
fetch = do
  path_read ← read_path
  if not path_read then pure false else do
    terminate_path
    data_read ← read_data
    if not data_read then pure false else do terminate_data; pure true

module _ (J : Rapidjson) (Z : Zlib) (memory junk : ℕ) where
  open J use {Double, parse}

  -- The object alone, within a session.
  abbrev pub on_record : {A : Type 0} → Exec (TelemetryRecord Double) A → Exec (Session Double) A
  on_record m (r, s) = let o = m r in (o.0, (o.1, s))

  -- `ParseInsitu` of a buffer, which reads on up to a NUL; on an error the document is null.
  unfoldable pub parse_document :
      (TelemetryRecord Double → Bytes) → Exec (TelemetryRecord Double) Bool
  unfolding has_nul
  parse_document text r =
      if has_nul (text r)
      then elim (parse (c_str (text r))) [
        | parse_error e ↦ (ok false, count_parse_failure (record r { document = null }))
        | document d ↦ (ok true, record r { document = d })
      ]
      else (fault out_of_bounds, r)

  -- `mInflate[mInflateLength] = 0`, in a larger array where the old one is full.
  unfoldable pub terminate_inflated : Exec (TelemetryRecord Double) (Unit {0})
  unfolding copy_to resize
  terminate_inflated r =
      let grown =
        if ltb r.inflate_length r.inflate_size
        then ok r
        else resize memory junk ((r.inflate_length + 1) % 2 ^ 32) r in
      elim grown [
        | throw e ↦ (throw e, r)
        | fault e ↦ (fault e, r)
        | ok r' ↦ elim (copy_to r'.inflated r'.inflate_length (0 ∷ [])) [
          | throw e ↦ (throw e, r')
          | fault e ↦ (fault e, r')
          | ok buf ↦ (ok tt, record r' { inflated = buf })
        ]
      ]

  -- `ProcessRecord`
  unfoldable pub process_record : Exec (TelemetryRecord Double) Bool
  process_record = do
    gzip ← gets is_gzip
    if not gzip then parse_document (λ r. r.buffer) else do
      fine ← inflate_data Z memory junk
      if not fine
          then (do modify count_inflate_failure; pure false)
          else do terminate_inflated; parse_document (λ r. r.inflated)

  abbrev end_round : Bool → Round
  end_round true = found
  end_round false = again

  -- The body of the loop of `Read`
  unfoldable pub read_round : Exec (Session Double) Round
  read_round = do
    there ← search junk
    if not there then pure again else do
      complete ← fetch
      if not complete
          then pure failed
          else do processed ← on_record process_record; pure (end_round processed)

  -- `Read`, with the rounds that its loop may take.
  unfoldable pub read_record : ℕ → Exec (Session Double) Bool
  read_record zero = λ σ. (fault out_of_fuel, σ)
  read_record (suc fuel) = do
    stopped ← gets (λ σ. σ.1.fail)
    if stopped then pure false else do
      end ← read_round
      elim end [ found ↦ pure true | failed ↦ pure false | again ↦ read_record fuel ]
