-- ===== src/Record/Frame.antt =====
-- The format of a record in a log, and what `FindRecord` makes of one behind other bytes.
use mozilla_telemetry.Prelude.{
  ℕ, suc, ◌+◌, ◌^◌, ◌<◌, ◌≤◌, ◌≡◌, ◌≢◌, ◌∙◌, ap, true, [], ◌∷◌, ◌++◌, arith, length, All, Bytes,
}
use mozilla_telemetry.Constants.{max_telemetry_path, max_telemetry_data, record_separator}
use mozilla_telemetry.Stream.{at, to_le}
use mozilla_telemetry.Stream.Reading.{read_value-to_le}
use mozilla_telemetry.Record.{
  TelemetryRecord, Step, count_corrupt, read_header, find_loop, find_record,
}

-- The header behind the separator, with what follows it.
abbrev pub header : Bytes → Bytes → ℕ → Bytes → Bytes
header path content timestamp rest =
    to_le 2 (length path) ++ (to_le 4 (length content) ++ (to_le 8 timestamp ++ rest))

-- A whole record, with what follows it.
abbrev pub frame : Bytes → Bytes → ℕ → Bytes → Bytes
frame path content timestamp rest =
    record_separator ∷ header path content timestamp (path ++ (content ++ rest))

-- A path and data that fit, and a 64-bit time.
pub record IsFrame (path content : Bytes) (timestamp : ℕ) : Type 0 where
  pub path_fits : length path ≤ max_telemetry_path
  pub data_fits : length content ≤ max_telemetry_data
  pub time_fits : timestamp < 2 ^ 64

module _ {D : Type 0} where
  -- `n` more bytes of corrupt data
  abbrev pub skip : ℕ → TelemetryRecord D → TelemetryRecord D
  skip n r = record r {
    metrics = record r.metrics {
      corrupt_data = record r.metrics.corrupt_data { value = r.metrics.corrupt_data.value + n };
    };
  }

  abbrev pub with_header : Bytes → Bytes → ℕ → TelemetryRecord D → TelemetryRecord D
  with_header path content timestamp r = record r {
    path_length = length path;
    data_length = length content;
    timestamp = timestamp;
  }

  read_header-header :
      (path content : Bytes) (timestamp : ℕ) (rest : Bytes) (r : TelemetryRecord D)
      → IsFrame path content timestamp
      → read_header r (at (header path content timestamp rest))
        ≡ (with_header path content timestamp r, at rest, true)
  unfolding read_header
  read_header-header path content timestamp rest r f = ground (
    arith,
    f,
    read_value-to_le 2 r.path_length (length path)
        (to_le 4 (length content) ++ (to_le 8 timestamp ++ rest)) (omega (arith, f.path_fits)),
    read_value-to_le 4 r.data_length (length content) (to_le 8 timestamp ++ rest)
        (omega (arith, f.data_fits)),
    read_value-to_le 8 r.timestamp timestamp rest (omega (arith, f.time_fits)),
  )

  find_loop-separator :
      (junk : ℕ) (bs : Bytes) (r : TelemetryRecord D)
      → (read_header r (at bs)).2 ≡ true
      → find_loop junk r (record_separator ∷ bs) ≡ read_header r (at bs)
  unfolding find_loop
  find_loop-separator junk bs r h = ground (arith, h)

  find_loop-other :
      (junk c : ℕ) (bs : Bytes) (r : TelemetryRecord D)
      → c ≢ record_separator
      → find_loop junk r (c ∷ bs) ≡ find_loop junk (count_corrupt r) bs
  unfolding find_loop
  find_loop-other junk c bs r h = ground (arith, h)

  skip-zero : (r : TelemetryRecord D) → r ≡ skip 0 r
  skip-zero r = ground arith

  skip-count_corrupt : (n : ℕ) (r : TelemetryRecord D) → skip n (count_corrupt r) ≡ skip (suc n) r
  skip-count_corrupt n r = ground arith

  -- The bytes before a separator are skipped, and each of them is counted.
  pub find_loop-append :
      (junk : ℕ) (garbage bs : Bytes) (r : TelemetryRecord D)
      → All (λ c. c ≢ record_separator) garbage
      → find_loop junk r (garbage ++ bs) ≡ find_loop junk (skip (length garbage) r) bs
  find_loop-append junk [] bs r g = ap (λ r'. find_loop junk r' bs) (skip-zero r)
  find_loop-append junk (c ∷ cs) bs r (g, gs) =
      find_loop-other junk c (cs ++ bs) r g
      ∙ find_loop-append junk cs bs (count_corrupt r) gs
      ∙ ap (λ r'. find_loop junk r' bs) (skip-count_corrupt (length cs) r)

  -- `FindRecord` skips what stands before a record, and reads its header.
  pub find_record-frame :
      (junk : ℕ) (garbage path content : Bytes) (timestamp : ℕ) (rest : Bytes)
      (r : TelemetryRecord D)
      → All (λ c. c ≢ record_separator) garbage
      → IsFrame path content timestamp
      → find_record junk r (at (garbage ++ frame path content timestamp rest)) ≡ (
        with_header path content timestamp (skip (length garbage) r),
        at (path ++ (content ++ rest)),
        true,
      )
  unfolding find_record
  find_record-frame junk garbage path content timestamp rest r g f =
      let r' = skip (length garbage) r in
      let e = read_header-header path content timestamp (path ++ (content ++ rest)) r' f in
      let found : (read_header r'
            (at (header path content timestamp (path ++ (content ++ rest))))).2
          ≡ true =
        ap (λ (x : Step D). x.2) e in
      find_loop-append junk garbage (frame path content timestamp rest) r g
      ∙ find_loop-separator junk (header path content timestamp (path ++ (content ++ rest))) r'
          found
      ∙ e
