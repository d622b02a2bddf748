-- ===== src/Record/Read/End.antt =====
-- `Read` at the end of a log, and the search behind a header that is refused.
use mozilla_telemetry.Prelude.{
  sym, ℕ, suc, ◌+◌, ◌^◌, ◌<◌, ◌≡◌, ◌≢◌, ◌∙◌, ap, false, [], ◌∷◌, ◌++◌, append-nil, arith, length,
  All, Bytes,
}
use mozilla_telemetry.Constants.{max_telemetry_path, record_separator}
use mozilla_telemetry.Outcome.{ok}
use mozilla_telemetry.Stream.{at, at_end, to_le}
use mozilla_telemetry.Stream.Reading.{read_value-to_le}
use mozilla_telemetry.Json.{Rapidjson}
use mozilla_telemetry.Record.{
  TelemetryRecord, count_invalid_path, read_header, find_loop, find_record,
}
use mozilla_telemetry.Record.Frame.{skip, find_loop-append}
use mozilla_telemetry.Record.Inflate.{Zlib}
use mozilla_telemetry.Record.Read.{search, read_round, read_record}

module _ {D : Type 0} (junk : ℕ) where
  find_loop-nil :
      (r : TelemetryRecord D)
      → junk ≢ record_separator
      → find_loop junk r [] ≡ (skip 1 r, at_end, false)
  unfolding find_loop
  find_loop-nil r h = ground (arith, h)

  skip-skip : (n : ℕ) (r : TelemetryRecord D) → skip 1 (skip n r) ≡ skip (n + 1) r
  skip-skip n r = ground arith

  find_record_end :
      (garbage : Bytes) (r : TelemetryRecord D)
      → All (λ c. c ≢ record_separator) garbage
      → junk ≢ record_separator
      → find_record junk r (at garbage) ≡ (skip (length garbage + 1) r, at_end, false)
  unfolding find_record
  find_record_end garbage r g h =
      ap (find_loop junk r) (sym (append-nil garbage))
      ∙ find_loop-append junk garbage [] r g
      ∙ find_loop-nil (skip (length garbage) r) h
      ∙ ap (λ (x : TelemetryRecord D). (x, at_end, false)) (skip-skip (length garbage) r)

  read_header_long_path :
      (n : ℕ) (rest : Bytes) (r : TelemetryRecord D)
      → max_telemetry_path < n
      → n < 2 ^ 16
      → read_header r (at (to_le 2 n ++ rest))
        ≡ (count_invalid_path (record r { path_length = n }), at rest, false)
  unfolding read_header
  read_header_long_path n rest r big fits =
      ground (arith, big, read_value-to_le 2 r.path_length n rest fits)

  -- A header with too long a path is counted, and the search goes on right behind its separator.
  pub find_record_long_path :
      (n : ℕ) (rest : Bytes) (r : TelemetryRecord D)
      → max_telemetry_path < n
      → n < 2 ^ 16
      → find_record junk r (at (record_separator ∷ (to_le 2 n ++ rest)))
        ≡ find_record junk
            (count_invalid_path (record r { path_length = n }))
            (at (to_le 2 n ++ rest))
  unfolding find_record
  find_record_long_path n rest r big fits = ground (arith, read_header_long_path n rest r big fits)

module _ (J : Rapidjson) (Z : Zlib) (memory junk : ℕ) where
  -- On a log with no separator left, `Read` returns false. It has then counted one corrupt byte
  -- more than there were, unless the unwritten `ch` happens to hold a separator.
  pub read_record_end :
      (fuel : ℕ) (garbage : Bytes) (r : TelemetryRecord J.Double)
      → All (λ c. c ≢ record_separator) garbage
      → junk ≢ record_separator
      → read_record J Z memory junk (suc (suc fuel)) (r, at garbage)
        ≡ (ok false, (skip (length garbage + 1) r, at_end))
  unfolding read_record read_round search
  read_record_end fuel garbage r g h = ground (arith, find_record_end junk garbage r g h)
