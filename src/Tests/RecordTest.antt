-- ===== src/Tests/RecordTest.antt =====
-- Runs of common/TelemetryRecord.cpp, after common/test/TestTelemetryRecord.cpp.
use mozilla_telemetry.Prelude.{
  ℕ, ◌+◌, ◌*◌, ◌≤◌, ◌<◌, ◌≡◌, ◌≢◌, refl, inl, Bool, true, false, [], ◌∷◌, ◌++◌, arith, length,
  replicate, All, Bytes, codes, c_str,
}
use mozilla_telemetry.Prelude.Int.{ℤ, pos}
use mozilla_telemetry.Constants.{record_separator}
use mozilla_telemetry.Outcome.{Outcome, ok, throw}
use mozilla_telemetry.Stream.{Stream, at, at_end, to_le}
use mozilla_telemetry.Stream
use mozilla_telemetry.Json.{Value, int, object, member, end, document}
use mozilla_telemetry.Record.{
  TelemetryRecord, new_record, new_metrics, count_invalid_path, read_header, find_record,
}
use mozilla_telemetry.Record.Header.{IsFound, find_record-IsFound}
use mozilla_telemetry.Record.Frame.{frame, IsFrame, skip}
use mozilla_telemetry.Record.Bounds.{NoFault, IsSound, new_record-IsSound}
use mozilla_telemetry.Record.Inflate.{bad_alloc, copy_to, inflate_data}
use mozilla_telemetry.Record.Inflate.Ends.{IsTruncated, inflate_data-bad_alloc}
use mozilla_telemetry.Record.Read.{
  get_path, get_timestamp, get_document, search, fetch, read_path, read_data, terminate_path,
  terminate_data, parse_document, process_record, read_round, read_record,
}
use mozilla_telemetry.Record.Read.Safety.{read_record-safe}
use mozilla_telemetry.Record.Read.Frames.{read_record-frame}
use mozilla_telemetry.Record.Read.End.{find_record_long_path, read_record_end}
use mozilla_telemetry.Tests.Instances.{sample_json, stored_zlib, waiting_zlib}

-- The largest array of a process with a megabyte.
abbrev pub memory : ℕ
memory = 1048576

abbrev pub path : Bytes
path = codes "abcd"

abbrev pub content : Bytes
content = codes "{\"a\":8}"

abbrev doc : Value ℤ
doc = object (member (codes "a") (int (pos 8)) end)

unfoldable pub fresh : TelemetryRecord ℤ
fresh = new_record 0

pub fresh-IsSound : IsSound memory fresh
unfolding fresh
fresh-IsSound = new_record-IsSound memory 0 (omega arith)

-- An object with small buffers, for runs.
abbrev small : TelemetryRecord ℤ
small = record {
  document = object end;
  path_length = 0;
  path_size = 15;
  path = replicate 16 0;
  data_length = 0;
  data_size = 15;
  buffer = replicate 16 0;
  timestamp = 0;
  inflate_length = 0;
  inflate_size = 16;
  inflated = replicate 16 0;
  metrics = new_metrics;
}

program : Unit {0}
unfolding read_record read_round search fetch read_path read_data terminate_path terminate_data
    process_record parse_document find_record read_header copy_to get_path get_timestamp
    get_document Stream.to_le Stream.read_value Stream.get c_str inflate_data
program = tt

abbrev result :
    Outcome Bool × (TelemetryRecord ℤ × Stream) → Outcome Bool × Bytes × ℕ × Value ℤ × Bytes
result o = (o.0, get_path o.1.0, get_timestamp o.1.0, get_document o.1.0, o.1.1.rest)

-- `test_read`
reads_record :
    result (
      read_record sample_json stored_zlib memory 0 40
        (small, at (frame path content 1 (codes "x"))))
    ≡ (ok true, path, 1, doc, codes "x")
unfolding program
reads_record = refl

-- `test_exceed_pathlength`
reads_behind_bad_header :
    result (
      read_record sample_json stored_zlib memory 0 60
        (small, at (0x1e ∷ 0xff ∷ 0xff ∷ 7 ∷ 0 ∷ 0 ∷ 0 ∷ 1 ∷ frame path content 1 [])))
    ≡ (ok true, path, 1, doc, [])
unfolding program
reads_behind_bad_header = refl

-- `test_short_pathlength`: the path is cut, the data is not JSON, and the next record is read.
reads_behind_bad_record :
    result (
      read_record sample_json stored_zlib memory 0 80 (
        small,
        at (
            0x1e
            ∷ 2
            ∷ 0
            ∷ 7
            ∷ 0
            ∷ 0
            ∷ 0
            ∷ 1
            ∷ 0
            ∷ 0
            ∷ 0
            ∷ 0
            ∷ 0
            ∷ 0
            ∷ 0
            ∷ (path ++ (content ++ frame path content 1 []))),
      ))
    ≡ (ok true, path, 1, doc, [])
unfolding program
reads_behind_bad_record = refl

abbrev log : Bytes
log = frame path content 1 []

log_short : length (at log).rest + 2 ≤ 100
unfolding program
log_short = omega arith

read_record-safe_example :
    NoFault (read_record sample_json stored_zlib memory 0 100 (fresh, at log)).0
    × IsSound memory (read_record sample_json stored_zlib memory 0 100 (fresh, at log)).1.0
read_record-safe_example =
    read_record-safe sample_json stored_zlib memory 0 (omega arith) 100 fresh (at log) fresh-IsSound
      (inl refl) log_short

pub fits : IsFrame path content 1
fits = record { path_fits = omega arith; data_fits = omega arith; time_fits = omega arith }

parsed : sample_json.parse (c_str content) ≡ document doc
unfolding program
parsed = refl

abbrev pub noise : Bytes
noise = codes "xyz"

pub clean : All (λ c. c ≢ record_separator) noise
clean = omega arith

read_record-frame_example :
    (r' : TelemetryRecord ℤ) × (read_record sample_json stored_zlib memory 0 1
        (fresh, at (noise ++ frame path content 1 []))
      ≡ (ok true, (r', at [])))
    × (get_path r' ≡ c_str path)
    × (get_timestamp r' ≡ 1)
    × (get_document r' ≡ doc)
    × (r'.metrics.corrupt_data.value ≡ fresh.metrics.corrupt_data.value + length noise)
read_record-frame_example =
    read_record-frame sample_json stored_zlib memory 0 noise path content [] 1 doc fresh
      fresh-IsSound clean fits refl parsed 0

read_record_end_example :
    read_record sample_json stored_zlib memory 0 2 (fresh, at noise)
    ≡ (ok false, (skip (length noise + 1) fresh, at_end))
read_record_end_example =
    read_record_end sample_json stored_zlib memory 0 0 noise fresh clean (omega arith)

found : (find_record 0 small (at log)).2 ≡ true
unfolding program
found = refl

find_record-IsFound_example : IsFound (find_record 0 small (at log)) log
find_record-IsFound_example = find_record-IsFound 0 small (at log) found

find_record_long_path_example :
    find_record 0 fresh (at (record_separator ∷ (to_le 2 0xffff ++ log)))
    ≡ find_record 0
        (count_invalid_path (record fresh { path_length = 0xffff }))
        (at (to_le 2 0xffff ++ log))
find_record_long_path_example = find_record_long_path 0 0xffff log fresh (omega arith) (omega arith)

waits : IsTruncated waiting_zlib (λ z. Unit)
waits = record { answer = λ z n p. refl; stays = λ z n p. tt }

inflate_data-bad_alloc_example :
    ((inflate_data waiting_zlib memory 0 fresh).0 ≡ throw bad_alloc)
    × (memory < (inflate_data waiting_zlib memory 0 fresh).1.inflate_size * 2)
inflate_data-bad_alloc_example =
    inflate_data-bad_alloc waiting_zlib memory 0 (omega arith) (λ z. Unit) tt fresh waits tt refl
      fresh-IsSound
