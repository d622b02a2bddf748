-- ===== src/Record/Read/Frames.antt =====
-- `Read` on a log that holds a whole record, possibly behind bytes that are none.
use mozilla_telemetry.Prelude.{
  ℕ, suc, ◌+◌, ◌<◌, ◌≡◌, ◌≢◌, refl, sym, ap, Bool, true, false, ◌&&◌, [], ◌∷◌, ◌++◌, arith, length,
  length-append, take-append, drop, drop-drop_one, drop-suc-append, length-drop, All, Bytes, c_str,
  c_str-append, has_nul-append, ltb, ◌==◌,
}
use mozilla_telemetry.Constants.{record_separator}
use mozilla_telemetry.Outcome.{ok}
use mozilla_telemetry.Stream.{at}
use mozilla_telemetry.Stream.Reading.{read-append}
use mozilla_telemetry.Json.{Rapidjson, Value, document}
use mozilla_telemetry.Record.{TelemetryRecord}
use mozilla_telemetry.Record.Frame.{frame, IsFrame, skip, with_header, find_record-frame}
use mozilla_telemetry.Record.Bounds.{IsSound}
use mozilla_telemetry.Record.Inflate.{Zlib, copy_to}
use mozilla_telemetry.Record.Read.{
  found, get_path, get_timestamp, get_document, byte_at, is_gzip, read_path, read_data,
  terminate_path, terminate_data, search, fetch, parse_document, process_record, read_round,
  read_record,
}

-- A text and its NUL at the front of a buffer.
abbrev terminated : Bytes → Bytes → Bytes
terminated text buf = text ++ (0 ∷ drop (suc (length text)) buf)

-- Writing a text to a buffer, and then a NUL behind it.
copy_terminated :
    (buf text : Bytes)
    → length text < length buf
    → (buf' : Bytes) × (copy_to buf 0 text ≡ ok buf')
      × (copy_to buf' (length text) (0 ∷ []) ≡ ok (terminated text buf))
unfolding copy_to
copy_terminated buf text h =
    let tail = drop (length text) buf in
    let start : 0 + length text ≡ length text = omega arith in
    let next : length text + 1 ≡ suc (length text) = omega arith in
    (
      text ++ tail,
      ground (arith, h, ap (λ (k : ℕ). drop k buf) start),
      ground (
        arith,
        h,
        length-append text tail,
        length-drop (length text) buf,
        take-append text tail,
        ap (λ (k : ℕ). drop k (text ++ tail)) next,
        drop-suc-append text tail,
        drop-drop_one (length text) buf,
      ),
    )

module _ {D : Type 0} where
  -- The object after the path and the data were read.
  abbrev filled : Bytes → Bytes → TelemetryRecord D → TelemetryRecord D
  filled path content r = record r {
    path = terminated path r.path;
    buffer = terminated content r.buffer;
  }

  read_path_frame :
      (path rest : Bytes) (r : TelemetryRecord D)
      → r.path_length ≡ length path
      → length path < length r.path
      → (buf : Bytes) × (read_path (r, at (path ++ rest))
          ≡ (ok true, (record r { path = buf }, at rest)))
        × (terminate_path (record r { path = buf }, at rest)
            ≡ (ok tt, (record r { path = terminated path r.path }, at rest)))
  unfolding read_path terminate_path
  read_path_frame path rest r e h =
      let (buf, written, ended) = copy_terminated r.path path h in
      let got = read-append path rest r.path_length (sym e) in
      (buf, ground (arith, written, got), ground (arith, ended, e))

  read_data_frame :
      (content rest : Bytes) (r : TelemetryRecord D)
      → r.data_length ≡ length content
      → length content < length r.buffer
      → (buf : Bytes) × (read_data (r, at (content ++ rest))
          ≡ (ok true, (record r { buffer = buf }, at rest)))
        × (terminate_data (record r { buffer = buf }, at rest)
            ≡ (ok tt, (record r { buffer = terminated content r.buffer }, at rest)))
  unfolding read_data terminate_data
  read_data_frame content rest r e h =
      let (buf, written, ended) = copy_terminated r.buffer content h in
      let got = read-append content rest r.data_length (sym e) in
      (buf, ground (arith, written, got), ground (arith, ended, e))

  fetch_frame :
      (path content rest : Bytes) (r : TelemetryRecord D)
      → r.path_length ≡ length path
      → r.data_length ≡ length content
      → length path < length r.path
      → length content < length r.buffer
      → fetch (r, at (path ++ (content ++ rest))) ≡ (ok true, (filled path content r, at rest))
  unfolding fetch
  fetch_frame path content rest r ep ec hp hc =
      let (buf, read_it, end_it) = read_path_frame path (content ++ rest) r ep hp in
      let r₂ = record r { path = terminated path r.path } in
      let (buf', read_data_it, end_data) = read_data_frame content rest r₂ ec hc in
      ground (arith, read_it, end_it, read_data_it, end_data)

-- The first two bytes of data that `ProcessRecord` takes for compressed.
abbrev pub is_compressed : Bytes → Bool
is_compressed content =
    ltb 2 (length content) && (byte_at content 0 == 0x1f && byte_at content 1 == 0x8b)

is_gzip-filled :
    {D : Type 0} (path content : Bytes) (r : TelemetryRecord D)
    → r.data_length ≡ length content
    → is_gzip (filled path content r) ≡ is_compressed content
is_gzip-filled path [] r e = ground (arith, e)
is_gzip-filled path (a ∷ []) r e = ground (arith, e)
is_gzip-filled path (a ∷ b ∷ cs) r e = ground (arith, e)

module _ (J : Rapidjson) (Z : Zlib) (memory junk : ℕ) where
  open J use {Double, parse}

  -- The object after a whole record.
  abbrev after_frame :
      Bytes → Bytes → ℕ → ℕ → Value Double → TelemetryRecord Double → TelemetryRecord Double
  after_frame path content timestamp n doc r =
      record (filled path content (with_header path content timestamp (skip n r))) {
        document = doc;
      }

  module _ (garbage path content rest : Bytes) (timestamp : ℕ) (doc : Value Double)
      (r : TelemetryRecord Double) (sound : IsSound memory r)
      (clean : All (λ c. c ≢ record_separator) garbage) (fits : IsFrame path content timestamp)
      (plain : is_compressed content ≡ false) (parsed : parse (c_str content) ≡ document doc) where
    process_frame :
        process_record J Z memory junk
          (filled path content (with_header path content timestamp (skip (length garbage) r)))
        ≡ (ok true, after_frame path content timestamp (length garbage) doc r)
    unfolding process_record parse_document
    process_frame =
        let r' = with_header path content timestamp (skip (length garbage) r) in
        ground (
          arith,
          plain,
          parsed,
          is_gzip-filled path content r' refl,
          has_nul-append content (drop (suc (length content)) r.buffer),
          c_str-append content (drop (suc (length content)) r.buffer),
        )

    round_frame :
        read_round J Z memory junk (r, at (garbage ++ frame path content timestamp rest))
        ≡ (ok found, (after_frame path content timestamp (length garbage) doc r, at rest))
    unfolding read_round search
    round_frame =
        let r' = with_header path content timestamp (skip (length garbage) r) in
        ground (
          arith,
          find_record-frame junk garbage path content timestamp rest r clean fits,
          fetch_frame path content rest r' refl refl
              (omega (arith, fits.path_fits, sound.path_room))
              (omega (arith, fits.data_fits, sound.data_room)),
          process_frame,
        )

    -- `Read` returns the record, stops behind it, and has counted the bytes before it.
    pub read_record-frame :
        (fuel : ℕ)
        → (r' : TelemetryRecord Double) × (read_record J Z memory junk
              (suc fuel)
              (r, at (garbage ++ frame path content timestamp rest))
            ≡ (ok true, (r', at rest)))
          × (get_path r' ≡ c_str path)
          × (get_timestamp r' ≡ timestamp)
          × (get_document r' ≡ doc)
          × (r'.metrics.corrupt_data.value ≡ r.metrics.corrupt_data.value + length garbage)
    unfolding read_record get_path get_timestamp get_document
    read_record-frame fuel = (
      after_frame path content timestamp (length garbage) doc r,
      ground (arith, round_frame),
      c_str-append path (drop (suc (length path)) r.path),
      refl,
      refl,
      refl,
    )
