-- ===== src/Record/Header.antt =====
-- What `ReadHeader` and `FindRecord` leave of the object and the stream.
use mozilla_telemetry.Prelude.{
  ℕ, ◌+◌, ◌≤◌, ◌≡◌, true, false, [], ◌∷◌, arith, length, drop, length-drop, Bytes,
}
use mozilla_telemetry.Constants.{max_telemetry_path, max_telemetry_data}
use mozilla_telemetry.Stream.{Stream, at, at_end, good, read_value}
use mozilla_telemetry.Record.{
  TelemetryRecord, Step, count_corrupt, read_header, find_loop, find_record,
}

-- The lengths of a header that was accepted.
pub record IsBounded {D : Type 0} (r : TelemetryRecord D) : Type 0 where
  pub path : r.path_length ≤ max_telemetry_path
  pub data_bound : r.data_length ≤ max_telemetry_data

-- The fields that the search for a header does not change.
pub record KeepsBuffers {D : Type 0} (r r' : TelemetryRecord D) : Type 0 where
  pub document : r'.document ≡ r.document
  pub path_size : r'.path_size ≡ r.path_size
  pub path : r'.path ≡ r.path
  pub data_size : r'.data_size ≡ r.data_size
  pub buffer : r'.buffer ≡ r.buffer
  pub inflate_length : r'.inflate_length ≡ r.inflate_length
  pub inflate_size : r'.inflate_size ≡ r.inflate_size
  pub inflated : r'.inflated ≡ r.inflated

module _ {D : Type 0} where
  header_IsBounded :
      (r : TelemetryRecord D) (s : Stream)
      → (read_header r s).2 ≡ true
      → IsBounded (read_header r s).0
  unfolding read_header
  header_IsBounded r s h = ground arith

  header_KeepsBuffers : (r : TelemetryRecord D) (s : Stream) → KeepsBuffers r (read_header r s).0
  unfolding read_header
  header_KeepsBuffers r s = ground arith

  -- An accepted header leaves a good stream behind its fourteen bytes.
  header_stream :
      (r : TelemetryRecord D) (bs : Bytes)
      → (read_header r (at bs)).2 ≡ true
      → (good (read_header r (at bs)).1 ≡ true)
        × (length (read_header r (at bs)).1.rest + 14 ≡ length bs)
  unfolding read_header read_value
  header_stream r bs h =
      ground
        (arith, length-drop 2 bs, length-drop 4 (drop 2 bs), length-drop 8 (drop 4 (drop 2 bs)))

  header-at_end :
      (r : TelemetryRecord D)
      → ((read_header r at_end).2 ≡ false) × ((read_header r at_end).1 ≡ at_end)
  unfolding read_header read_value
  header-at_end r = ground arith

  KeepsBuffers-trans :
      {r s t : TelemetryRecord D} → KeepsBuffers r s → KeepsBuffers s t → KeepsBuffers r t
  KeepsBuffers-trans h k = ground arith

  find_loop-KeepsBuffers :
      (junk : ℕ) (r : TelemetryRecord D) (bs : Bytes) → KeepsBuffers r (find_loop junk r bs).0
  unfolding find_loop
  find_loop-KeepsBuffers junk r [] = ground (arith, header_KeepsBuffers r at_end)
  find_loop-KeepsBuffers junk r (c ∷ cs) =
      let h = header_KeepsBuffers r (at cs) in
      ground (
        arith,
        h,
        find_loop-KeepsBuffers junk (read_header r (at cs)).0 cs,
        find_loop-KeepsBuffers junk (count_corrupt r) cs,
      )

  -- A record that was found has lengths within its buffers, and the stream is good and shorter.
  pub record IsFound (f : Step D) (bs : Bytes) : Type 0 where
    pub bounded : IsBounded f.0
    pub is_good : good f.1 ≡ true
    pub shorter : length f.1.rest + 15 ≤ length bs

  find_loop-IsFound :
      (junk : ℕ) (r : TelemetryRecord D) (bs : Bytes)
      → (find_loop junk r bs).2 ≡ true
      → IsFound (find_loop junk r bs) bs
  unfolding find_loop
  find_loop-IsFound junk r [] h = ground (arith, header-at_end r)
  find_loop-IsFound junk r (c ∷ cs) h = ground (
    arith,
    header_IsBounded r (at cs),
    header_stream r cs,
    find_loop-IsFound junk (read_header r (at cs)).0 cs,
    find_loop-IsFound junk (count_corrupt r) cs,
  )

  -- If no record was found, the stream has failed.
  find_loop_fail :
      (junk : ℕ) (r : TelemetryRecord D) (bs : Bytes)
      → (find_loop junk r bs).2 ≡ false
      → (find_loop junk r bs).1.fail ≡ true
  unfolding find_loop
  find_loop_fail junk r [] h = ground (arith, header-at_end r)
  find_loop_fail junk r (c ∷ cs) h = ground (
    arith,
    find_loop_fail junk (read_header r (at cs)).0 cs,
    find_loop_fail junk (count_corrupt r) cs,
  )

  pub find_record-KeepsBuffers :
      (junk : ℕ) (r : TelemetryRecord D) (s : Stream) → KeepsBuffers r (find_record junk r s).0
  unfolding find_record
  find_record-KeepsBuffers junk r s = ground (arith, find_loop-KeepsBuffers junk r s.rest)

  -- `FindRecord` returns true with a header whose lengths fit the buffers.
  pub find_record-IsFound :
      (junk : ℕ) (r : TelemetryRecord D) (s : Stream)
      → (find_record junk r s).2 ≡ true
      → IsFound (find_record junk r s) s.rest
  unfolding find_record
  find_record-IsFound junk r s h = ground (arith, find_loop-IsFound junk r s.rest)

  -- On a good stream `FindRecord` returns false only when the stream has failed.
  pub find_record_fail :
      (junk : ℕ) (r : TelemetryRecord D) (s : Stream)
      → good s ≡ true
      → (find_record junk r s).2 ≡ false
      → (find_record junk r s).1.fail ≡ true
  unfolding find_record
  find_record_fail junk r s g h = ground (arith, find_loop_fail junk r s.rest)
