-- ===== src/Record/Read/Parts.antt =====
-- The parts of `Read`, each without a fault and with a sound object behind it.
use mozilla_telemetry.Prelude.{
  ℕ, ◌+◌, ◌%◌, ◌^◌, ◌<◌, ◌≤◌, ◌≡◌, Bool, true, Bool-cases, inl, inr, arith, [], ◌∷◌, length, take,
  drop, has_nul, has_nul-append, length-take_of_le, length-drop, Bytes, ltb,
}
use mozilla_telemetry.Outcome.{Outcome, ok}
use mozilla_telemetry.Stream.{Stream, at, good}
use mozilla_telemetry.Stream
use mozilla_telemetry.Json.{Rapidjson}
use mozilla_telemetry.Record.{TelemetryRecord}
use mozilla_telemetry.Record.Header.{IsBounded}
use mozilla_telemetry.Record.Bounds.{NoFault, IsSound, copy_to_total}
use mozilla_telemetry.Record.Inflate.{Zlib, copy_to, inflate_data}
use mozilla_telemetry.Record.Inflate.Loop.{IsSafe, resize_lem}
use mozilla_telemetry.Record.Inflate.Ends.{inflate_data-IsSafe}
use mozilla_telemetry.Record.Read.{
  Session, read_path, read_data, terminate_path, terminate_data, fetch, parse_document,
  terminate_inflated, process_record,
}

module _ (J : Rapidjson) (Z : Zlib) (memory junk : ℕ) (small : memory + 1 < 2 ^ 32) where
  open J use {Double}

  -- A NUL that was written to a buffer is there.
  copy_to-has_nul :
      (buf buf' : Bytes) (i : ℕ) → copy_to buf i (0 ∷ []) ≡ ok buf' → has_nul buf' ≡ true
  unfolding copy_to
  copy_to-has_nul buf buf' i e = ground (arith, e, has_nul-append (take i buf) (drop (i + 1) buf))

  -- After `mInflate[mInflateLength] = 0`, or where the larger array is refused
  record IsEnded (o : Outcome (Unit {0}) × TelemetryRecord Double) : Type 0 where
    safe : IsSafe memory o
    terminated : o.0 ≡ ok tt → has_nul o.1.inflated ≡ true

  terminate_inflated-IsEnded :
      (r : TelemetryRecord Double)
      → IsSound memory r
      → IsEnded (terminate_inflated J Z memory junk r)
  unfolding terminate_inflated
  terminate_inflated-IsEnded r s = elim (Bool-cases (ltb r.inflate_length r.inflate_size)) [
    | inl room ↦
        let (buf, e, size) =
          copy_to_total r.inflated r.inflate_length (0 ∷ [])
            (ground (arith, s.inflate_room, room)) in
        ground (arith, room, e, size, s, copy_to-has_nul r.inflated buf r.inflate_length e)
    | inr full ↦
        elim (resize_lem memory junk ((r.inflate_length + 1) % 2 ^ 32) r s
          (ground (arith, full, s.filled, s.allocated))) [
            | inl (e, big) ↦ ground (arith, full, e, s)
            | inr (buf, e, size, fits) ↦
                let (buf', e', size') =
                  copy_to_total buf r.inflate_length (0 ∷ [])
                    (ground (arith, size, full, s.filled, s.allocated)) in
                ground (
                  arith,
                  full,
                  e,
                  e',
                  size,
                  size',
                  fits,
                  s,
                  copy_to-has_nul buf buf' r.inflate_length e',
                )
          ]
  ]

  parse_document-IsSafe :
      (text : TelemetryRecord Double → Bytes) (r : TelemetryRecord Double)
      → IsSound memory r
      → has_nul (text r) ≡ true
      → IsSafe memory (parse_document J Z memory junk text r)
  unfolding parse_document
  parse_document-IsSafe text r s there = ground (arith, s, there)

  pub process_record-IsSafe :
      (r : TelemetryRecord Double)
      → IsSound memory r
      → has_nul r.buffer ≡ true
      → IsSafe memory (process_record J Z memory junk r)
  unfolding process_record
  process_record-IsSafe r s there =
      let i = inflate_data-IsSafe Z memory junk (omega arith) r s in
      let t = terminate_inflated-IsEnded (inflate_data Z memory junk r).1 i.sound in
      let r' = (terminate_inflated J Z memory junk (inflate_data Z memory junk r).1).1 in
      let plain = parse_document-IsSafe (λ r. r.buffer) r s there in
      let inflated = parse_document-IsSafe (λ r. r.inflated) r' t.safe.sound in
      ground (
        arith, s, i.no_fault, i.sound, t.safe.no_fault, t.safe.sound, t.terminated, plain.no_fault,
        plain.sound, inflated,
      )

  -- What a part of `Read` leaves: no fault, and a sound object.
  pub record IsSafeRun {A : Type 0} (o : Outcome A × Session Double) : Type 0 where
    pub no_fault : NoFault o.0
    pub sound : IsSound memory o.1.0

  -- The path and the data of an accepted header fit their buffers; the stream is not lengthened.
  pub record IsFetched (s : Stream) (o : Outcome Bool × Session Double) : Type 0 where
    pub safe : IsSafeRun o
    pub shorter : length o.1.1.rest ≤ length s.rest
    pub is_good : o.0 ≡ ok true → good o.1.1 ≡ true
    pub terminated : o.0 ≡ ok true → has_nul o.1.0.buffer ≡ true

  length-read_le :
      (n : ℕ) (s : Stream)
      → (length (Stream.read n s).0 ≤ n) × (length (Stream.read n s).1.rest ≤ length s.rest)
  unfolding Stream.read
  length-read_le n s = ground (arith, length-take_of_le n s.rest, length-drop n s.rest)

  read_path_lem :
      (r : TelemetryRecord Double) (s : Stream)
      → IsSound memory r
      → IsBounded r
      → (path : Bytes) × (read_path (r, s) ≡ (
        ok (good (Stream.read r.path_length s).1),
        (record r { path = path }, (Stream.read r.path_length s).1),
      ))
        × (length path ≡ length r.path)
  unfolding read_path
  read_path_lem r s w b =
      let got = length-read_le r.path_length s in
      let (path, e, size) =
        copy_to_total r.path 0 (Stream.read r.path_length s).0
          (ground (arith, got, w.path_room, b.path)) in
      (path, ground (arith, e), size)

  terminate_path_lem :
      (r : TelemetryRecord Double) (s : Stream)
      → IsSound memory r
      → IsBounded r
      → (path : Bytes) × (terminate_path (r, s) ≡ (ok tt, (record r { path = path }, s)))
        × (length path ≡ length r.path)
  unfolding terminate_path
  terminate_path_lem r s w b =
      let (path, e, size) =
        copy_to_total r.path r.path_length (0 ∷ []) (ground (arith, w.path_room, b.path)) in
      (path, ground (arith, e), size)

  read_data_lem :
      (r : TelemetryRecord Double) (s : Stream)
      → IsSound memory r
      → IsBounded r
      → (buffer : Bytes) × (read_data (r, s) ≡ (
        ok (good (Stream.read r.data_length s).1),
        (record r { buffer = buffer }, (Stream.read r.data_length s).1),
      ))
        × (length buffer ≡ length r.buffer)
  unfolding read_data
  read_data_lem r s w b =
      let got = length-read_le r.data_length s in
      let (buffer, e, size) =
        copy_to_total r.buffer 0 (Stream.read r.data_length s).0
          (ground (arith, got, w.data_room, b.data_bound)) in
      (buffer, ground (arith, e), size)

  terminate_data_lem :
      (r : TelemetryRecord Double) (s : Stream)
      → IsSound memory r
      → IsBounded r
      → (buffer : Bytes) × (terminate_data (r, s) ≡ (ok tt, (record r { buffer = buffer }, s)))
        × (length buffer ≡ length r.buffer)
        × (has_nul buffer ≡ true)
  unfolding terminate_data
  terminate_data_lem r s w b =
      let (buffer, e, size) =
        copy_to_total r.buffer r.data_length (0 ∷ []) (ground (arith, w.data_room, b.data_bound)) in
      (buffer, ground (arith, e), size, copy_to-has_nul r.buffer buffer r.data_length e)

  pub fetch-IsFetched :
      (r : TelemetryRecord Double) (s : Stream)
      → IsSound memory r
      → IsBounded r
      → IsFetched s (fetch (r, s))
  unfolding fetch
  fetch-IsFetched r s w b =
      let (p₁, e₁, n₁) = read_path_lem r s w b in
      let s₁ = (Stream.read r.path_length s).1 in
      let r₁ = record r { path = p₁ } in
      let (p₂, e₂, n₂) = terminate_path_lem r₁ s₁ (ground (arith, w, n₁)) (ground (arith, b)) in
      let r₂ = record r₁ { path = p₂ } in
      let (d₃, e₃, n₃) = read_data_lem r₂ s₁ (ground (arith, w, n₁, n₂)) (ground (arith, b)) in
      let r₃ = record r₂ { buffer = d₃ } in
      let s₃ = (Stream.read r.data_length s₁).1 in
      let (d₄, e₄, n₄, nul) =
        terminate_data_lem r₃ s₃ (ground (arith, w, n₁, n₂, n₃)) (ground (arith, b)) in
      ground (
        arith,
        e₁,
        e₂,
        e₃,
        e₄,
        n₁,
        n₂,
        n₃,
        n₄,
        nul,
        w,
        length-read_le r.path_length s,
        length-read_le r.data_length s₁,
      )
