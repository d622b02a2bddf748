-- ===== src/Record/Inflate/Loop.antt =====
-- `Inflate` ends, and stays within its buffer.
use mozilla_telemetry.Prelude.{
  ℕ, zero, suc, ◌+◌, ◌*◌, ◌%◌, ◌^◌, ◌<◌, ◌≤◌, ◌≡◌, ◌≢◌, refl, ◌∙◌, Bool, true, false, arith,
  Bool-cases, inl, inr, ◌⊎◌, leb, length, take, replicate, length-take_of_le, length-replicate,
  Bytes, if◌then◌else◌,
}
use mozilla_telemetry.Outcome.{Outcome, ok, throw, fault}
use mozilla_telemetry.Record.{TelemetryRecord}
use mozilla_telemetry.Record.Bounds.{NoFault, IsSound, copy_to_total}
use mozilla_telemetry.Record.Inflate.{
  Ret, buf_error, Zlib, bad_alloc, Room, resize, make_room, take_output, inflate_loop, rounds,
}

module _ {D : Type 0} (memory junk : ℕ) where
  pub resize_lem :
      (required : ℕ) (r : TelemetryRecord D)
      → IsSound memory r
      → r.inflate_length ≤ required
      → ((resize memory junk required r ≡ throw bad_alloc) × (memory < required))
        ⊎ ((buf : Bytes) × (resize memory junk required r
              ≡ ok (record r { inflated = buf; inflate_size = required }))
            × (length buf ≡ required)
            × (required ≤ memory))
  unfolding resize
  resize_lem required r s h = elim (Bool-cases (leb required memory)) [
    | inr big ↦ inl (ground (arith, big, s.filled, s.inflate_room), ground (arith, big))
    | inl fits ↦
        let (buf, e, size) =
          copy_to_total (replicate required junk) 0 (take r.inflate_length r.inflated) (
            omega (
              arith,
              length-replicate required junk,
              length-take_of_le r.inflate_length r.inflated
                  (omega (arith, s.filled, s.inflate_room)),
            )) in
        inr (
          buf,
          ground (arith, fits, e, s.filled, s.inflate_room),
          size ∙ length-replicate required junk,
          ground (arith, fits),
        )
  ]

-- The object is sound and the output fits behind `next_out`.
record FitsIn {D : Type 0} (memory : ℕ) (room : Room D) : Type 0 where
  sound : IsSound memory room.object
  ends : room.next_out + room.avail_out ≡ room.object.inflate_size

-- The place for the output before the first round; later rounds do not read it.
abbrev IsPlaced : {D : Type 0} → Bool → ℕ → ℕ → TelemetryRecord D → Type 0
IsPlaced true next_out avail_out r = Unit
IsPlaced false next_out avail_out r = next_out + avail_out ≡ r.inflate_size

-- The object that a call leaves is sound, and the call was no fault.
pub record IsSafe {D A : Type 0} (memory : ℕ) (o : Outcome A × TelemetryRecord D) : Type 0 where
  pub no_fault : NoFault o.0
  pub sound : IsSound memory o.1

module _ {D : Type 0} (Z : Zlib) (memory junk : ℕ) (small : memory < 2 ^ 32) where
  abbrev RoomMade : Bool → TelemetryRecord D → Outcome (Room D) → Type 0
  RoomMade retry r (ok room) =
      FitsIn memory room × (r.inflate_size + (if retry then 1 else 0) ≤ room.object.inflate_size)
  RoomMade retry r (throw e) = (e ≡ bad_alloc) × (memory < r.inflate_size * 2)
  RoomMade retry r (fault e) = ⊥

  make_room-RoomMade :
      (retry : Bool) (next_out avail_out : ℕ) (r : TelemetryRecord D)
      → IsSound memory r
      → IsPlaced retry next_out avail_out r
      → RoomMade retry r (make_room Z memory junk retry next_out avail_out r)
  unfolding make_room
  make_room-RoomMade false next_out avail_out r s p = ground (arith, p)
  make_room-RoomMade true next_out avail_out r s p =
      elim (resize_lem memory junk (r.inflate_size * 2 % 2 ^ 64) r s
        (omega (arith, s.filled, s.allocated))) [
          | inl (e, big) ↦ ground (arith, e)
          | inr (buf, e, size, fits) ↦
              ground
                (arith, e, size, fits, s.filled, s.allocated, s.positive, s.path_room, s.data_room)
        ]

  abbrev OutputTaken : TelemetryRecord D → Outcome (TelemetryRecord D) → Type 0
  OutputTaken r (ok r') = IsSound memory r' × (r'.inflate_size ≡ r.inflate_size)
  OutputTaken r _ = ⊥

  take_output-OutputTaken :
      (room : Room D) (out : Bytes)
      → FitsIn memory room
      → length out ≤ room.avail_out
      → OutputTaken room.object (take_output Z memory junk room out)
  unfolding take_output
  take_output-OutputTaken room out f h =
      let (buf, e, size) =
        copy_to_total room.object.inflated room.next_out out
          (omega (arith, f.ends, f.sound.inflate_room)) in
      ground (arith, e, size, f.ends, f.sound)

  -- What a loop keeps of the stream, and what it ends with: it has run out of memory, or zlib has
  -- answered something else than `Z_BUF_ERROR`.
  pub record IsLoopRule (P : Z.ZStream → Type 0) (Q : Outcome Ret × TelemetryRecord D → Type 0)
      : Type 0 where
    pub goes_on :
        (z : Z.ZStream) (n : ℕ) → P z → (Z.inflate z n).0 ≡ buf_error → P (Z.inflate z n).2
    pub exhausted :
        (r : TelemetryRecord D)
        → IsSound memory r
        → memory < r.inflate_size * 2
        → Q (throw bad_alloc, r)
    pub ended :
        (z : Z.ZStream) (n : ℕ) (r : TelemetryRecord D)
        → P z
        → (Z.inflate z n).0 ≢ buf_error
        → IsSound memory r
        → Q (ok (Z.inflate z n).0, r)

  module _ {P : Z.ZStream → Type 0} {Q : Outcome Ret × TelemetryRecord D → Type 0}
      (rule : IsLoopRule P Q) where
    -- One round, given what the rounds after it do.
    module _ (fuel : ℕ) (retry : Bool) (z : Z.ZStream) (next_out avail_out : ℕ)
        (r : TelemetryRecord D) (p : P z) (s : IsSound memory r)
        (h : memory + (if retry then 2 else 3) ≤ suc fuel + r.inflate_size)
        (ih : (z' : Z.ZStream) (n a : ℕ) (r' : TelemetryRecord D)
          → P z'
          → IsSound memory r'
          → memory + 2 ≤ fuel + r'.inflate_size
          → Q (inflate_loop Z memory junk fuel true z' n a r')) where
      after_output :
          (room : Room D) (out : Outcome (TelemetryRecord D)) (ret : Ret)
          → make_room Z memory junk retry next_out avail_out r ≡ ok room
          → take_output Z memory junk room (Z.inflate z room.avail_out).1 ≡ out
          → (Z.inflate z room.avail_out).0 ≡ ret
          → FitsIn memory room
          → r.inflate_size + (if retry then 1 else 0) ≤ room.object.inflate_size
          → OutputTaken room.object out
          → Q (inflate_loop Z memory junk (suc fuel) retry z next_out avail_out r)
      unfolding inflate_loop
      after_output room (ok r') buf_error e o q fits grown (sound, same) =
          let run : inflate_loop Z memory junk (suc fuel) retry z next_out avail_out r
              ≡ inflate_loop Z memory junk fuel true (Z.inflate z room.avail_out).2 room.next_out
                  room.avail_out r' =
            ground (arith, e, o, q) in
          rw run (
            ih (Z.inflate z room.avail_out).2 room.next_out room.avail_out r'
              (rule.goes_on z room.avail_out p q) sound (ground arith))
      after_output room (ok r') ret e o q fits grown (sound, same) =
          let run : inflate_loop Z memory junk (suc fuel) retry z next_out avail_out r
              ≡ (ok (Z.inflate z room.avail_out).0, r') =
            ground (arith, e, o, q) in
          rw run (rule.ended z room.avail_out r' p (λ b. cc (b, q)) sound)
      after_output room x ret e o q fits grown taken = absurd taken

      after_room :
          (o : Outcome (Room D))
          → make_room Z memory junk retry next_out avail_out r ≡ o
          → RoomMade retry r o
          → Q (inflate_loop Z memory junk (suc fuel) retry z next_out avail_out r)
      unfolding inflate_loop
      after_room (throw x) e (full, big) =
          let run : inflate_loop Z memory junk (suc fuel) retry z next_out avail_out r
              ≡ (throw bad_alloc, r) =
            ground (arith, e, full) in
          rw run (rule.exhausted r s big)
      after_room (fault x) e made = absurd made
      after_room (ok room) e (fits, grown) = after_output room _ _ e refl refl fits grown (
          take_output-OutputTaken room (Z.inflate z room.avail_out).1 fits
            (Z.inflate_bound z room.avail_out))

    inflate_loop_rule :
        (fuel : ℕ) (retry : Bool) (z : Z.ZStream) (next_out avail_out : ℕ) (r : TelemetryRecord D)
        → P z
        → IsSound memory r
        → IsPlaced retry next_out avail_out r
        → memory + (if retry then 2 else 3) ≤ fuel + r.inflate_size
        → Q (inflate_loop Z memory junk fuel retry z next_out avail_out r)
    inflate_loop_rule zero true z next_out avail_out r p s w h = absurd (omega (arith, s.allocated))
    inflate_loop_rule zero false z next_out avail_out r p s w h =
        absurd (omega (arith, s.allocated))
    inflate_loop_rule (suc fuel) retry z next_out avail_out r p s w h =
        after_room fuel retry z next_out avail_out r p s h
          (λ z' n a r' p' s' h'. inflate_loop_rule fuel true z' n a r' p' s' tt h') _ refl
          (make_room-RoomMade retry next_out avail_out r s w)

    -- The loop as `Inflate` enters it has rounds enough.
    pub inflate_loop_start :
        (z : Z.ZStream) (r : TelemetryRecord D)
        → P z
        → IsSound memory r
        → Q (inflate_loop Z memory junk (rounds memory) false z 0 (r.inflate_size % 2 ^ 32) r)
    inflate_loop_start z r p s =
        inflate_loop_rule (rounds memory) false z 0 (r.inflate_size % 2 ^ 32) r p s
          (omega (arith, s.allocated)) (omega (arith, s.positive))
