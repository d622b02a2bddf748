-- ===== src/Record/Inflate.antt =====
-- common/TelemetryRecord.cpp: `Inflate`. zlib is not part of the repository: a parameter, with the
-- one law that `inflate` writes at most `avail_out` bytes. `memory` is the largest array that
-- `new` gives; it throws `bad_alloc` for a larger one, so the source's test for null never fails.
pub mod Loop
pub mod Ends
use mozilla_telemetry.Prelude.{
  ℕ, zero, suc, ◌+◌, ◌-◌, ◌*◌, ◌%◌, ◌^◌, ◌≤◌, Bool, true, false, Option, none, some, ◌++◌, length,
  take, drop, replicate, Bytes, codes, ltb, leb, if◌then◌else◌,
}
use mozilla_telemetry.Outcome.{Outcome, ok, throw, fault, out_of_bounds, out_of_fuel}
use mozilla_telemetry.Exec.{Exec}
use mozilla_telemetry.Record.{TelemetryRecord}

-- The results that the program tells apart: `Z_STREAM_END`, `Z_BUF_ERROR`, and any other.
pub data Ret : Type 0 where
  stream_end buf_error failure : Ret

pub record Zlib : Type 1 where
  pub ZStream : Type 0
  -- `inflateInit2` on the input; `none` if it is not `Z_OK`.
  pub init : Bytes → Option ZStream
  -- `inflate(strm, Z_FINISH)` with `avail_out` bytes of room: its result and the bytes it writes.
  pub inflate : ZStream → ℕ → Ret × Bytes × ZStream
  pub inflate_bound : (z : ZStream) (avail_out : ℕ) → length (inflate z avail_out).1 ≤ avail_out

abbrev pub bad_alloc : Bytes
bad_alloc = codes "std::bad_alloc"

-- `memcpy` of `bytes` to the position `i` of a buffer.
unfoldable pub copy_to : Bytes → ℕ → Bytes → Outcome Bytes
copy_to buf i bytes =
    if leb (i + length bytes) (length buf)
    then ok (take i buf ++ (bytes ++ drop (i + length bytes) buf))
    else fault out_of_bounds

-- The object, and the place and the room for the output of `inflate`; `avail_out` is a 32-bit
-- `uInt`.
pub record Room (D : Type 0) : Type 0 where
  pub object : TelemetryRecord D
  pub next_out : ℕ
  pub avail_out : ℕ

-- The buffer doubles in each round but the first, so it passes `memory` within these rounds.
abbrev pub rounds : ℕ → ℕ
rounds memory = memory + 2

abbrev pub is_ok : Ret → Bool
is_ok stream_end = true
is_ok _ = false

module _ {D : Type 0} (memory junk : ℕ) where
  -- A new array of `required` bytes, with the first `inflate_length` copied over.
  unfoldable pub resize : ℕ → TelemetryRecord D → Outcome (TelemetryRecord D)
  unfolding copy_to
  resize required r =
      if ltb (length r.inflated) r.inflate_length
      then fault out_of_bounds
      else if leb required memory
      then elim (copy_to (replicate required junk) 0 (take r.inflate_length r.inflated)) [
        | ok buf ↦ ok (record r { inflated = buf; inflate_size = required })
        | throw e ↦ throw e
        | fault e ↦ fault e
      ]
      else throw bad_alloc

module _ {D : Type 0} (Z : Zlib) (memory junk : ℕ) where
  open Z use {ZStream, init, inflate}

  -- The top of the loop body: twice the room after `Z_BUF_ERROR`.
  unfoldable pub make_room : Bool → ℕ → ℕ → TelemetryRecord D → Outcome (Room D)
  unfolding resize
  make_room false next_out avail_out r =
      ok (record { object = r; next_out = next_out; avail_out = avail_out })
  make_room true next_out avail_out r = elim (resize memory junk (r.inflate_size * 2 % 2 ^ 64) r) [
    | ok r' ↦ ok (record {
      object = r';
      next_out = r.inflate_length;
      avail_out = (r'.inflate_size - r.inflate_length) % 2 ^ 32;
    })
    | throw e ↦ throw e
    | fault e ↦ fault e
  ]

  -- The output of one call of `inflate`, and `mInflateLength = mInflateSize - strm.avail_out`.
  unfoldable pub take_output : Room D → Bytes → Outcome (TelemetryRecord D)
  unfolding copy_to
  take_output room out = elim (copy_to room.object.inflated room.next_out out) [
    | ok buf ↦ ok (record room.object {
      inflated = buf;
      inflate_length = (room.object.inflate_size - (room.avail_out - length out)) % 2 ^ 32;
    })
    | throw e ↦ throw e
    | fault e ↦ fault e
  ]

  -- `do { … } while (ret == Z_BUF_ERROR)`; `retry` says that the last `ret` was `Z_BUF_ERROR`.
  unfoldable pub inflate_loop : ℕ → Bool → ZStream → ℕ → ℕ → Exec (TelemetryRecord D) Ret
  unfolding make_room take_output
  inflate_loop zero retry z next_out avail_out r = (fault out_of_fuel, r)
  inflate_loop (suc fuel) retry z next_out avail_out r =
      elim (make_room retry next_out avail_out r) [
        | throw e ↦ (throw e, r)
        | fault e ↦ (fault e, r)
        | ok room ↦
            let o = inflate z room.avail_out in
            elim (take_output room o.1) [
              | throw e ↦ (throw e, room.object)
              | fault e ↦ (fault e, room.object)
              | ok r' ↦ elim o.0 [
                | buf_error ↦ inflate_loop fuel true o.2 room.next_out room.avail_out r'
                | stream_end ↦ (ok stream_end, r')
                | failure ↦ (ok failure, r')
              ]
            ]
      ]

  -- `Inflate() == Z_OK`
  unfoldable pub inflate_data : Exec (TelemetryRecord D) Bool
  unfolding inflate_loop
  inflate_data r = elim (init (take r.data_length r.buffer)) [
    | none ↦ (ok false, r)
    | some z ↦
        let run = inflate_loop (rounds memory) false z 0 (r.inflate_size % 2 ^ 32) r in
        elim run.0 [
          | ok ret ↦ (ok (is_ok ret), run.1)
          | throw e ↦ (throw e, run.1)
          | fault e ↦ (fault e, run.1)
        ]
  ]
