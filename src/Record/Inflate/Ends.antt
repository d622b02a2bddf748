-- ===== src/Record/Inflate/Ends.antt =====
-- How `Inflate` ends.
use mozilla_telemetry.Prelude.{
  ℕ, ◌*◌, ◌^◌, ◌<◌, ◌≡◌, refl, some, Option-cases, inl, inr, arith, take,
}
use mozilla_telemetry.Outcome.{throw}
use mozilla_telemetry.Record.{TelemetryRecord}
use mozilla_telemetry.Record.Bounds.{IsSound}
use mozilla_telemetry.Record.Inflate.{buf_error, Zlib, bad_alloc, inflate_data}
use mozilla_telemetry.Record.Inflate.Loop.{IsSafe, IsLoopRule, inflate_loop_start}

-- What zlib says of a stream that needs more input than there is: each call with `Z_FINISH`
-- answers `Z_BUF_ERROR`, however much room it has.
pub record IsTruncated (Z : Zlib) (P : Z.ZStream → Type 0) : Type 0 where
  pub answer : (z : Z.ZStream) (n : ℕ) → P z → (Z.inflate z n).0 ≡ buf_error
  pub stays : (z : Z.ZStream) (n : ℕ) → P z → P (Z.inflate z n).2

module _ {D : Type 0} (Z : Zlib) (memory junk : ℕ) (small : memory < 2 ^ 32) where
  abbrev safe_rule : IsLoopRule {D = D} Z memory junk small (λ z. Unit {0}) (IsSafe memory)
  safe_rule = record {
    goes_on = λ z n p e. tt;
    exhausted = λ r s big. record { no_fault = tt; sound = s };
    ended = λ z n r p e s. record { no_fault = tt; sound = s };
  }

  -- `Inflate` ends, without a fault, and leaves the object sound.
  pub inflate_data-IsSafe :
      (r : TelemetryRecord D) → IsSound memory r → IsSafe memory (inflate_data Z memory junk r)
  unfolding inflate_data
  inflate_data-IsSafe r s = elim (Option-cases (Z.init (take r.data_length r.buffer))) [
    | inl e ↦ ground (arith, e, s)
    | inr (z, e) ↦
        let safe = inflate_loop_start Z memory junk small safe_rule z r tt s in
        ground (arith, e, safe.no_fault, safe.sound)
  ]

  -- On such a stream `Inflate` gives no error: it doubles its buffer until `new` throws, and
  -- leaves the object with more than half of the memory.
  pub inflate_data-bad_alloc :
      (P : Z.ZStream → Type 0) (z : Z.ZStream) (r : TelemetryRecord D)
      → IsTruncated Z P
      → P z
      → Z.init (take r.data_length r.buffer) ≡ some z
      → IsSound memory r
      → ((inflate_data Z memory junk r).0 ≡ throw bad_alloc)
        × (memory < (inflate_data Z memory junk r).1.inflate_size * 2)
  unfolding inflate_data
  inflate_data-bad_alloc P z r t p e s =
      let (thrown, big) = inflate_loop_start Z memory junk small rule z r p s in
      ground (arith, e, thrown, big)
    where
      rule :
          IsLoopRule {D = D} Z memory junk small P
            (λ o. (o.0 ≡ throw bad_alloc) × (memory < o.1.inflate_size * 2))
      rule = record {
        goes_on = λ z n p e. t.stays z n p;
        exhausted = λ r s big. (refl, big);
        ended = λ z n r p e s. absurd (e (t.answer z n p));
      }
