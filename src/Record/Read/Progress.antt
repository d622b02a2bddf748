-- ===== src/Record/Read/Progress.antt =====
-- `Read` goes forward: where it returns a record, the stream is good and shorter.
use mozilla_telemetry.Prelude.{
  ℕ, zero, suc, ◌+◌, ◌^◌, ◌<◌, ◌≡◌, refl, true, false, inl, inr, arith, length,
}
use mozilla_telemetry.Outcome.{Outcome, ok, throw, fault}
use mozilla_telemetry.Stream.{Stream, good}
use mozilla_telemetry.Json.{Rapidjson}
use mozilla_telemetry.Record.{TelemetryRecord}
use mozilla_telemetry.Record.Bounds.{IsSound}
use mozilla_telemetry.Record.Inflate.{Zlib}
use mozilla_telemetry.Record.Read.{Round, found, failed, again, read_round, read_record}
use mozilla_telemetry.Record.Read.Safety.{IsRound, read_round-IsRound}

module _ (J : Rapidjson) (Z : Zlib) (memory junk : ℕ) (small : memory + 1 < 2 ^ 32) where
  open J use {Double}

  abbrev pub IsAdvance : ℕ → TelemetryRecord Double → Stream → Type 0
  IsAdvance fuel r s =
      let o = read_record J Z memory junk fuel (r, s) in
      o.0 ≡ ok true → (good o.1.1 ≡ true) × (length o.1.1.rest < length s.rest)

  pub read_record_stopped :
      (fuel : ℕ) (r : TelemetryRecord Double) (s : Stream)
      → s.fail ≡ true
      → (read_record J Z memory junk fuel (r, s)).0 ≡ ok true
      → ⊥
  unfolding read_record
  read_record_stopped zero r s f h = cc h
  read_record_stopped (suc fuel) r s f h = cc ((rw f at h))

  IsAdvance-cases :
      (fuel : ℕ) (r : TelemetryRecord Double) (s : Stream) (o : Outcome Round)
      → s.fail ≡ false
      → (read_round J Z memory junk (r, s)).0 ≡ o
      → IsRound J Z memory junk small s (read_round J Z memory junk (r, s))
      → (IsSound memory (read_round J Z memory junk (r, s)).1.0
          → good (read_round J Z memory junk (r, s)).1.1 ≡ true
          → IsAdvance fuel
              (read_round J Z memory junk (r, s)).1.0
              (read_round J Z memory junk (r, s)).1.1)
      → IsAdvance (suc fuel) r s
  unfolding read_record
  IsAdvance-cases fuel r s (ok again) more e round ih =
      let run : read_record J Z memory junk (suc fuel) (r, s)
          ≡ read_record J Z memory junk fuel (read_round J Z memory junk (r, s)).1 =
        ground (arith, more, e) in
      let stopped =
        read_record_stopped fuel (read_round J Z memory junk (r, s)).1.0
          (read_round J Z memory junk (r, s)).1.1 in
      elim (round.progress e) [
        | inl fails ↦ rw run (λ h. absurd (stopped fails h))
        | inr onward ↦ rw run (λ h.
            let next = ih round.safe.sound onward.0 h in (next.0, omega (arith, next.1, onward.1)))
      ]
  IsAdvance-cases fuel r s (ok found) more e round ih = ground (arith, more, e, round.shorter e)
  IsAdvance-cases fuel r s (ok failed) more e round ih = ground (arith, more, e)
  IsAdvance-cases fuel r s (throw what) more e round ih = ground (arith, more, e)
  IsAdvance-cases fuel r s (fault kind) more e round ih = ground (arith, more, e)

  -- A call of `Read` on a good stream that returns true leaves a good stream with fewer bytes.
  pub read_record-IsAdvance :
      (fuel : ℕ) (r : TelemetryRecord Double) (s : Stream)
      → IsSound memory r
      → good s ≡ true
      → IsAdvance fuel r s
  read_record-IsAdvance zero r s w g = unfold read_record in λ h. cc h
  read_record-IsAdvance (suc fuel) r s w g =
      IsAdvance-cases fuel r s (read_round J Z memory junk (r, s)).0 (ground (arith, g)) refl
        (read_round-IsRound J Z memory junk small r s w g)
        (read_record-IsAdvance fuel (read_round J Z memory junk (r, s)).1.0
          (read_round J Z memory junk (r, s)).1.1)
