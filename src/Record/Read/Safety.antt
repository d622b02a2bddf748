-- ===== src/Record/Read/Safety.antt =====
-- `Read` ends on every stream, and no access leaves a buffer.
use mozilla_telemetry.Prelude.{
  ℕ, zero, suc, ◌+◌, ◌^◌, ◌<◌, ◌≤◌, ◌≡◌, refl, true, false, Bool-cases, ◌⊎◌, inl, inr, arith,
  length,
}
use mozilla_telemetry.Outcome.{Outcome, ok, throw, fault}
use mozilla_telemetry.Stream.{Stream, good}
use mozilla_telemetry.Json.{Rapidjson}
use mozilla_telemetry.Record.{TelemetryRecord, find_record}
use mozilla_telemetry.Record.Header.{
  find_record-KeepsBuffers, find_record-IsFound, find_record_fail,
}
use mozilla_telemetry.Record.Bounds.{NoFault, IsSound, KeepsBuffers-IsSound}
use mozilla_telemetry.Record.Inflate.{Zlib}
use mozilla_telemetry.Record.Read.{
  Session, Round, found, again, search, fetch, read_round, read_record,
}
use mozilla_telemetry.Record.Read.Parts.{IsSafeRun, fetch-IsFetched, process_record-IsSafe}

module _ (J : Rapidjson) (Z : Zlib) (memory junk : ℕ) (small : memory + 1 < 2 ^ 32) where
  open J use {Double}

  -- A stream that is good or has failed; `eofbit` alone never stands.
  abbrev pub IsSettled : Stream → Type 0
  IsSettled s = (good s ≡ true) ⊎ (s.fail ≡ true)

  -- After a round that goes on, the stream has failed or is shorter, and after one that found a
  -- record it is good and shorter.
  pub record IsRound (s : Stream) (o : Outcome Round × Session Double) : Type 0 where
    pub safe : IsSafeRun J Z memory junk small o
    pub progress :
        o.0 ≡ ok again
        → (o.1.1.fail ≡ true) ⊎ ((good o.1.1 ≡ true) × (length o.1.1.rest < length s.rest))
    pub shorter : o.0 ≡ ok found → (good o.1.1 ≡ true) × (length o.1.1.rest < length s.rest)

  pub read_round-IsRound :
      (r : TelemetryRecord Double) (s : Stream)
      → IsSound memory r
      → good s ≡ true
      → IsRound s (read_round J Z memory junk (r, s))
  unfolding read_round search
  read_round-IsRound r s w g =
      let f = find_record junk r s in
      let kept = KeepsBuffers-IsSound memory r f.0 (find_record-KeepsBuffers junk r s) w in
      elim (Bool-cases f.2) [
        | inr none_left ↦ ground (arith, none_left, kept, find_record_fail junk r s g none_left)
        | inl there ↦
            let found_lem = find_record-IsFound junk r s there in
            let fetched = fetch-IsFetched J Z memory junk small f.0 f.1 kept found_lem.bounded in
            let p =
              process_record-IsSafe J Z memory junk small (fetch (f.0, f.1)).1.0
                fetched.safe.sound in
            ground (
              arith, there, fetched.safe, fetched.is_good, fetched.shorter, fetched.terminated,
              found_lem.shorter, p,
            )
      ]

  abbrev IsEnough : ℕ → Stream → Type 0
  IsEnough fuel s = (length s.rest + 2 ≤ fuel) ⊎ ((s.fail ≡ true) × (1 ≤ fuel))

  finish_round :
      (fuel : ℕ) (r : TelemetryRecord Double) (s : Stream) (o : Outcome Round)
      → s.fail ≡ false
      → IsEnough (suc fuel) s
      → (read_round J Z memory junk (r, s)).0 ≡ o
      → IsRound s (read_round J Z memory junk (r, s))
      → (IsSound memory (read_round J Z memory junk (r, s)).1.0
          → IsSettled (read_round J Z memory junk (r, s)).1.1
          → IsEnough fuel (read_round J Z memory junk (r, s)).1.1
          → IsSafeRun J Z memory junk small
              (read_record J Z memory junk fuel (read_round J Z memory junk (r, s)).1))
      → IsSafeRun J Z memory junk small (read_record J Z memory junk (suc fuel) (r, s))
  unfolding read_record
  finish_round fuel r s (ok again) more h e round ih =
      let run : read_record J Z memory junk (suc fuel) (r, s)
          ≡ read_record J Z memory junk fuel (read_round J Z memory junk (r, s)).1 =
        ground (arith, more, e) in
      let step = round.progress e in
      rw run (ih round.safe.sound (ground (arith, step)) (ground (arith, step, h, more)))
  finish_round fuel r s (ok x) more h e round ih = ground (arith, more, e, round.safe.sound)
  finish_round fuel r s (throw x) more h e round ih = ground (arith, more, e, round.safe.sound)
  finish_round fuel r s (fault x) more h e round ih = absurd (rw e at round.safe.no_fault)

  read_record-IsSafeRun :
      (fuel : ℕ) (r : TelemetryRecord Double) (s : Stream)
      → IsSound memory r
      → IsSettled s
      → IsEnough fuel s
      → IsSafeRun J Z memory junk small (read_record J Z memory junk fuel (r, s))
  read_record-IsSafeRun zero r s w g h = absurd (ground (arith, h))
  read_record-IsSafeRun (suc fuel) r s w g h = elim (Bool-cases s.fail) [
    | inl stopped ↦ unfold read_record in ground (arith, stopped, w)
    | inr more ↦
        finish_round fuel r s _ more h refl (read_round-IsRound r s w (ground (arith, g, more))) (
          read_record-IsSafeRun fuel (read_round J Z memory junk (r, s)).1.0
            (read_round J Z memory junk (r, s)).1.1)
  ]

  -- `Read` on a stream that is good or has failed: as many rounds as bytes, and two, are enough
  -- for it to return or to throw, and no access leaves a buffer.
  pub read_record-safe :
      (fuel : ℕ) (r : TelemetryRecord Double) (s : Stream)
      → IsSound memory r
      → IsSettled s
      → length s.rest + 2 ≤ fuel
      → NoFault (read_record J Z memory junk fuel (r, s)).0
        × IsSound memory (read_record J Z memory junk fuel (r, s)).1.0
  read_record-safe fuel r s w g h =
      let run = read_record-IsSafeRun fuel r s w g (inl h) in (run.no_fault, run.sound)
