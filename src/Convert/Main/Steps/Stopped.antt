-- ===== src/Convert/Main/Steps/Stopped.antt =====
-- convert.cpp: a signal stops the loop of `main`, wherever it comes.
use mozilla_telemetry.Prelude.{
  ℕ, zero, suc, ◌<◌, ◌≤◌, ◌≡◌, ◌≢◌, refl, true, false, Bool, Bool-cases, inl, inr, Bytes, arith,
}
use mozilla_telemetry.Outcome.{Outcome, ok, throw, fault}
use mozilla_telemetry.Json.{Rapidjson, Value}
use mozilla_telemetry.Record.Inflate.{Zlib}
use mozilla_telemetry.Converter.Document.{FindHistogram}
use mozilla_telemetry.Schema.{Boost}
use mozilla_telemetry.Cache.{HistogramCache}
use mozilla_telemetry.Writer.{Sink}
use mozilla_telemetry.Wire.{WireFormat}
use mozilla_telemetry.Wire.Framing.{Encoder}
use mozilla_telemetry.Convert.Main.{Host, main_round, main_loop}
use mozilla_telemetry.Convert.Main.Signals.{signalled}
use mozilla_telemetry.Convert.Main.Reported.{IsReported}
use mozilla_telemetry.Convert.Main.Steps.{The, main_loop-Reaches}
use mozilla_telemetry.Convert.Main.Steps.Logged.{Reaches-IsReported}
use mozilla_telemetry.Convert.Main.Steps.Due.{Within, IsDue, list_cases}

module _ (J : Rapidjson) (Z : Zlib) (memory junk : ℕ) (B : Boost J.Double) {N : Type 0}
    (find_histogram : FindHistogram (HistogramCache × N)) (write_json : Value J.Double → Bytes)
    (K : Sink B.FsPath) (F : WireFormat) (E : Encoder) {W : Type 0} (host : Host W)
    (input log_file : Bytes) where
  abbrev Daemon : Type 0
  Daemon = The J Z memory junk B find_histogram write_json K F E host input log_file

  abbrev round : Daemon → Outcome Bool × Daemon
  round =
      main_round J Z memory junk B find_histogram write_json K F E (signalled host) input log_file

  abbrev loop : ℕ → Daemon → Outcome Bool × Daemon
  loop = main_loop J Z memory junk B find_histogram write_json K F E (signalled host) input log_file

  abbrev Due : ℕ → Daemon → Type 0
  Due k d = IsDue k d.world

  loop_cases :
      (n : ℕ) (d : Daemon) (o : Outcome Bool)
      → (signalled host).is_stopped d.world ≡ false
      → (round d).0 ≡ o
      → (o ≡ ok true → (loop n (round d).1).0 ≢ ok true)
      → (loop (suc n) d).0 ≢ ok true
  unfolding main_loop
  loop_cases n d (ok true) going e ih = rw (going, e, main_loop) (ih refl)
  loop_cases n d (ok false) going e ih = rw (going, e, main_loop) (λ h. cc h)
  loop_cases n d (throw what) going e ih = rw (going, e, main_loop) (λ h. cc h)
  loop_cases n d (fault kind) going e ih = rw (going, e, main_loop) (λ h. cc h)

  going_on :
      (k n : ℕ) (d : Daemon)
      → (signalled host).is_stopped d.world ≡ false
      → Due k d
      → k < suc n
      → ((j : ℕ) → j < n → Due j (round d).1 → (loop n (round d).1).0 ≢ ok true)
      → (loop (suc n) d).0 ≢ ok true
  going_on k n d going (inl stopped) few ih = λ h. cc (going, stopped)
  going_on zero n d going (inr soon) few ih = absurd soon
  going_on (suc k) n d going (inr soon) few ih = loop_cases n d (round d).0 going refl (λ on.
      ih k (omega (arith, few)) (
        list_cases J Z memory junk B find_histogram write_json K F E host input log_file k d _
          (inr soon) refl on))

  loop_ends : (n k : ℕ) (d : Daemon) → k < n → Due k d → (loop n d).0 ≢ ok true
  unfolding main_loop
  loop_ends zero k d few due = absurd (omega (arith, few))
  loop_ends (suc n) k d few due = elim (Bool-cases ((signalled host).is_stopped d.world)) [
    | inl stopped ↦ rw (stopped, main_loop) (λ h. cc h)
    | inr going ↦ going_on k n d going due few (λ j less due'. loop_ends n j (round d).1 less due')
  ]

  rest_cases :
      (n k : ℕ) (d : Daemon) (o : Outcome Bool)
      → (signalled host).is_stopped d.world ≡ false
      → (round d).0 ≡ o
      → (loop (suc n) d).0 ≢ ok true
      → ((loop n (round d).1).0 ≢ ok true → loop k (round d).1 ≡ loop n (round d).1)
      → loop (suc k) d ≡ loop (suc n) d
  unfolding main_loop
  rest_cases n k d (ok true) going e over ih =
      rw (going, e, main_loop) (ih (rw (going, e, main_loop) at over))
  rest_cases n k d (ok false) going e over ih = rw (going, e, main_loop) refl
  rest_cases n k d (throw what) going e over ih = rw (going, e, main_loop) refl
  rest_cases n k d (fault kind) going e over ih = rw (going, e, main_loop) refl

  -- Where the loop has ended, more rounds change nothing.
  loop_rests : (n k : ℕ) (d : Daemon) → n ≤ k → (loop n d).0 ≢ ok true → loop k d ≡ loop n d
  unfolding main_loop
  loop_rests zero k d few over = absurd (over refl)
  loop_rests (suc n) zero d few over = absurd (omega (arith, few))
  loop_rests (suc n) (suc k) d few over = elim (Bool-cases ((signalled host).is_stopped d.world)) [
    | inl stopped ↦ rw (stopped, main_loop) refl
    | inr going ↦
        rest_cases n k d (round d).0 going refl over
          (loop_rests n k (round d).1 (omega (arith, few)))
  ]

  -- A signal ends the daemon wherever it comes, in the middle of a round or while the program waits for
  -- files. Where one comes during one of the next k calls of the system, the loop of `main` does not go on
  -- after k + 1 rounds, and with any more rounds it does nothing more: it processes and writes nothing,
  -- whatever files there are and whatever the system does. The signal cuts no group of messages short: the
  -- log then holds what it held, with the frames of whole groups of four behind it.
  pub main_loop-shutdown :
      (n k : ℕ) (d : Daemon)
      → k < n
      → Within k d.world.coming
      → ((loop n d).0 ≢ ok true)
        × (loop n d ≡ loop (suc k) d)
        × IsReported J Z memory junk B find_histogram write_json K F E
            (signalled host)
            d.log.written
            (loop n d).1
  main_loop-shutdown n k d few soon = (
    loop_ends n k d few (inr soon),
    loop_rests (suc k) n d (omega (arith, few)) (loop_ends (suc k) k d (omega arith) (inr soon)),
    Reaches-IsReported J Z memory junk B find_histogram write_json K F E host input log_file d
        (loop n d).1
        (main_loop-Reaches J Z memory junk B find_histogram write_json K F E host input log_file n
          d),
  )
