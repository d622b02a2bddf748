-- ===== src/Convert/Main/Steps.antt =====
-- convert.cpp: the daemon as a system of steps. Within a round of the loop of `main` and between two rounds
-- a signal may come, and between two rounds other processes may change the files.
pub mod Logged
pub mod Due
pub mod Stopped
use mozilla_telemetry.Prelude.{
  ℕ, zero, suc, ◌≡◌, refl, ap, ◌∙◌, Bool, true, false, Bool-cases, inl, inr, Bytes, if◌then◌else◌,
}
use mozilla_telemetry.Prelude.Int.{ℤ, pos}
use mozilla_telemetry.Outcome.{Outcome, ok, throw, fault}
use mozilla_telemetry.Exec.{continue}
use mozilla_telemetry.Json.{Rapidjson, Value}
use mozilla_telemetry.Record.Inflate.{Zlib}
use mozilla_telemetry.Converter.Document.{FindHistogram}
use mozilla_telemetry.Schema.{Boost}
use mozilla_telemetry.Cache.{HistogramCache}
use mozilla_telemetry.Writer.{Sink}
use mozilla_telemetry.Wire.{WireFormat}
use mozilla_telemetry.Wire.Framing.{Encoder}
use mozilla_telemetry.Convert.Main.{Host, Main, main_round, main_loop}
use mozilla_telemetry.Convert.Main.Signals.{Signalled, shutdown, signalled}

module _ (J : Rapidjson) (Z : Zlib) (memory junk : ℕ) (B : Boost J.Double) {N : Type 0}
    (find_histogram : FindHistogram (HistogramCache × N)) (write_json : Value J.Double → Bytes)
    (K : Sink B.FsPath) (F : WireFormat) (E : Encoder) {W : Type 0} (host : Host W)
    (input log_file : Bytes) where
  abbrev pub The : Type 0
  The = Main J Z memory junk B find_histogram write_json K F E (signalled host)

  abbrev pub round : The → Outcome Bool × The
  round =
      main_round J Z memory junk B find_histogram write_json K F E (signalled host) input log_file

  -- One step: a round, where `gStop` is not set; a signal; or a change by another process
  pub data Step : The → The → Type 0 where
    turn : (d : The) → (signalled host).is_stopped d.world ≡ false → Step d (round d).1
    interrupt : (d : The) (signal : ℤ) → Step d (record d { world = shutdown signal d.world })
    change : (d : The) (w : W) → Step d (record d { world = record d.world { rest = w } })

  -- Any number of steps
  pub data Reaches : The → The → Type 0 where
    here : {d : The} → Reaches d d
    step : {d d' d'' : The} → Step d d' → Reaches d' d'' → Reaches d d''

  abbrev loop : ℕ → The → Outcome Bool × The
  loop = main_loop J Z memory junk B find_histogram write_json K F E (signalled host) input log_file

  loop_cases :
      (n : ℕ) (d : The) (o : Outcome Bool)
      → (signalled host).is_stopped d.world ≡ false
      → (round d).0 ≡ o
      → Reaches (round d).1 (loop n (round d).1).1
      → Reaches d (loop (suc n) d).1
  unfolding main_loop
  loop_cases n d (ok true) going e ih = rw (going, e, main_loop) (step (turn d going) ih)
  loop_cases n d (ok false) going e ih = rw (going, e, main_loop) (step (turn d going) here)
  loop_cases n d (throw what) going e ih = rw (going, e, main_loop) (step (turn d going) here)
  loop_cases n d (fault kind) going e ih = rw (going, e, main_loop) (step (turn d going) here)

  -- What the loop of `main` does in any number of rounds is a run of steps.
  pub main_loop-Reaches : (n : ℕ) (d : The) → Reaches d (loop n d).1
  unfolding main_loop
  main_loop-Reaches zero d = here
  main_loop-Reaches (suc n) d = elim (Bool-cases ((signalled host).is_stopped d.world)) [
    | inl stopped ↦ rw (stopped, main_loop) here
    | inr going ↦ loop_cases n d (round d).0 going refl (main_loop-Reaches n (round d).1)
  ]
