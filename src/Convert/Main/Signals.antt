-- ===== src/Convert/Main/Signals.antt =====
-- convert.cpp: `gStop` and `shutdown`. The variable is part of what the loop of `main` reads of the
-- system, beside the rest of it. A signal may come within a round, too: during a call of the system that
-- changes its state. One that comes between two of these calls, as in `ProcessFile`, is taken for one that
-- comes during the next call, since nothing but the test of the loop reads the variable.
use mozilla_telemetry.Prelude.{not, Option, none, some, List, [], ◌∷◌}
use mozilla_telemetry.Prelude.Int.{ℤ, pos, eqb_ℤ}
use mozilla_telemetry.Exec.{Exec}
use mozilla_telemetry.Convert.Main.{Host}

-- The system with `gStop`, and the signals that come: for each of the next calls, the one during it
pub record Signalled (W : Type 0) : Type 0 where
  pub g_stop : ℤ
  pub coming : List (Option ℤ)
  pub rest : W

-- `shutdown`, the handler of four signals; it does not look which one came.
unfoldable pub shutdown : {W : Type 0} → ℤ → Signalled W → Signalled W
shutdown signal s = record s { g_stop = pos 1 }

-- What comes during a call
unfoldable pub arrive : {W : Type 0} → List (Option ℤ) → Signalled W → Signalled W
unfolding shutdown
arrive [] s = s
arrive (none ∷ later) s = record s { coming = later }
arrive (some signal ∷ later) s = shutdown signal (record s { coming = later })

-- A call of the rest of the system
abbrev pub on_rest : {W A : Type 0} → Exec W A → Exec (Signalled W) A
on_rest f s = let o = f s.rest in (o.0, arrive s.coming (record s { rest = o.1 }))

-- The system that the loop of `main` sees: `while (!gStop)` reads the variable.
abbrev pub signalled : {W : Type 0} → Host W → Host (Signalled W)
signalled host = record {
  list_directory = λ s p. host.list_directory s.rest p;
  is_regular_file = λ s p. host.is_regular_file s.rest p;
  temp_path = λ name. on_rest (host.temp_path name);
  filename = host.filename;
  rename = λ p q. on_rest (host.rename p q);
  remove = λ p. on_rest (host.remove p);
  open_file = λ s p. host.open_file s.rest p;
  open_log =
      λ p s. (let o = host.open_log p s.rest in (o.0, arrive s.coming (record s { rest = o.1 })));
  random_uuid = on_rest host.random_uuid;
  now = λ s. host.now s.rest;
  is_stopped = λ s. not (eqb_ℤ s.g_stop (pos 0));
  wait = λ s. (let o = host.wait s.rest in (o.0, arrive s.coming (record s { rest = o.1 })));
}
