-- ===== src/Convert/Main/Steps/Due.antt =====
-- convert.cpp: a signal that is to come within some calls of the system, through a round.
use mozilla_telemetry.Prelude.{
  ℕ, zero, suc, ◌≡◌, refl, true, Bool, Bool-cases, ◌⊎◌, inl, inr, Option, none, some, List, [], ◌∷◌,
  not, ◌||◌, Bytes,
}
use mozilla_telemetry.Prelude.Int.{ℤ, pos, eqb_ℤ}
use mozilla_telemetry.Outcome.{Outcome, ok, throw, fault, Fault}
use mozilla_telemetry.Outcome.Ensures.{Ensures, Any}
use mozilla_telemetry.Exec.{Exec, ◌>>◌}
use mozilla_telemetry.Exec.Keeping.{Keeping, then-Keeping}
use mozilla_telemetry.Json.{Rapidjson, Value}
use mozilla_telemetry.Record.Inflate.{Zlib}
use mozilla_telemetry.Converter.Document.{FindHistogram}
use mozilla_telemetry.Schema.{Boost}
use mozilla_telemetry.Cache.{HistogramCache}
use mozilla_telemetry.Writer.{Sink}
use mozilla_telemetry.Wire.{WireFormat}
use mozilla_telemetry.Wire.Framing.{Encoder}
use mozilla_telemetry.Convert.Main.{
  Host, first_regular, on_world, roll_log, roll, swallow, announce, report_all, finish_file,
  handle_file, main_round,
}
use mozilla_telemetry.Convert.Main.Keeping.{FileParts, finish_file-Keeping}
use mozilla_telemetry.Convert.Main.Signals.{Signalled, shutdown, arrive, signalled}
use mozilla_telemetry.Convert.Main.Steps.{The}

-- A signal comes during one of the first k calls.
abbrev pub Within : ℕ → List (Option ℤ) → Type 0
Within zero calls = ⊥
Within (suc k) [] = ⊥
Within (suc k) (some signal ∷ later) = Unit
Within (suc k) (none ∷ later) = Within k later

-- `gStop` is set, or a signal comes during one of the next k calls.
abbrev pub IsDue : {W : Type 0} → ℕ → Signalled W → Type 0
IsDue k s = (not (eqb_ℤ s.g_stop (pos 0)) ≡ true) ⊎ Within k s.coming

arrive-IsDue :
    {W : Type 0} (k : ℕ) (calls : List (Option ℤ)) (s : Signalled W)
    → (not (eqb_ℤ s.g_stop (pos 0)) ≡ true) ⊎ Within (suc k) calls
    → IsDue k (arrive calls s)
unfolding arrive shutdown
arrive-IsDue k [] s (inl stopped) = inl stopped
arrive-IsDue k (none ∷ later) s (inl stopped) = inl stopped
arrive-IsDue k (some signal ∷ later) s due = inl refl
arrive-IsDue k (none ∷ later) s (inr soon) = inr soon
arrive-IsDue k [] s (inr soon) = absurd soon

-- What is due within k calls is due within more.
later-Within : (k : ℕ) (calls : List (Option ℤ)) → Within k calls → Within (suc k) calls
later-Within zero calls h = absurd h
later-Within (suc k) [] h = absurd h
later-Within (suc k) (some signal ∷ later) h = tt
later-Within (suc k) (none ∷ later) h = later-Within k later h

later-IsDue : {W : Type 0} (k : ℕ) (s : Signalled W) → IsDue k s → IsDue (suc k) s
later-IsDue k s (inl stopped) = inl stopped
later-IsDue k s (inr soon) = inr (later-Within k s.coming soon)

module _ (J : Rapidjson) (Z : Zlib) (memory junk : ℕ) (B : Boost J.Double) {N : Type 0}
    (find_histogram : FindHistogram (HistogramCache × N)) (write_json : Value J.Double → Bytes)
    (K : Sink B.FsPath) (F : WireFormat) (E : Encoder) {W : Type 0} (host : Host W)
    (input log_file : Bytes) where
  abbrev pub Daemon : Type 0
  Daemon = The J Z memory junk B find_histogram write_json K F E host input log_file

  abbrev pub round : Daemon → Outcome Bool × Daemon
  round =
      main_round J Z memory junk B find_histogram write_json K F E (signalled host) input log_file

  abbrev pub Due : ℕ → Daemon → Type 0
  Due k d = IsDue k d.world

  abbrev Some : Daemon → Fault → Type 0
  Some d kind = Unit

  any : {A : Type 0} (o : Outcome A) → Ensures (λ kind. Unit {0}) Any o
  any (ok a) = tt
  any (throw what) = tt
  any (fault kind) = tt

  -- After a call of the system the signal is a call nearer.
  nearer :
      (k : ℕ) (s : Signalled W) (w : W)
      → IsDue (suc k) s
      → IsDue k (arrive s.coming (record s { rest = w }))
  nearer k s w due = arrive-IsDue k s.coming (record s { rest = w }) due

  -- In particular it is no further away.
  no_further :
      (k : ℕ) (s : Signalled W) (w : W)
      → IsDue k s
      → IsDue k (arrive s.coming (record s { rest = w }))
  no_further k s w due = nearer k s w (later-IsDue k s due)

  rolled :
      (k : ℕ)
      → Keeping Some
          (Due k)
          (roll J Z memory junk B find_histogram write_json K F E (signalled host) log_file)
  unfolding roll_log
  rolled k d due = elim (Bool-cases (not d.log.is_good || not d.log.is_open)) [
    | inl closed ↦ rw (closed, roll, roll_log) (tt, no_further k d.world _ due)
    | inr fine ↦ rw (fine, roll, roll_log) (tt, due)
  ]

  announced :
      (k : ℕ) (tfn uuid : Bytes)
      → Keeping Some
          (Due k)
          (announce J Z memory junk B find_histogram write_json K F E (signalled host) tfn uuid)
  unfolding announce report_all
  announced k tfn uuid d due = (tt, due)

  due_file :
      (k : ℕ)
      → FileParts J Z memory junk B find_histogram write_json K F E
          (signalled host)
          Some
          (Due k)
          log_file
  due_file k = record {
    processes = λ tfn d due. (any _, due);
    removes = λ tfn d due. (any _, no_further k d.world (host.remove tfn d.world.rest).1 due);
    rolls = rolled k;
    draws = λ d due. (any _, no_further k d.world (host.random_uuid d.world.rest).1 due);
    announces = announced k;
  }

  abbrev handled : Bytes → Daemon → Outcome (Unit {0}) × Daemon
  handled = handle_file J Z memory junk B find_histogram write_json K F E (signalled host) log_file

  abbrev placed : Bytes → Daemon → Outcome Bytes × Daemon
  placed fn =
      on_world J Z memory junk B find_histogram write_json K F E (signalled host)
        ((signalled host).temp_path (host.filename fn))

  abbrev renamed : Bytes → Bytes → Exec Daemon (Unit {0})
  renamed fn tfn =
      on_world J Z memory junk B find_histogram write_json K F E (signalled host)
        ((signalled host).rename fn tfn)

  abbrev finished : Bytes → Exec Daemon (Unit {0})
  finished = finish_file J Z memory junk B find_histogram write_json K F E (signalled host) log_file

  moved_file :
      (k : ℕ) (fn tfn : Bytes) → Keeping Some (Due k) (λ d. (renamed fn tfn >> finished tfn) d)
  moved_file k fn tfn =
      then-Keeping Some (Due k) (renamed fn tfn) (finished tfn)
        (λ d due. (any _, no_further k d.world (host.rename fn tfn d.world.rest).1 due))
        (finish_file-Keeping J Z memory junk B find_histogram write_json K F E (signalled host) Some
          (Due k) log_file (due_file k) tfn)

  placed_cases :
      (k : ℕ) (fn : Bytes) (d : Daemon) (o : Outcome Bytes)
      → (host.temp_path (host.filename fn) d.world.rest).0 ≡ o
      → Due k (placed fn d).1
      → Due k (handled fn d).1
  unfolding handle_file
  placed_cases k fn d (ok tfn) e due =
      rw (e, handle_file) (moved_file k fn tfn (placed fn d).1 due).1
  placed_cases k fn d (throw what) e due = rw (e, handle_file) due
  placed_cases k fn d (fault kind) e due = rw (e, handle_file) due

  -- A round that goes on has called the system.
  abbrev pub Nears : ℕ → Outcome Bool × Daemon → Type 0
  Nears k o = o.0 ≡ ok true → Due k o.1

  swallowed :
      (k : ℕ) (o : Outcome (Unit {0}) × Daemon)
      → Due k o.1
      → let s = swallow J Z memory junk B find_histogram write_json K F E (signalled host) o in
        Due k s.1
  swallowed k (ok u, d) due = due
  swallowed k (throw what, d) due = due
  swallowed k (fault kind, d) due = due

  files_cases :
      (k : ℕ) (d : Daemon) (entries : List Bytes) (first : Option Bytes)
      → Due (suc k) d
      → host.list_directory d.world.rest input ≡ ok entries
      → first_regular (host.is_regular_file d.world.rest) entries ≡ first
      → Nears k (round d)
  unfolding main_round
  files_cases k d entries none due e f =
      rw (e, f, main_round) (λ on. nearer k d.world (host.wait d.world.rest).1 due)
  files_cases k d entries (some fn) due e f =
      rw (e, f, main_round)
        (λ on. swallowed k (handled fn d) (
          placed_cases k fn d _ refl
            (nearer k d.world (host.temp_path (host.filename fn) d.world.rest).1 due)))

  pub list_cases :
      (k : ℕ) (d : Daemon) (listed : Outcome (List Bytes))
      → Due (suc k) d
      → host.list_directory d.world.rest input ≡ listed
      → Nears k (round d)
  unfolding main_round
  list_cases k d (ok entries) due e = files_cases k d entries _ due e refl
  list_cases k d (throw what) due e = rw (e, main_round) (λ on. cc on)
  list_cases k d (fault kind) due e = rw (e, main_round) (λ on. cc on)
