-- ===== src/Convert/Main/Start/Blame.antt =====
-- convert.cpp: who is to blame for a fault of `main`.
use mozilla_telemetry.Prelude.{
  ℕ, ◌+◌, ◌^◌, ◌<◌, ◌≤◌, ◌≡◌, refl, Bool, true, false, Bool-cases, inl, inr, Option, none, some,
  List, [], ◌∷◌, map, All, Bytes, codes,
}
use mozilla_telemetry.Prelude.Int.{ℤ}
use mozilla_telemetry.Constants.{max_telemetry_data}
use mozilla_telemetry.Outcome.{Outcome, ok, throw, fault, Fault}
use mozilla_telemetry.Outcome.Ensures.{Ensures, Any, Never, Ensures-fault}
use mozilla_telemetry.Json.{Rapidjson, Value}
use mozilla_telemetry.Record.Inflate.{Zlib}
use mozilla_telemetry.Schema.{Boost}
use mozilla_telemetry.Cache.{HistogramCache, Network}
use mozilla_telemetry.Cache.Client.{cached}
use mozilla_telemetry.Writer.{Sink}
use mozilla_telemetry.Wire.{WireFormat}
use mozilla_telemetry.Wire.Framing.{Encoder}
use mozilla_telemetry.Convert.{ConvertConfig}
use mozilla_telemetry.Convert.Process.{File, Run}
use mozilla_telemetry.Convert.Process.Keeping.{IsRunning}
use mozilla_telemetry.Convert.Process.Blame.{IsBlamed, IsQuiet, SoundCache}
use mozilla_telemetry.Convert.Main.{run_batch}
use mozilla_telemetry.Convert.Main.Faults.{main_loop-Fair, run_batch-Fair}
use mozilla_telemetry.Convert.Main.Start.{
  System, Exit, running, success, failure, set_up, new_daemon, serve, run_modes, main_named, main,
}
use mozilla_telemetry.Convert.Main.Start.SetUp.{IsBadStart, IsQuietSystem, start-Started}

-- What is to blame for a fault of `main` with the name `file` of a configuration, from the state `w` of the
-- system, where the objects `left` are left: what was read while they were set up, or the record that
-- the reader is at, or the specification of its revision.
pub data IsCulprit (J : Rapidjson) {N S W : Type 0} (network : Network N) (system : System W)
    (file : Bytes) (blank : ConvertConfig) (w : W)
    (left : Option (Run J.Double (HistogramCache × N) S)) : Type 0 where
  at_start : IsBadStart J system file blank w → IsCulprit J network system file blank w left
  at_work :
      {r : Run J.Double (HistogramCache × N) S}
      → left ≡ some r
      → IsBlamed J network r.cache r.reader.document
      → IsCulprit J network system file blank w left

module _ (J : Rapidjson) (Z : Zlib) (memory junk : ℕ) (B : Boost J.Double)
    (lexical_cast : Bytes → Option ℤ) {N : Type 0} (network : Network N)
    (write_json : Value J.Double → Bytes) (K : Sink B.FsPath) (new_sink : ConvertConfig → K.State)
    (small : memory + 1 < 2 ^ 32) (roomy : max_telemetry_data ≤ memory) (quiet : IsQuiet network)
    (F : WireFormat) (E : Encoder) {W : Type 0} (system : System W)
    (calm : IsQuietSystem system) where
  open J use {Double, parse}
  open system use {host, disk}

  abbrev Objects : Type 0
  Objects = Run Double (HistogramCache × N) K.State

  abbrev The : Type 0
  The = Outcome Exit × (Option Objects × W)

  abbrev Sound : Objects → Type 0
  Sound r = IsRunning memory SoundCache r

  abbrev start : N → Bytes → ConvertConfig → W → Outcome (ConvertConfig × Objects) × W
  start = set_up J Z memory junk B (cached J lexical_cast network) write_json K new_sink F E system

  module _ (file : Bytes) (blank : ConvertConfig) (origin : W) where
    abbrev Culprit : Option Objects → Fault → Type 0
    Culprit left kind = IsCulprit J network system file blank origin left

    abbrev Fair : The → Type 0
    Fair e = Ensures (Culprit e.1.0) Any e.0

    abbrev served : ℕ → Bytes → ConvertConfig → Objects → W → The
    served =
        serve J Z memory junk B (cached J lexical_cast network) write_json K new_sink F E system

    abbrev RunBlame : Objects → Fault → Type 0
    RunBlame r kind = IsBlamed J network r.cache r.reader.document

    exit_cases :
        (left : Objects) (o : Outcome Bool)
        → Ensures (RunBlame left) Any o
        → Ensures (Culprit (some left)) (Any {A = Exit}) (elim o [
          | ok true ↦ ok running
          | ok false ↦ ok success
          | throw what ↦ ok failure
          | fault kind ↦ fault kind
        ])
    exit_cases left (ok true) h = tt
    exit_cases left (ok false) h = tt
    exit_cases left (throw what) h = tt
    exit_cases left (fault kind) h = at_work refl h

    serve-Fair :
        (rounds : ℕ) (hostname : Bytes) (c : ConvertConfig) (r : Objects) (w : W)
        → Sound r
        → Fair (served rounds hostname c r w)
    unfolding serve
    serve-Fair rounds hostname c r w sound = elim (Bool-cases (system.inotify_init w).0) [
      | inl works ↦
          rw (works, serve)
            (exit_cases _ _
              (main_loop-Fair J Z memory junk B lexical_cast network write_json K small quiet F E
                host calm.host c.input_directory (system.join c.log_path (codes "convert.log"))
                rounds
                (new_daemon J Z memory junk B (cached J lexical_cast network) write_json K new_sink
                  F E system hostname r (system.inotify_init w).1)
                sound).0)
      | inr broken ↦ rw (broken, serve) tt
    ]

    abbrev modes : ℕ → Bytes → List Bytes → ConvertConfig → Objects → W → The
    modes =
        run_modes J Z memory junk B (cached J lexical_cast network) write_json K new_sink F E system

    abbrev batch : List File → Objects → Outcome (Unit {0}) × Objects
    batch = run_batch J Z memory junk B (cached J lexical_cast network) write_json K F E host

    modes_cases :
        (rounds : ℕ) (hostname : Bytes) (names : List Bytes) (c : ConvertConfig) (r : Objects)
        (w : W) (o : Outcome (Unit {0}))
        → (batch (map (host.open_file w) names) r).0 ≡ o
        → Ensures (RunBlame (batch (map (host.open_file w) names) r).1) Any o
        → Sound (batch (map (host.open_file w) names) r).1
        → Fair (modes rounds hostname names c r w)
    unfolding run_modes
    modes_cases rounds hostname [] c r w (ok u) e h sound =
        rw (e, run_modes) (serve-Fair rounds hostname c (batch [] r).1 w sound)
    modes_cases rounds hostname (n ∷ ns) c r w (ok u) e h sound = rw (e, run_modes) tt
    modes_cases rounds hostname names c r w (throw what) e h sound = rw (e, run_modes) tt
    modes_cases rounds hostname names c r w (fault kind) e h sound =
        rw (e, run_modes) (at_work refl h)

    sizes_of :
        (names : List Bytes) (w : W)
        → All (λ (f : File). Ensures Never Any f.size) (map (host.open_file w) names)
    sizes_of [] w = tt
    sizes_of (n ∷ ns) w = (calm.host.sizes w n, sizes_of ns w)

    modes-Fair :
        (rounds : ℕ) (hostname : Bytes) (names : List Bytes) (c : ConvertConfig) (r : Objects)
        (w : W)
        → Sound r
        → Fair (modes rounds hostname names c r w)
    modes-Fair rounds hostname names c r w sound =
        let done =
          run_batch-Fair J Z memory junk B lexical_cast network write_json K small quiet F E host
            (map (host.open_file w) names) (sizes_of names w) r sound in
        modes_cases rounds hostname names c r w _ refl done.0 done.1

    abbrev named : Option Bytes → ℕ → N → List Bytes → The
    named name rounds net names =
        main_named J Z memory junk B (cached J lexical_cast network) write_json K new_sink F E
          system name rounds net blank file names origin

    started_cases :
        (rounds : ℕ) (net : N) (hostname : Bytes) (names : List Bytes)
        (o : Outcome (ConvertConfig × Objects))
        → (start net file blank origin).0 ≡ o
        → Ensures (λ kind. IsBadStart J system file blank origin) (λ cr. Sound cr.1) o
        → Fair (named (some hostname) rounds net names)
    unfolding main_named
    started_cases rounds net hostname names (ok cr) e h =
        rw (e, main_named)
          (modes-Fair rounds hostname names cr.0 cr.1 (start net file blank origin).1 h)
    started_cases rounds net hostname names (throw what) e h = rw (e, main_named) tt
    started_cases rounds net hostname names (fault kind) e h = rw (e, main_named) (at_start h)

    named-Fair :
        (name : Option Bytes) (rounds : ℕ) (net : N) (names : List Bytes)
        → Fair (named name rounds net names)
    unfolding main_named
    named-Fair none rounds net names = tt
    named-Fair (some hostname) rounds net names = started_cases rounds net hostname names _ refl (
        start-Started J Z memory junk B lexical_cast network write_json K new_sink small roomy quiet
          F E system calm net file blank origin)

  abbrev whole : ℕ → N → ConvertConfig → List Bytes → W → The
  whole rounds net blank args w =
      main J Z memory junk B (cached J lexical_cast network) write_json K new_sink F E system rounds
        net blank args w

  -- Whatever files are named, whatever they hold, the network answers and the system does, and for every
  -- number of rounds: where `main` with the converter on its cache makes an undefined access, fails an
  -- assertion of rapidjson or runs out of the rounds of a loop, one of four documents is to blame. The
  -- configuration or the schema that it names is no object; or the document of the record that the reader
  -- is at, as the parser made it, is no object or has a histogram with a name shorter than "STARTUP_"; or
  -- the specification of the revision of this document is no object: what the temporary file of the
  -- revision holds or, without one, the server answers to the request for it, from the cache and the
  -- network that `main` leaves. The largest array holds a longest
  -- record and is within 32 bits, and the network and the system themselves only return or throw.
  pub main-IsCulprit :
      (rounds : ℕ) (net : N) (blank : ConvertConfig) (file : Bytes) (names : List Bytes) (w : W)
      (kind : Fault)
      → (whole rounds net blank (file ∷ names) w).0 ≡ fault kind
      → IsCulprit J network system file blank w (whole rounds net blank (file ∷ names) w).1.0
  unfolding main
  main-IsCulprit rounds net blank file names w kind e =
      Ensures-fault (Culprit file blank w (whole rounds net blank (file ∷ names) w).1.0) Any _ kind
        (named-Fair file blank w system.host_name rounds net names) e
