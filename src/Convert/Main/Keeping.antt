-- ===== src/Convert/Main/Keeping.antt =====
-- convert.cpp: what the parts of a round of the loop of `main` keep, the round and the loop keep. `F` is what
-- may be said of a fault and the state that it leaves, and `I` an invariant.
use mozilla_telemetry.Prelude.{
  ℕ, zero, suc, ◌≡◌, refl, Bool, true, Option, none, some, List, Bytes, if◌then◌else◌,
}
use mozilla_telemetry.Outcome.{Outcome, ok, throw, fault, Fault}
use mozilla_telemetry.Outcome.Ensures.{Ensures, Any}
use mozilla_telemetry.Exec.{Exec, pure, ◌>>=◌, ◌>>◌}
use mozilla_telemetry.Exec.Keeping.{Keeping, bind-Keeping, then-Keeping, if-Keeping}
use mozilla_telemetry.Json.{Rapidjson, Value}
use mozilla_telemetry.Record.Inflate.{Zlib}
use mozilla_telemetry.Converter.Document.{FindHistogram}
use mozilla_telemetry.Schema.{Boost}
use mozilla_telemetry.Cache.{HistogramCache}
use mozilla_telemetry.Writer.{Sink}
use mozilla_telemetry.Wire.{WireFormat}
use mozilla_telemetry.Wire.Framing.{Encoder}
use mozilla_telemetry.Convert.Process.{process_file}
use mozilla_telemetry.Convert.Main.{
  Host, Main, first_regular, on_world, on_run, roll, swallow, announce, finish_file, handle_file,
  main_round, main_loop,
}

module _ (J : Rapidjson) (Z : Zlib) (memory junk : ℕ) (B : Boost J.Double) {N : Type 0}
    (find_histogram : FindHistogram (HistogramCache × N)) (write_json : Value J.Double → Bytes)
    (K : Sink B.FsPath) (W : WireFormat) (E : Encoder) {S : Type 0} (host : Host S) where
  abbrev The : Type 0
  The = Main J Z memory junk B find_histogram write_json K W E host

  abbrev world : {A : Type 0} → Exec S A → Exec The A
  world f d = on_world J Z memory junk B find_histogram write_json K W E host f d

  abbrev processed : Bytes → Exec The Bool
  processed tfn =
      on_run J Z memory junk B find_histogram write_json K W E host
        (λ w. process_file J Z memory junk B find_histogram write_json K (host.open_file w tfn))

  abbrev announced : Bytes → Bytes → Exec The (Unit {0})
  announced = announce J Z memory junk B find_histogram write_json K W E host

  module _ (F : The → Fault → Type 0) (I : The → Type 0) (log_file : Bytes) where
    abbrev rolled : Exec The (Unit {0})
    rolled = roll J Z memory junk B find_histogram write_json K W E host log_file

    -- What follows the move of a file
    pub record FileParts : Type 0 where
      pub processes : (tfn : Bytes) → Keeping F I (processed tfn)
      pub removes : (tfn : Bytes) → Keeping F I (world (host.remove tfn))
      pub rolls : Keeping F I rolled
      pub draws : Keeping F I (world host.random_uuid)
      pub announces : (tfn uuid : Bytes) → Keeping F I (announced tfn uuid)

    -- All the parts of a round
    pub record RoundParts (input : Bytes) : Type 0 where
      pub file : FileParts
      pub places : (name : Bytes) → Keeping F I (world (host.temp_path name))
      pub renames : (fn tfn : Bytes) → Keeping F I (world (host.rename fn tfn))
      pub lists : (d : The) → I d → Ensures (F d) Any (host.list_directory d.world input)
      pub waits : (d : The) → I d → I (record d { world = (host.wait d.world).1 })

    abbrev removed : Bool → Bytes → Exec The (Unit {0})
    removed done tfn = if done then world (host.remove tfn) else pure tt

    abbrev told : Bytes → Exec The (Unit {0})
    told tfn d = (world host.random_uuid >>= announced tfn) d

    abbrev logged : Bytes → Exec The (Unit {0})
    logged tfn d = (rolled >> told tfn) d

    pub finish_file-Keeping :
        (p : FileParts) (tfn : Bytes)
        → Keeping F I
            (finish_file J Z memory junk B find_histogram write_json K W E host log_file tfn)
    unfolding finish_file
    finish_file-Keeping p tfn =
        bind-Keeping F I (processed tfn) (λ done d. (removed done tfn >> logged tfn) d)
          (p.processes tfn)
          (λ done.
            then-Keeping F I (removed done tfn) (logged tfn)
              (if-Keeping F I done _ _ (p.removes tfn) (λ d kept. (tt, kept)))
              (then-Keeping F I rolled (told tfn) p.rolls (
                bind-Keeping F I (world host.random_uuid) (announced tfn) p.draws
                  (p.announces tfn))))

    module _ (input : Bytes) (p : RoundParts input) where
      abbrev finished : Bytes → Exec The (Unit {0})
      finished = finish_file J Z memory junk B find_histogram write_json K W E host log_file

      abbrev handled : Bytes → Exec The (Unit {0})
      handled = handle_file J Z memory junk B find_histogram write_json K W E host log_file

      handle_file-Keeping : (fn : Bytes) → Keeping F I (handled fn)
      unfolding handle_file
      handle_file-Keeping fn =
          bind-Keeping F I (world (host.temp_path (host.filename fn)))
            (λ tfn d. (world (host.rename fn tfn) >> finished tfn) d) (p.places (host.filename fn))
            (λ tfn.
              then-Keeping F I (world (host.rename fn tfn)) (finished tfn) (p.renames fn tfn)
                (finish_file-Keeping p.file tfn))

      swallow-Keeping :
          (o : Outcome (Unit {0}) × The)
          → Ensures (F o.1) Any o.0 × I o.1
          → let s = swallow J Z memory junk B find_histogram write_json K W E host o in
            Ensures
              (F s.1)
              (Any {A = Bool})
              (elim s.0 [ ok _ ↦ ok true | throw what ↦ throw what | fault kind ↦ fault kind ])
            × I s.1
      swallow-Keeping (ok u, d) h = (tt, h.1)
      swallow-Keeping (throw what, d) h = (tt, h.1)
      swallow-Keeping (fault kind, d) h = h

      abbrev round : Exec The Bool
      round = main_round J Z memory junk B find_histogram write_json K W E host input log_file

      files_cases :
          (d : The) (entries : List Bytes) (first : Option Bytes)
          → I d
          → host.list_directory d.world input ≡ ok entries
          → first_regular (host.is_regular_file d.world) entries ≡ first
          → Ensures (F (round d).1) Any (round d).0 × I (round d).1
      unfolding main_round
      files_cases d entries none kept e f = rw (e, f, main_round) (tt, p.waits d kept)
      files_cases d entries (some fn) kept e f =
          rw (e, f, main_round) (swallow-Keeping (handled fn d) (handle_file-Keeping fn d kept))

      list_cases :
          (d : The) (listed : Outcome (List Bytes))
          → I d
          → host.list_directory d.world input ≡ listed
          → Ensures (F d) Any listed
          → Ensures (F (round d).1) Any (round d).0 × I (round d).1
      unfolding main_round
      list_cases d (ok entries) kept e h = files_cases d entries _ kept e refl
      list_cases d (throw what) kept e h = rw (e, main_round) (tt, kept)
      list_cases d (fault kind) kept e h = rw (e, main_round) (h, kept)

      pub main_round-Keeping : Keeping F I round
      main_round-Keeping d kept = list_cases d _ kept refl (p.lists d kept)

      pub main_loop-Keeping :
          (n : ℕ)
          → Keeping F I
              (main_loop J Z memory junk B find_histogram write_json K W E host input log_file n)
      unfolding main_loop
      main_loop-Keeping zero d kept = (tt, kept)
      main_loop-Keeping (suc n) d kept =
          if-Keeping F I (host.is_stopped d.world) _ _ (λ d kept. (tt, kept))
            (bind-Keeping F I round _ main_round-Keeping
              (λ on. if-Keeping F I on _ _ (main_loop-Keeping n) (λ d kept. (tt, kept))))
            d kept
