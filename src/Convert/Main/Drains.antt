-- ===== src/Convert/Main/Drains.antt =====
-- convert.cpp: the loop of `main` takes the files of the input directory one by one.
use mozilla_telemetry.Prelude.{
  ℕ, zero, suc, ◌≡◌, refl, ◌∙◌, inl, inr, Bool, true, false, not, ◌||◌, Bool-cases, some, arith,
  List, [], ◌∷◌, Bytes, if◌then◌else◌,
}
use mozilla_telemetry.Outcome.{Outcome, ok, throw, fault, Fault}
use mozilla_telemetry.Outcome.Ensures.{Ensures, Any}
use mozilla_telemetry.Exec.{Exec}
use mozilla_telemetry.Exec.Keeping.{Keeping}
use mozilla_telemetry.Convert.Main.Keeping.{FileParts, finish_file-Keeping}
use mozilla_telemetry.Json.{Rapidjson, Value}
use mozilla_telemetry.Record.Inflate.{Zlib}
use mozilla_telemetry.Converter.Document.{FindHistogram}
use mozilla_telemetry.Schema.{Boost}
use mozilla_telemetry.Cache.{HistogramCache}
use mozilla_telemetry.Writer.{Sink}
use mozilla_telemetry.Wire.{WireFormat}
use mozilla_telemetry.Wire.Framing.{Encoder}
use mozilla_telemetry.Convert.Main.{
  Host, Main, first_regular, roll_log, roll, swallow, report_all, announce, finish_file,
  handle_file, main_round, main_loop,
}

-- How many of the entries are regular files
abbrev pub count_regular : (Bytes → Bool) → List Bytes → ℕ
count_regular is_regular [] = 0
count_regular is_regular (p ∷ ps) =
    let rest = count_regular is_regular ps in if is_regular p then suc rest else rest

first_regular-some :
    (is_regular : Bytes → Bool) (ps : List Bytes) (n : ℕ)
    → count_regular is_regular ps ≡ suc n
    → (p : Bytes) × (first_regular is_regular ps ≡ some p)
unfolding first_regular
first_regular-some is_regular [] n h = absurd (omega (arith, h))
first_regular-some is_regular (p ∷ ps) n h = elim (Bool-cases (is_regular p)) [
  | inl regular ↦ (p, ground (arith, regular))
  | inr other ↦
      let (q, found) = first_regular-some is_regular ps n (ground (arith, other, h)) in
      (q, ground (arith, other, found))
]

-- A directory that nobody else changes: a file of it can be moved to the temporary directory, and
-- then there is one less; the other calls leave its files.
pub record IsOrderly {W : Type 0} (host : Host W) (input : Bytes) : Type 0 where
  pub entries : W → List Bytes
  pub listed : (w : W) → host.list_directory w input ≡ ok (entries w)
  pub target : (name : Bytes) (w : W) → (tfn : Bytes) × (host.temp_path name w ≡ (ok tfn, w))
  pub moved :
      (fn tfn : Bytes) (w : W)
      → first_regular (host.is_regular_file w) (entries w) ≡ some fn
      → (w' : W) × (host.rename fn tfn w ≡ (ok tt, w'))
        × (suc (count_regular (host.is_regular_file w') (entries w'))
            ≡ count_regular (host.is_regular_file w) (entries w))
  pub removed :
      (p : Bytes) (w : W)
      → count_regular (host.is_regular_file (host.remove p w).1) (entries (host.remove p w).1)
        ≡ count_regular (host.is_regular_file w) (entries w)
  pub logged :
      (p : Bytes) (w : W)
      → count_regular (host.is_regular_file (host.open_log p w).1) (entries (host.open_log p w).1)
        ≡ count_regular (host.is_regular_file w) (entries w)
  pub drawn :
      (w : W)
      → count_regular (host.is_regular_file (host.random_uuid w).1) (entries (host.random_uuid w).1)
        ≡ count_regular (host.is_regular_file w) (entries w)

module _ (J : Rapidjson) (Z : Zlib) (memory junk : ℕ) (B : Boost J.Double) {N : Type 0}
    (find_histogram : FindHistogram (HistogramCache × N)) (write_json : Value J.Double → Bytes)
    (K : Sink B.FsPath) (F : WireFormat) (E : Encoder) {W : Type 0} (host : Host W)
    (input log_file : Bytes) (orderly : IsOrderly host input) where
  open orderly use {entries}

  abbrev The : Type 0
  The = Main J Z memory junk B find_histogram write_json K F E host

  -- The files that wait in the directory
  abbrev pub pending : W → ℕ
  pending w = count_regular (host.is_regular_file w) (entries w)

  -- A part of a round that leaves the files of the directory
  abbrev Steady : {A : Type 0} → Exec The A → Type 0
  Steady m = (d : The) → pending (m d).1.world ≡ pending d.world

  -- Any fault
  abbrev Some : The → Fault → Type 0
  Some d kind = Unit

  any : {A : Type 0} (o : Outcome A) → Ensures (λ kind. Unit {0}) Any o
  any (ok a) = tt
  any (throw what) = tt
  any (fault kind) = tt

  -- As many files wait as before.
  abbrev Waiting : ℕ → The → Type 0
  Waiting n d = pending d.world ≡ n

  steady : {A : Type 0} (n : ℕ) (m : Exec The A) → Steady m → Keeping Some (Waiting n) m
  steady n m h d kept = (any (m d).0, h d ∙ kept)

  roll-Steady : Steady (roll J Z memory junk B find_histogram write_json K F E host log_file)
  unfolding roll_log
  roll-Steady d = elim (Bool-cases (not d.log.is_good || not d.log.is_open)) [
    | inl closed ↦ rw (closed, roll, roll_log) (orderly.logged log_file d.world)
    | inr fine ↦ rw (fine, roll, roll_log) refl
  ]

  announce-Steady :
      (tfn uuid : Bytes)
      → Steady (announce J Z memory junk B find_histogram write_json K F E host tfn uuid)
  unfolding announce report_all
  announce-Steady tfn uuid d = refl

  steady_file :
      (n : ℕ)
      → FileParts J Z memory junk B find_histogram write_json K F E host Some (Waiting n) log_file
  steady_file n = record {
    processes = λ tfn d kept. (any _, kept);
    removes = λ tfn d kept. (any (host.remove tfn d.world).0, orderly.removed tfn d.world ∙ kept);
    rolls =
        steady n (roll J Z memory junk B find_histogram write_json K F E host log_file) roll-Steady;
    draws = λ d kept. (any (host.random_uuid d.world).0, orderly.drawn d.world ∙ kept);
    announces = λ tfn uuid.
        steady n (announce J Z memory junk B find_histogram write_json K F E host tfn uuid)
          (announce-Steady tfn uuid);
  }

  finish_file-Steady :
      (tfn : Bytes)
      → Steady (finish_file J Z memory junk B find_histogram write_json K F E host log_file tfn)
  finish_file-Steady tfn d =
      (finish_file-Keeping J Z memory junk B find_histogram write_json K F E host Some
        (Waiting (pending d.world)) log_file (steady_file (pending d.world)) tfn d refl).1

  -- A fault of the code, such as an object that is read but not there
  pub data Goes : Outcome Bool → Type 0 where
    goes : Goes (ok true)
    faulted : {kind : Fault} → Goes (fault kind)

  -- A round where files wait takes one of them.
  abbrev Takes : ℕ → Outcome Bool × The → Type 0
  Takes n o = Goes o.0 × (pending o.1.world ≡ n)

  round_of_swallow :
      (n : ℕ) (o : Outcome (Unit {0}) × The)
      → pending o.1.world ≡ n
      → let s = swallow J Z memory junk B find_histogram write_json K F E host o in
        Goes (elim s.0 [ ok _ ↦ ok true | throw what ↦ throw what | fault kind ↦ fault kind ])
        × (pending s.1.world ≡ n)
  round_of_swallow n (ok u, d) h = (goes, h)
  round_of_swallow n (throw what, d) h = (goes, h)
  round_of_swallow n (fault kind, d) h = (faulted, h)

  handle_file_takes :
      (fn : Bytes) (n : ℕ) (d : The)
      → first_regular (host.is_regular_file d.world) (entries d.world) ≡ some fn
      → pending d.world ≡ suc n
      → pending
          (handle_file J Z memory junk B find_histogram write_json K F E host log_file fn d).1.world
        ≡ n
  unfolding handle_file
  handle_file_takes fn n d first h =
      let (tfn, target) = orderly.target (host.filename fn) d.world in
      let (w', renamed, fewer) = orderly.moved fn tfn d.world first in
      rw (target, renamed, handle_file)
        (finish_file-Steady tfn (record d { world = w' }) ∙ omega (arith, fewer, h))

  main_round-Takes :
      (n : ℕ) (d : The)
      → pending d.world ≡ suc n
      → Takes n (main_round J Z memory junk B find_histogram write_json K F E host input log_file d)
  unfolding main_round
  main_round-Takes n d h =
      let (fn, first) = first_regular-some (host.is_regular_file d.world) (entries d.world) n h in
      rw (orderly.listed d.world, first, main_round)
        (round_of_swallow n
          (handle_file J Z memory junk B find_histogram write_json K F E host log_file fn d)
          (handle_file_takes fn n d first h))

  -- No regular file is left in the directory, and the loop would go on; or a fault has ended it.
  pub data Drained : Outcome Bool × The → Type 0 where
    drained : {d : The} → pending d.world ≡ 0 → Drained (ok true, d)
    broken : {kind : Fault} {d : The} → Drained (fault kind, d)

  loop_after :
      (n : ℕ) (d d' : The) (o : Outcome Bool)
      → main_round J Z memory junk B find_histogram write_json K F E host input log_file d ≡ (o, d')
      → host.is_stopped d.world ≡ false
      → Goes o
      → Drained
          (main_loop J Z memory junk B find_histogram write_json K F E host input log_file n d')
      → Drained (
          main_loop J Z memory junk B find_histogram write_json K F E host input log_file (suc n) d)
  unfolding main_loop
  loop_after n d d' (ok true) e going goes rest = rw (going, e, main_loop) rest
  loop_after n d d' (ok false) e going on rest = elim on [ ]
  loop_after n d d' (throw what) e going on rest = elim on [ ]
  loop_after n d d' (fault kind) e going faulted rest = rw (going, e, main_loop) broken

  -- With a directory of n regular files that nobody else changes and that can be listed and moved to the
  -- temporary directory, and without a signal, n rounds of the loop of `main` leave none of them there,
  -- whether their conversion succeeds, fails or throws, and the loop goes on, unless it ends by a fault
  -- of the code.
  pub main_loop-drains :
      (n : ℕ) (d : The)
      → ((w : W) → host.is_stopped w ≡ false)
      → pending d.world ≡ n
      → Drained
          (main_loop J Z memory junk B find_histogram write_json K F E host input log_file n d)
  unfolding main_loop
  main_loop-drains zero d going h = drained h
  main_loop-drains (suc n) d going h =
      let after =
        main_round J Z memory junk B find_histogram write_json K F E host input log_file d in
      let took = main_round-Takes n d h in
      loop_after n d after.1 after.0 refl (going d.world) took.0
        (main_loop-drains n after.1 going took.1)
