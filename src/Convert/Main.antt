-- ===== src/Convert/Main.antt =====
-- convert.cpp: `RollLog` and the loop of `main` over the input directory. What the system does for it
-- (directories, files, the clock, random numbers, inotify and signals) is the parameter `Host`.
pub mod Stuck
pub mod Reports
pub mod Reported
pub mod Drains
pub mod Drained
pub mod Logs
pub mod Keeping
pub mod Signals
pub mod Steps
pub mod Faults
pub mod Start
use mozilla_telemetry.Prelude.{
  ℕ, zero, suc, Bool, true, false, not, ◌&&◌, ◌||◌, Option, none, some, List, [], ◌∷◌, ◌++◌, Bytes,
  codes, if◌then◌else◌,
}
use mozilla_telemetry.Prelude.Int.{ℤ}
use mozilla_telemetry.Outcome.{Outcome, ok, throw, fault}
use mozilla_telemetry.Exec.{Exec, pure, gets, modify, ◌>>=◌, ◌>>◌}
use mozilla_telemetry.Metric.{Message, new_message}
use mozilla_telemetry.Json.{Rapidjson, Value}
use mozilla_telemetry.Record.Inflate.{Zlib}
use mozilla_telemetry.Record.Report
use mozilla_telemetry.Converter.Document.{FindHistogram}
use mozilla_telemetry.Schema.{Boost}
use mozilla_telemetry.Schema.DimensionPath
use mozilla_telemetry.Cache.{HistogramCache}
use mozilla_telemetry.Cache
use mozilla_telemetry.Writer.{Sink}
use mozilla_telemetry.Wire.{WireFormat}
use mozilla_telemetry.Wire.Framing.{Encoder, Output, write_message}
use mozilla_telemetry.Convert.{ConvertConfig}
use mozilla_telemetry.Convert.Process.{File, Run, process_file}
use mozilla_telemetry.Convert.Process

-- The system. `rename` and `remove` throw where they fail; `open_log` opens a file to append to and
-- says whether that worked; `wait` blocks for an event and gives false where `read` fails.
pub record Host (W : Type 0) : Type 0 where
  pub list_directory : W → Bytes → Outcome (List Bytes)
  pub is_regular_file : W → Bytes → Bool
  pub temp_path : Bytes → Exec W Bytes
  pub filename : Bytes → Bytes
  pub rename : Bytes → Bytes → Exec W (Unit {0})
  pub remove : Bytes → Exec W (Unit {0})
  pub open_file : W → Bytes → File
  pub open_log : Bytes → W → Bool × W
  pub random_uuid : Exec W Bytes
  pub now : W → ℤ
  pub is_stopped : W → Bool
  pub wait : W → Bool × W

-- The scan for the first regular file
unfoldable pub first_regular : (Bytes → Bool) → List Bytes → Option Bytes
first_regular is_regular [] = none
first_regular is_regular (p ∷ ps) =
    let rest = first_regular is_regular ps in if is_regular p then some p else rest

-- `RollLog`: a log that is not open or has failed is closed and opened again.
unfoldable pub roll_log : {W : Type 0} → Host W → Bytes → Output → W → Output × W
roll_log host log_file os w =
    if not os.is_good || not os.is_open
    then (let opened = host.open_log log_file w in
        (record { is_open = opened.0; is_good = opened.0; written = os.written }, opened.1))
    else (os, w)

-- What `main` keeps: the objects of `ProcessFile`, the message, the log and the system
pub record Daemon (R W : Type 0) : Type 0 where
  pub run : R
  pub message : Message
  pub log : Output
  pub world : W

module _ (J : Rapidjson) (Z : Zlib) (memory junk : ℕ) (B : Boost J.Double) {N : Type 0}
    (find_histogram : FindHistogram (HistogramCache × N)) (write_json : Value J.Double → Bytes)
    (K : Sink B.FsPath) (F : WireFormat) (E : Encoder) {W : Type 0} (host : Host W) where
  open J use {Double}

  abbrev pub Running : Type 0
  Running = Run Double (HistogramCache × N) K.State

  abbrev pub Main : Type 0
  Main = Daemon Running W

  -- A method of the system, within the state of `main`
  abbrev pub on_world : {A : Type 0} → Exec W A → Exec Main A
  on_world f d = let o = f d.world in (o.0, record d { world = o.1 })

  abbrev pub on_run : {A : Type 0} → (W → Exec Running A) → Exec Main A
  on_run f d = let o = f d.world d.run in (o.0, record d { run = o.1 })

  abbrev pub on_message : (Message → Message) → Exec Main (Unit {0})
  on_message f d = (ok tt, record d { message = f d.message })

  -- `GetMetrics` of an object of `main`, and `WriteMessage`
  abbrev pub report : Bytes → (Running → Message → Running × Message) → Exec Main (Unit {0})
  report logger get d =
      let got = get d.run (record d.message { logger = some logger }) in
      (ok tt, record d { run = got.0; message = got.1; log = write_message F E d.log got.1 })

  -- The four messages about a file
  unfoldable pub report_all : Exec Main (Unit {0})
  report_all = do
    report (codes "cache") (λ r m.
        let g = Cache.get_metrics r.cache.0 m in (record r { cache = (g.0, r.cache.1) }, g.1))
    report (codes "record")
        (λ r m. let g = Report.get_metrics r.reader m in (record r { reader = g.0 }, g.1))
    report (codes "schema")
        (λ r m. let g = DimensionPath.get_metrics r.schema m in (record r { schema = g.0 }, g.1))
    report (codes "converter")
        (λ r m. let g = Process.get_metrics r.metrics m in (record r { metrics = g.0 }, g.1))

  abbrev pub roll : Bytes → Exec Main (Unit {0})
  roll log_file d =
      let o = roll_log host log_file d.log d.world in (ok tt, record d { log = o.0; world = o.1 })

  -- The message of the file, with the new uuid, and what is written about it
  unfoldable pub announce : Bytes → Bytes → Exec Main (Unit {0})
  unfolding report_all
  announce tfn uuid = do
    on_message (λ m. record m { uuid = some uuid })
    time ← gets (λ d. host.now d.world)
    on_message (λ m. record m { timestamp = some time; payload = some (host.filename tfn) })
    report_all

  -- What follows once the file was moved
  unfoldable pub finish_file : Bytes → Bytes → Exec Main (Unit {0})
  unfolding announce
  finish_file log_file tfn = do
    done ←
        on_run
          (λ w. process_file J Z memory junk B find_histogram write_json K (host.open_file w tfn))
    if done then on_world (host.remove tfn) else pure tt
    roll log_file
    uuid ← on_world host.random_uuid
    announce tfn uuid

  -- The `try` block on a file of the directory
  unfoldable pub handle_file : Bytes → Bytes → Exec Main (Unit {0})
  unfolding finish_file
  handle_file log_file fn = do
    tfn ← on_world (host.temp_path (host.filename fn))
    on_world (host.rename fn tfn)
    finish_file log_file tfn

  -- `catch (const exception& e)`, which only prints
  abbrev pub swallow : Outcome (Unit {0}) × Main → Outcome (Unit {0}) × Main
  swallow (ok _, d) = (ok tt, d)
  swallow (throw what, d) = (ok tt, d)
  swallow (fault kind, d) = (fault kind, d)

  -- One round of the loop: does it go on?
  unfoldable pub main_round : Bytes → Bytes → Exec Main Bool
  unfolding handle_file first_regular
  main_round input log_file d = elim (host.list_directory d.world input) [
    | throw what ↦ (throw what, d)
    | fault kind ↦ (fault kind, d)
    | ok entries ↦ elim (first_regular (host.is_regular_file d.world) entries) [
      | some fn ↦
          (let o = swallow (handle_file log_file fn d) in
            (elim o.0 [ ok _ ↦ ok true | throw what ↦ throw what | fault kind ↦ fault kind ], o.1))
      | none ↦ (let waited = host.wait d.world in (ok waited.0, record d { world = waited.1 }))
    ]
  ]

  -- The first rounds of the loop, `while (!gStop)`: does it still go on after them?
  unfoldable pub main_loop : Bytes → Bytes → ℕ → Exec Main Bool
  unfolding main_round
  main_loop input log_file zero = pure true
  main_loop input log_file (suc n) = do
    stop ← gets (λ d. host.is_stopped d.world)
    if stop then pure false else do
      on ← main_round input log_file
      if on then main_loop input log_file n else pure false

  -- The batch mode: every file of the command line, whatever `ProcessFile` returns for the others
  unfoldable pub run_batch : List File → Exec Running (Unit {0})
  run_batch [] = pure tt
  run_batch (f ∷ fs) = do
    done ← process_file J Z memory junk B find_histogram write_json K f
    run_batch fs
