-- ===== src/Convert/Main/Stuck.antt =====
-- convert.cpp: the loop of `main` where the first file cannot be moved.
use mozilla_telemetry.Prelude.{ℕ, zero, suc, ◌≡◌, refl, true, false, some, arith, List, Bytes}
use mozilla_telemetry.Outcome.{ok, throw}
use mozilla_telemetry.Json.{Rapidjson, Value}
use mozilla_telemetry.Record.Inflate.{Zlib}
use mozilla_telemetry.Converter.Document.{FindHistogram}
use mozilla_telemetry.Schema.{Boost}
use mozilla_telemetry.Cache.{HistogramCache}
use mozilla_telemetry.Writer.{Sink}
use mozilla_telemetry.Wire.{WireFormat}
use mozilla_telemetry.Wire.Framing.{Encoder}
use mozilla_telemetry.Convert.Main.{Host, Main, first_regular, handle_file, main_round, main_loop}

module _ (J : Rapidjson) (Z : Zlib) (memory junk : ℕ) (B : Boost J.Double) {N : Type 0}
    (find_histogram : FindHistogram (HistogramCache × N)) (write_json : Value J.Double → Bytes)
    (K : Sink B.FsPath) (F : WireFormat) (E : Encoder) {W : Type 0} (host : Host W) where
  -- The first file of the directory cannot be moved, as to a temporary directory of another file
  -- system, and no signal has come.
  pub record IsStuck (input : Bytes) (w : W) : Type 0 where
    pub entries : List Bytes
    pub fn : Bytes
    pub tfn : Bytes
    pub what : Bytes
    pub going : host.is_stopped w ≡ false
    pub listed : host.list_directory w input ≡ ok entries
    pub first : first_regular (host.is_regular_file w) entries ≡ some fn
    pub target : host.temp_path (host.filename fn) w ≡ (ok tfn, w)
    pub refused : host.rename fn tfn w ≡ (throw what, w)

  abbrev The : Type 0
  The = Main J Z memory junk B find_histogram write_json K F E host

  handle_file_refused :
      (input log_file : Bytes) (d : The) (s : IsStuck input d.world)
      → handle_file J Z memory junk B find_histogram write_json K F E host log_file s.fn d
        ≡ (throw s.what, d)
  unfolding handle_file
  handle_file_refused input log_file d s = ground (arith, s.target, s.refused)

  main_round_stuck :
      (input log_file : Bytes) (d : The)
      → IsStuck input d.world
      → main_round J Z memory junk B find_histogram write_json K F E host input log_file d
        ≡ (ok true, d)
  unfolding main_round
  main_round_stuck input log_file d s =
      ground (arith, s.listed, s.first, handle_file_refused input log_file d s)

  -- Where the first file of the directory cannot be moved, the loop goes on for ever and does nothing:
  -- after any number of rounds it is where it was, with the other files as they were and without
  -- waiting for an event.
  pub main_loop_stuck :
      (input log_file : Bytes) (d : The) (rounds : ℕ)
      → IsStuck input d.world
      → main_loop J Z memory junk B find_histogram write_json K F E host input log_file rounds d
        ≡ (ok true, d)
  unfolding main_loop
  main_loop_stuck input log_file d zero s = refl
  main_loop_stuck input log_file d (suc n) s =
      ground
        (arith, s.going, main_round_stuck input log_file d s, main_loop_stuck input log_file d n s)
