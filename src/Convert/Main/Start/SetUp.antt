-- ===== src/Convert/Main/Start/SetUp.antt =====
-- convert.cpp: who is to blame for a fault while `main` sets up its objects.
use mozilla_telemetry.Prelude.{c_str, ℕ, ◌+◌, ◌^◌, ◌<◌, ◌≤◌, ◌≡◌, refl, false, Option, some, Bytes}
use mozilla_telemetry.Prelude.Int.{ℤ}
use mozilla_telemetry.Constants.{max_telemetry_data}
use mozilla_telemetry.Outcome.{Outcome, ok, throw, fault, Fault}
use mozilla_telemetry.Outcome.Ensures.{Ensures, Any, Never}
use mozilla_telemetry.Json.{Rapidjson, Value, document, is_object}
use mozilla_telemetry.Record.Bounds.{new_record-IsSound}
use mozilla_telemetry.Record.Inflate.{Zlib}
use mozilla_telemetry.Schema.{read_chars, TelemetrySchema, Boost, new_schema}
use mozilla_telemetry.Schema.Faults.{new_schema-Ensures}
use mozilla_telemetry.Cache.{HistogramCache, Network, new_cache}
use mozilla_telemetry.Cache.Client.{cached}
use mozilla_telemetry.Writer.{Sink}
use mozilla_telemetry.Wire.{WireFormat}
use mozilla_telemetry.Wire.Framing.{Encoder}
use mozilla_telemetry.Convert.{ConvertConfig, read_config}
use mozilla_telemetry.Convert.Faults.{read_config-Ensures}
use mozilla_telemetry.Convert.Process.{Run}
use mozilla_telemetry.Convert.Process.Keeping.{IsRunning}
use mozilla_telemetry.Convert.Process.Blame.{IsQuiet, SoundCache}
use mozilla_telemetry.Convert.Main.Faults.{IsQuietHost}
use mozilla_telemetry.Convert.Main.Start.{System, new_objects, set_up}

-- The system does its work or throws.
pub record IsQuietSystem {W : Type 0} (system : System W) : Type 0 where
  pub host : IsQuietHost system.host
  pub creates : (p : Bytes) (w : W) → Ensures Never Any (system.disk.create_directories p w).0

-- What is to blame for a fault while the objects are set up: the file of the configuration, or that of the
-- schema which the configuration names, holds a document that is no object.
pub data IsBadStart (J : Rapidjson) {W : Type 0} (system : System W) (file : Bytes)
    (blank : ConvertConfig) (w : W) : Type 0 where
  bad_config :
      {content : Bytes} {doc : Value J.Double}
      → system.disk.open_file w file ≡ some content
      → J.parse (c_str (read_chars content)) ≡ document doc
      → is_object doc ≡ false
      → IsBadStart J system file blank w
  bad_schema :
      {c : ConvertConfig} {w' : W} {content : Bytes} {doc : Value J.Double}
      → read_config J system.disk file blank w ≡ (ok c, w')
      → system.disk.open_file w' c.telemetry_schema ≡ some content
      → J.parse (c_str (read_chars content)) ≡ document doc
      → is_object doc ≡ false
      → IsBadStart J system file blank w

module _ (J : Rapidjson) (Z : Zlib) (memory junk : ℕ) (B : Boost J.Double)
    (lexical_cast : Bytes → Option ℤ) {N : Type 0} (network : Network N)
    (write_json : Value J.Double → Bytes) (K : Sink B.FsPath) (new_sink : ConvertConfig → K.State)
    (small : memory + 1 < 2 ^ 32) (roomy : max_telemetry_data ≤ memory) (quiet : IsQuiet network)
    (F : WireFormat) (E : Encoder) {W : Type 0} (system : System W)
    (calm : IsQuietSystem system) where
  open J use {Double, parse}
  open system use {host, disk}

  abbrev Objects : Type 0
  Objects = Run Double (HistogramCache × N) K.State

  abbrev Blame : Bytes → ConvertConfig → W → Fault → Type 0
  Blame file blank w kind = IsBadStart J system file blank w

  abbrev Sound : Objects → Type 0
  Sound r = IsRunning memory SoundCache r

  schema_cases :
      (G : Fault → Type 0) (net : N) (c : ConvertConfig) (w : W)
      (schema : Outcome (TelemetrySchema Double))
      → new_schema J c.telemetry_schema (disk.open_file w c.telemetry_schema) ≡ schema
      → Ensures G Any schema
      → Ensures G Sound (
          new_objects J Z memory junk B
            (cached J lexical_cast network)
            write_json
            K
            new_sink
            F
            E
            system
            net
            c
            w)
  unfolding new_objects new_cache
  schema_cases G net c w (ok schema) e h =
      rw (e, new_objects)
        (record {
          reader = new_record-IsSound memory junk roomy;
          cache = record { cache = tt; revisions = tt };
        })
  schema_cases G net c w (throw what) e h = rw (e, new_objects) tt
  schema_cases G net c w (fault kind) e h = rw (e, new_objects) h

  abbrev pub start : N → Bytes → ConvertConfig → W → Outcome (ConvertConfig × Objects) × W
  start = set_up J Z memory junk B (cached J lexical_cast network) write_json K new_sink F E system

  -- What is set up is sound.
  abbrev pub Started : Bytes → ConvertConfig → W → Outcome (ConvertConfig × Objects) × W → Type 0
  Started file blank w s = Ensures (Blame file blank w) (λ cr. Sound cr.1) s.0

  objects_cases :
      (net : N) (file : Bytes) (blank c : ConvertConfig) (w w' : W) (o : Outcome Objects)
      → read_config J disk file blank w ≡ (ok c, w')
      → new_objects J Z memory junk B
          (cached J lexical_cast network)
          write_json
          K
          new_sink
          F
          E
          system
          net
          c
          w'
        ≡ o
      → Ensures (Blame file blank w) Sound o
      → Started file blank w (start net file blank w)
  unfolding set_up
  objects_cases net file blank c w w' (ok r) e f h = rw (e, f, set_up) h
  objects_cases net file blank c w w' (throw what) e f h = rw (e, f, set_up) tt
  objects_cases net file blank c w w' (fault kind) e f h = rw (e, f, set_up) h

  config_cases :
      (net : N) (file : Bytes) (blank : ConvertConfig) (w w' : W) (o : Outcome ConvertConfig)
      → read_config J disk file blank w ≡ (o, w')
      → Ensures (Blame file blank w) Any o
      → Started file blank w (start net file blank w)
  unfolding set_up
  config_cases net file blank w w' (ok c) e h = objects_cases net file blank c w w' _ e refl (
      schema_cases (Blame file blank w) net c w' _ refl (
        new_schema-Ensures (Blame file blank w) J c.telemetry_schema
          (disk.open_file w' c.telemetry_schema) (λ text doc. bad_schema e)))
  config_cases net file blank w w' (throw what) e h = rw (e, set_up) tt
  config_cases net file blank w w' (fault kind) e h = rw (e, set_up) h

  -- What `main` sets up is sound, and a fault on the way is one to blame on a document.
  pub start-Started :
      (net : N) (file : Bytes) (blank : ConvertConfig) (w : W)
      → Started file blank w (start net file blank w)
  start-Started net file blank w =
      config_cases net file blank w (read_config J disk file blank w).1 _ refl (
        read_config-Ensures (Blame file blank w) J disk calm.creates file blank w
          (λ content doc. bad_config))
