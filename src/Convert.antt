-- ===== src/Convert.antt =====
-- convert.cpp: the program's configuration, `ReadConfig`. The directories are those of
-- boost::filesystem, a parameter with what its documentation says.
pub mod Members
pub mod Config
pub mod Faults
pub mod Process
pub mod Main
use mozilla_telemetry.Prelude.{
  ℕ, ◌≡◌, Bool, true, false, Option, none, some, Bytes, codes, c_str, ◌++◌, if◌then◌else◌,
}
use mozilla_telemetry.Prelude.Int.{ℤ, is_uint32, is_uint64}
use mozilla_telemetry.Outcome.{Outcome, ok, throw, fault}
use mozilla_telemetry.Exec.{Exec, pure, lift, ◌>>=◌, ◌>>◌}
use mozilla_telemetry.Json.{Value, int, Rapidjson, parse_error, document, at}
use mozilla_telemetry.Specification.{require_string, require_int}
use mozilla_telemetry.Schema.{read_chars}

-- `ConvertConfig`; a path is its text.
pub record ConvertConfig : Type 0 where
  pub input_directory : Bytes
  pub telemetry_schema : Bytes
  pub histogram_server : Bytes
  pub storage_path : Bytes
  pub log_path : Bytes
  pub upload_path : Bytes
  pub max_uncompressed : ℤ
  pub memory_constraint : ℤ
  pub compression_preset : ℤ

-- Files and directories. `create_directories` makes the path exist where it returns, and removes
-- nothing.
pub record Directories (W : Type 0) : Type 0 where
  pub open_file : W → Bytes → Option Bytes
  pub is_there : W → Bytes → Bool
  pub create_directories : Bytes → Exec W (Unit {0})
  pub create_directories-is_there :
      (w w' : W) (p : Bytes) → create_directories p w ≡ (ok tt, w') → is_there w' p ≡ true
  pub create_directories_keeps :
      (w w' : W) (p q : Bytes)
      → create_directories p w ≡ (ok tt, w')
      → is_there w q ≡ true
      → is_there w' q ≡ true

module _ {D : Type 0} where
  abbrev pub require_uint : Value D → Bytes → Outcome ℤ
  require_uint (int z) what = if is_uint32 z then ok z else throw what
  require_uint _ what = throw what

  abbrev pub require_uint64 : Value D → Bytes → Outcome ℤ
  require_uint64 (int z) what = if is_uint64 z then ok z else throw what
  require_uint64 _ what = throw what

module _ (J : Rapidjson) {W : Type 0} (F : Directories W) where
  open J use {Double, parse}
  open F use {open_file, is_there, create_directories}

  abbrev pub not_specified : Bytes → Bytes
  not_specified key = key ++ codes " not specified"

  -- A member that must be a string
  unfoldable pub text : Value Double → Bytes → Exec W Bytes
  text doc key = do
    v ← lift (at J doc key)
    s ← lift (require_string v (not_specified key))
    pure (c_str s)

  -- A member that must be a path, of a directory that is made if it is not there
  unfoldable pub directory : Value Double → Bytes → Exec W Bytes
  unfolding text
  directory doc key = do
    p ← text doc key
    λ w. if is_there w p then (ok tt, w) else create_directories p w
    pure p

  abbrev pub number_by : (Value Double → Bytes → Outcome ℤ) → Value Double → Bytes → Exec W ℤ
  number_by require doc key = do v ← lift (at J doc key); lift (require v (not_specified key))

  -- The members that are numbers
  unfoldable pub load_numbers : Value Double → ConvertConfig → Exec W ConvertConfig
  load_numbers doc c = do
    max ← number_by require_uint64 doc (codes "max_uncompressed")
    memory ← number_by require_uint doc (codes "memory_constraint")
    preset ← number_by require_int doc (codes "compression_preset")
    pure (record c {
      max_uncompressed = max;
      memory_constraint = memory;
      compression_preset = preset;
    })

  -- The members, in the order in which they are asked for
  unfoldable pub load_config : Value Double → ConvertConfig → Exec W ConvertConfig
  unfolding text directory load_numbers
  load_config doc c = do
    input ← directory doc (codes "input_directory")
    schema ← text doc (codes "telemetry_schema")
    server ← text doc (codes "histogram_server")
    storage ← directory doc (codes "storage_path")
    log ← directory doc (codes "log_path")
    upload ← directory doc (codes "upload_path")
    load_numbers doc (record c {
      input_directory = input;
      telemetry_schema = schema;
      histogram_server = server;
      storage_path = storage;
      log_path = log;
      upload_path = upload;
    })

  -- `ReadConfig`, of a configuration that `main` has made
  unfoldable pub read_config : Bytes → ConvertConfig → Exec W ConvertConfig
  unfolding load_config read_chars
  read_config file c w = elim (open_file w file) [
    | none ↦ (throw (codes "file open failed: " ++ file), w)
    | some content ↦ elim (parse (c_str (read_chars content))) [
      | parse_error e ↦ (throw (codes "json parse failed: " ++ e), w)
      | document doc ↦ load_config doc c w
    ]
  ]
