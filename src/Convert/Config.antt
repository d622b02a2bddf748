-- ===== src/Convert/Config.antt =====
-- convert.cpp: what `ReadConfig` accepts and leaves.
use mozilla_telemetry.Prelude.{◌≡◌, refl, true, some, Bytes, codes, c_str, ap, ◌∙◌, subst}
use mozilla_telemetry.Prelude.Int.{is_uint32, is_uint64, is_int32}
use mozilla_telemetry.Outcome.{ok}
use mozilla_telemetry.Json.{Value, object, Members, Parsed, parse_error, document, Rapidjson}
use mozilla_telemetry.Specification.{require_int}
use mozilla_telemetry.Schema.{read_chars}
use mozilla_telemetry.Convert.Members.{
  split, HasText, text_read, directory_read, HasNumber, number_cases, only_uint64, only_uint,
  only_int,
}
use mozilla_telemetry.Convert.{
  ConvertConfig, Directories, text, directory, number_by, require_uint, require_uint64,
  load_numbers, load_config, read_config,
}

module _ (J : Rapidjson) {W : Type 0} (F : Directories W) where
  open J use {Double, parse}
  open F use {is_there, create_directories, create_directories-is_there, create_directories_keeps}

  -- What the members of the document and the world say of a configuration.
  pub record IsConfigured (ms : Members Double) (c : ConvertConfig) (w : W) : Type 0 where
    pub input : HasText J F ms (codes "input_directory") c.input_directory
    pub schema : HasText J F ms (codes "telemetry_schema") c.telemetry_schema
    pub server : HasText J F ms (codes "histogram_server") c.histogram_server
    pub storage : HasText J F ms (codes "storage_path") c.storage_path
    pub log : HasText J F ms (codes "log_path") c.log_path
    pub upload : HasText J F ms (codes "upload_path") c.upload_path
    pub max : HasNumber J F is_uint64 ms (codes "max_uncompressed") c.max_uncompressed
    pub memory : HasNumber J F is_uint32 ms (codes "memory_constraint") c.memory_constraint
    pub preset : HasNumber J F is_int32 ms (codes "compression_preset") c.compression_preset
    pub input_there : is_there w c.input_directory ≡ true
    pub storage_there : is_there w c.storage_path ≡ true
    pub log_there : is_there w c.log_path ≡ true
    pub upload_there : is_there w c.upload_path ≡ true

  load_numbers-IsConfigured :
      (ms : Members Double) (w w' : W) (c c' : ConvertConfig)
      → load_numbers J F (object ms) c w ≡ (ok c', w')
      → HasText J F ms (codes "input_directory") c.input_directory
      → HasText J F ms (codes "telemetry_schema") c.telemetry_schema
      → HasText J F ms (codes "histogram_server") c.histogram_server
      → HasText J F ms (codes "storage_path") c.storage_path
      → HasText J F ms (codes "log_path") c.log_path
      → HasText J F ms (codes "upload_path") c.upload_path
      → is_there w c.input_directory ≡ true
      → is_there w c.storage_path ≡ true
      → is_there w c.log_path ≡ true
      → is_there w c.upload_path ≡ true
      → IsConfigured ms c' w'
  unfolding load_numbers
  load_numbers-IsConfigured ms w w' c c' h input schema server storage log upload i s l u =
      let (max, w₁, e₁, r₁) =
        split (number_by J F require_uint64 (object ms) (codes "max_uncompressed")) _ w w' c' h in
      let (memory, w₂, e₂, r₂) =
        split (number_by J F require_uint (object ms) (codes "memory_constraint")) _ w₁ w' c' r₁ in
      let (preset, w₃, e₃, r₃) =
        split (number_by J F require_int (object ms) (codes "compression_preset")) _ w₂ w' c' r₂ in
      let n₁ =
        number_cases J F is_uint64 require_uint64 (only_uint64 J F) ms (codes "max_uncompressed")
          max w w₁ e₁ in
      let n₂ =
        number_cases J F is_uint32 require_uint (only_uint J F) ms (codes "memory_constraint")
          memory w₁ w₂ e₂ in
      let n₃ =
        number_cases J F is_int32 require_int (only_int J F) ms (codes "compression_preset") preset
          w₂ w₃ e₃ in
      let same : w ≡ w' = n₁.0 ∙ n₂.0 ∙ n₃.0 ∙ cc r₃ in
      let built : record c {
        max_uncompressed = max;
        memory_constraint = memory;
        compression_preset = preset;
      }
          ≡ c' =
        cc r₃ in
      subst (λ c. IsConfigured ms c w') built
        (subst
          (IsConfigured ms (record c {
            max_uncompressed = max;
            memory_constraint = memory;
            compression_preset = preset;
          }))
          same
          (record {
            input = input;
            schema = schema;
            server = server;
            storage = storage;
            log = log;
            upload = upload;
            max = n₁.1;
            memory = n₂.1;
            preset = n₃.1;
            input_there = i;
            storage_there = s;
            log_there = l;
            upload_there = u;
          }))

  load_config-IsConfigured :
      (ms : Members Double) (w w' : W) (c c' : ConvertConfig)
      → load_config J F (object ms) c w ≡ (ok c', w')
      → IsConfigured ms c' w'
  unfolding load_config
  load_config-IsConfigured ms w w' c c' h =
      let (input, w₁, e₁, r₁) =
        split (directory J F (object ms) (codes "input_directory")) _ w w' c' h in
      let (schema, w₂, e₂, r₂) =
        split (text J F (object ms) (codes "telemetry_schema")) _ w₁ w' c' r₁ in
      let (server, w₃, e₃, r₃) =
        split (text J F (object ms) (codes "histogram_server")) _ w₂ w' c' r₂ in
      let (storage, w₄, e₄, r₄) =
        split (directory J F (object ms) (codes "storage_path")) _ w₃ w' c' r₃ in
      let (log, w₅, e₅, r₅) = split (directory J F (object ms) (codes "log_path")) _ w₄ w' c' r₄ in
      let (upload, w₆, e₆, r₆) =
        split (directory J F (object ms) (codes "upload_path")) _ w₅ w' c' r₅ in
      let d₁ = directory_read J F ms (codes "input_directory") input w w₁ e₁ in
      let t₂ = text_read J F ms (codes "telemetry_schema") schema w₁ w₂ e₂ in
      let t₃ = text_read J F ms (codes "histogram_server") server w₂ w₃ e₃ in
      let d₄ = directory_read J F ms (codes "storage_path") storage w₃ w₄ e₄ in
      let d₅ = directory_read J F ms (codes "log_path") log w₄ w₅ e₅ in
      let d₆ = directory_read J F ms (codes "upload_path") upload w₅ w₆ e₆ in
      let stays : is_there w₃ input ≡ true =
        subst (λ v. is_there v input ≡ true) (t₂.0 ∙ t₃.0) d₁.1 in
      let loaded : ConvertConfig = record c {
        input_directory = input;
        telemetry_schema = schema;
        histogram_server = server;
        storage_path = storage;
        log_path = log;
        upload_path = upload;
      } in
      load_numbers-IsConfigured ms w₆ w' loaded c' r₆ d₁.0 t₂.1 t₃.1 d₄.0 d₅.0 d₆.0
        (d₆.2 input (d₅.2 input (d₄.2 input stays))) (d₆.2 storage (d₅.2 storage d₄.1))
        (d₆.2 log d₅.1) d₆.1

  load_cases :
      (doc : Value Double) (w w' : W) (c c' : ConvertConfig)
      → load_config J F doc c w ≡ (ok c', w')
      → (ms : Members Double) × (doc ≡ object ms) × IsConfigured ms c' w'
  unfolding load_config directory text
  load_cases (object ms) w w' c c' h = (ms, refl, load_config-IsConfigured ms w w' c c' h)
  load_cases _ w w' c c' h = cc h

  parse_cases :
      (file content : Bytes) (w w' : W) (c c' : ConvertConfig) (p : Parsed Double)
      → F.open_file w file ≡ some content
      → parse (c_str (read_chars content)) ≡ p
      → read_config J F file c w ≡ (ok c', w')
      → (ms : Members Double) × (parse (c_str (read_chars content)) ≡ document (object ms))
        × IsConfigured ms c' w'
  unfolding read_config
  parse_cases file content w w' c c' (parse_error what) opens e h =
      cc ((rw (opens, e, read_config) at h))
  parse_cases file content w w' c c' (document doc) opens e h =
      let (ms, shape, configured) = load_cases doc w w' c c' (rw (opens, e, read_config) at h) in
      (ms, e ∙ ap document shape, configured)

  -- If `ReadConfig` returns, the file holds, but for white space, an object in which each of the six
  -- texts and three numbers is there with its type and range, the configuration holds these, and
  -- each of the four directories exists.
  pub read_config-IsConfigured :
      (file content : Bytes) (w w' : W) (c c' : ConvertConfig)
      → F.open_file w file ≡ some content
      → read_config J F file c w ≡ (ok c', w')
      → (ms : Members Double) × (parse (c_str (read_chars content)) ≡ document (object ms))
        × IsConfigured ms c' w'
  read_config-IsConfigured file content w w' c c' opens h =
      parse_cases file content w w' c c' (parse (c_str (read_chars content))) opens refl h
