-- ===== src/Convert/Faults.antt =====
-- convert.cpp: the faults of `ReadConfig`. `F` is what may be said of a fault.
use mozilla_telemetry.Prelude.{
  ◌≡◌, refl, Bool, true, false, Option-cases, some, inl, inr, Bytes, c_str, codes, if◌then◌else◌,
}
use mozilla_telemetry.Prelude.Int.{ℤ, is_uint32, is_uint64}
use mozilla_telemetry.Outcome.{Outcome, ok, throw, Fault, failed_assertion}
use mozilla_telemetry.Outcome.Ensures.{Ensures, Any, Never, Ensures-weaken, Ensures-Any, if-Ensures}
use mozilla_telemetry.Exec.{Exec, pure, lift}
use mozilla_telemetry.Exec.Keeping.{Keeping, bind-Keeping, then-Keeping}
use mozilla_telemetry.Json.{Rapidjson, Value, int, Parsed, parse_error, document, is_object, at}
use mozilla_telemetry.Specification.{require_string, require_int}
use mozilla_telemetry.Specification.Faults.{
  require_string-Ensures, require_int-Ensures, document-Ensures,
}
use mozilla_telemetry.Schema.{read_chars}
use mozilla_telemetry.Convert.{
  ConvertConfig, Directories, require_uint, require_uint64, text, directory, number_by,
  not_specified, load_numbers, load_config, read_config,
}

module _ (F : Fault → Type 0) (J : Rapidjson) {W : Type 0} (disk : Directories W)
    (creates : (p : Bytes) (w : W) → Ensures Never Any (disk.create_directories p w).0) where
  open J use {Double, parse}

  -- A step that has no fault but those that `F` allows
  abbrev Fair : {A : Type 0} → Exec W A → Type 0
  Fair m = Keeping (λ w. F) Any m

  lift-Fair : {A : Type 0} (o : Outcome A) → Ensures F Any o → Fair (lift o)
  lift-Fair o h w u = (h, tt)

  require_uint-Ensures : (v : Value Double) (what : Bytes) → Ensures F Any (require_uint v what)
  require_uint-Ensures (int z) what =
      if-Ensures F Any (is_uint32 z) (ok z) (throw what) (λ h. tt) (λ h. tt)
  require_uint-Ensures v what = tt

  require_uint64-Ensures : (v : Value Double) (what : Bytes) → Ensures F Any (require_uint64 v what)
  require_uint64-Ensures (int z) what =
      if-Ensures F Any (is_uint64 z) (ok z) (throw what) (λ h. tt) (λ h. tt)
  require_uint64-Ensures v what = tt

  module _ (doc : Value Double) (blame : is_object doc ≡ false → F failed_assertion) where
    at-Fair : (key : Bytes) → Fair (lift (at J doc key))
    at-Fair key = lift-Fair (at J doc key) (
        Ensures-Any F (λ v. is_object doc ≡ true) (at J doc key)
          (document-Ensures F J doc key blame))

    text-Fair : (key : Bytes) → Fair (text J disk doc key)
    unfolding text
    text-Fair key =
        bind-Keeping (λ w. F) Any (lift (at J doc key)) _ (at-Fair key)
          λ v.
            bind-Keeping (λ w. F) Any (lift (require_string v (not_specified J disk key))) _
              (lift-Fair _ (require_string-Ensures F v _)) (λ s w u. (tt, tt))

    either-Fair :
        (b : Bool) (x y : Outcome (Unit {0}) × W)
        → Ensures F Any x.0
        → Ensures F Any y.0
        → Ensures F Any (if b then x else y).0
    either-Fair true x y h k = h
    either-Fair false x y h k = k

    create-Fair :
        (p : Bytes) (w : W)
        → Ensures F Any (if disk.is_there w p then (ok tt, w) else disk.create_directories p w).0
    create-Fair p w =
        either-Fair (disk.is_there w p) (ok tt, w) (disk.create_directories p w) tt
          (Ensures-weaken Never F Any Any (disk.create_directories p w).0 (λ kind h. absurd h)
            (λ a u. tt) (creates p w))

    directory-Fair : (key : Bytes) → Fair (directory J disk doc key)
    unfolding directory
    directory-Fair key =
        bind-Keeping (λ w. F) Any (text J disk doc key) _ (text-Fair key)
          λ p.
            then-Keeping (λ w. F) Any
              (λ w. if disk.is_there w p then (ok tt, w) else disk.create_directories p w) (pure p)
              (λ w u. (create-Fair p w, tt)) (λ w u. (tt, tt))

    number_by-Fair :
        (require : Value Double → Bytes → Outcome ℤ) (key : Bytes)
        → ((v : Value Double) (what : Bytes) → Ensures F Any (require v what))
        → Fair (number_by J disk require doc key)
    number_by-Fair require key h =
        bind-Keeping (λ w. F) Any (lift (at J doc key)) _ (at-Fair key)
          (λ v. lift-Fair (require v (not_specified J disk key)) (h v _))

    load_numbers-Fair : (c : ConvertConfig) → Fair (load_numbers J disk doc c)
    unfolding load_numbers
    load_numbers-Fair c =
        bind-Keeping (λ w. F) Any _ _
          (number_by-Fair require_uint64 (codes "max_uncompressed") require_uint64-Ensures)
          λ max.
            bind-Keeping (λ w. F) Any _ _
              (number_by-Fair require_uint (codes "memory_constraint") require_uint-Ensures)
              λ memory.
                bind-Keeping (λ w. F) Any _ _
                  (number_by-Fair require_int (codes "compression_preset") (require_int-Ensures F))
                  (λ preset w u. (tt, tt))

    load_config-Fair : (c : ConvertConfig) → Fair (load_config J disk doc c)
    unfolding load_config
    load_config-Fair c =
        bind-Keeping (λ w. F) Any (directory J disk doc _) _ (directory-Fair _)
          λ input.
            bind-Keeping (λ w. F) Any (text J disk doc _) _ (text-Fair _)
              λ schema.
                bind-Keeping (λ w. F) Any (text J disk doc _) _ (text-Fair _)
                  λ server.
                    bind-Keeping (λ w. F) Any (directory J disk doc _) _ (directory-Fair _)
                      λ storage.
                        bind-Keeping (λ w. F) Any (directory J disk doc _) _ (directory-Fair _)
                          λ log.
                            bind-Keeping (λ w. F) Any (directory J disk doc _) _ (directory-Fair _)
                              (λ upload. load_numbers-Fair (record c {
                                input_directory = input;
                                telemetry_schema = schema;
                                histogram_server = server;
                                storage_path = storage;
                                log_path = log;
                                upload_path = upload;
                              }))

  parse_cases :
      (file content : Bytes) (c : ConvertConfig) (w : W) (p : Parsed Double)
      → disk.open_file w file ≡ some content
      → parse (c_str (read_chars content)) ≡ p
      → ((doc : Value Double) → p ≡ document doc → is_object doc ≡ false → F failed_assertion)
      → Ensures F Any (read_config J disk file c w).0
  unfolding read_config
  parse_cases file content c w (parse_error e) opened h blame = rw (opened, h, read_config) tt
  parse_cases file content c w (document doc) opened h blame =
      rw (opened, h, read_config) (load_config-Fair doc (blame doc refl) c w tt).0

  -- A configuration is read without a fault, unless its text is a document that is no object.
  pub read_config-Ensures :
      (file : Bytes) (c : ConvertConfig) (w : W)
      → ((content : Bytes) (doc : Value Double)
          → disk.open_file w file ≡ some content
          → parse (c_str (read_chars content)) ≡ document doc
          → is_object doc ≡ false
          → F failed_assertion)
      → Ensures F Any (read_config J disk file c w).0
  unfolding read_config
  read_config-Ensures file c w blame = elim (Option-cases (disk.open_file w file)) [
    | inl missing ↦ rw (missing, read_config) tt
    | inr (content, opened) ↦
        parse_cases file content c w (parse (c_str (read_chars content))) opened refl
          (λ doc. blame content doc opened)
  ]
