-- ===== src/Tests/ConvertTest.antt =====
-- Runs of convert.cpp, with the configuration of convert.json.
use mozilla_telemetry.Prelude.{
  ◌≡◌, refl, subst, Bool, true, false, ◌||◌, some, List, [], ◌∷◌, arith, Bytes, codes, c_str,
  bytes_eq, bytes_eq_refl,
}
use mozilla_telemetry.Prelude.Int.{ℤ, pos}
use mozilla_telemetry.Outcome.{ok, throw}
use mozilla_telemetry.Exec.{Exec}
use mozilla_telemetry.Json.{Members, end, member, int, string, object, document, Rapidjson}
use mozilla_telemetry.Schema.{read_chars}
use mozilla_telemetry.Convert.{ConvertConfig, Directories, read_config}
use mozilla_telemetry.Convert.Config.{IsConfigured, read_config-IsConfigured}
use mozilla_telemetry.Tests.Instances.{sample_json}

-- The directories that there are.
abbrev there : List Bytes → Bytes → Bool
there [] p = false
there (q ∷ w) p = bytes_eq q p || there w p

pub there_first : (p : Bytes) (w : List Bytes) → there (p ∷ w) p ≡ true
there_first p w = ground (arith, bytes_eq_refl p)

pub there_later : (p q : Bytes) (w : List Bytes) → there w q ≡ true → there (p ∷ w) q ≡ true
there_later p q w h = ground arith

abbrev made_by : Bytes → Exec (List Bytes) (Unit {0})
made_by p w = (ok tt, p ∷ w)

pub made : (p : Bytes) (w w' : List Bytes) → made_by p w ≡ (ok tt, w') → p ∷ w ≡ w'
made p w w' h = cc h

abbrev pub disk : Directories (List Bytes)
disk = record {
  open_file = λ w name. some (codes "{ }");
  is_there = there;
  create_directories = made_by;
  create_directories-is_there =
      λ w w' p h. subst (λ v. there v p ≡ true) (made p w w' h) (there_first p w);
  create_directories_keeps =
      λ w w' p q h k. subst (λ v. there v q ≡ true) (made p w w' h) (there_later p q w k);
}

abbrev pub texts : Members ℤ → Members ℤ
texts rest = member (codes "input_directory") (string (codes "/in")) (
    member (codes "telemetry_schema") (string (codes "schema.json")) (
      member (codes "histogram_server") (string (codes "localhost:9898")) (
        member (codes "storage_path") (string (codes "/out")) (
          member (codes "log_path") (string (codes "/log"))
            (member (codes "upload_path") (string (codes "/up")) rest)))))

abbrev pub numbers : Members ℤ
numbers = member (codes "max_uncompressed") (int (pos 1000)) (
    member (codes "memory_constraint") (int (pos 200))
      (member (codes "compression_preset") (int (pos 3)) end))

-- A parser that reads every text as one document.
abbrev reads : Members ℤ → Rapidjson
reads ms = record sample_json { parse = λ s. document (object ms) }

abbrev pub blank : ConvertConfig
blank = record {
  input_directory = [];
  telemetry_schema = [];
  histogram_server = [];
  storage_path = [];
  log_path = [];
  upload_path = [];
  max_uncompressed = pos 0;
  memory_constraint = pos 0;
  compression_preset = pos 0;
}

abbrev pub filled : ConvertConfig
filled = record {
  input_directory = codes "/in";
  telemetry_schema = codes "schema.json";
  histogram_server = codes "localhost:9898";
  storage_path = codes "/out";
  log_path = codes "/log";
  upload_path = codes "/up";
  max_uncompressed = pos 1000;
  memory_constraint = pos 200;
  compression_preset = pos 3;
}

program : Unit {0}
unfolding read_config c_str read_chars
program = tt

abbrev pub after : List Bytes
after = codes "/up" ∷ codes "/log" ∷ codes "/out" ∷ codes "/in" ∷ []

fills :
    read_config (reads (texts numbers)) disk (codes "convert.json") blank (codes "/in" ∷ [])
    ≡ (ok filled, after)
unfolding program
fills = refl

-- The directories are made before a later member is found to be missing.
unfinished :
    read_config (reads (texts end)) disk (codes "convert.json") blank []
    ≡ (throw (codes "max_uncompressed not specified"), after)
unfolding program
unfinished = refl

read_config-IsConfigured_example :
    (ms : Members ℤ) × ((reads (texts numbers)).parse (c_str (read_chars (codes "{ }")))
      ≡ document (object ms))
    × IsConfigured (reads (texts numbers)) disk ms filled after
read_config-IsConfigured_example =
    read_config-IsConfigured (reads (texts numbers)) disk (codes "convert.json") (codes "{ }")
      (codes "/in" ∷ []) after blank filled refl fills
