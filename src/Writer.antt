-- ===== src/Writer.antt =====
-- common/RecordWriter.h and .cpp: where the converted records go. At this commit `Write` and
-- `Finalize` have empty bodies.
use mozilla_telemetry.Prelude.{ℕ, List, [], ◌∷◌, ◌++◌, Bytes}
use mozilla_telemetry.Prelude.Int.{ℤ}

-- `RecordWriter`, over the paths of boost
pub record RecordWriter (P : Type 0) : Type 0 where
  pub work_folder : P
  pub upload_folder : P
  pub max_uncompressed_size : ℤ
  pub memory_constraint : ℤ
  pub compression_preset : ℤ

module _ {P : Type 0} where
  -- The constructor
  unfoldable pub new_writer : P → P → ℤ → ℤ → ℤ → RecordWriter P
  new_writer work upload size memory preset = record {
    work_folder = work;
    upload_folder = upload;
    max_uncompressed_size = size;
    memory_constraint = memory;
    compression_preset = preset;
  }

  -- `Write`, of a path, a text and its length
  unfoldable pub write : RecordWriter P → P → Bytes → ℕ → RecordWriter P
  write w path text size = w

  -- `Finalize`
  unfoldable pub finalize : RecordWriter P → RecordWriter P
  finalize w = w

-- What the program needs of a writer: its state, and the call that takes a record.
pub record Sink (P : Type 0) : Type 1 where
  pub State : Type 0
  pub put : State → P → Bytes → ℕ → State

-- The writer of the program
abbrev pub record_writer : (P : Type 0) → Sink P
unfolding write
record_writer P = record { State = RecordWriter P; put = write }

-- A writer that keeps the records it was given, in order.
abbrev pub collector : (P : Type 0) → Sink P
collector P = record {
  State = List (P × Bytes);
  put = λ given path text size. given ++ ((path, text) ∷ []);
}
