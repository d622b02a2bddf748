-- ===== src/Record/Bounds.antt =====
-- The sizes of the buffers of a `TelemetryRecord`, and copies that stay within a buffer.
use mozilla_telemetry.Prelude.{
  ℕ, ◌+◌, ◌<◌, ◌≤◌, ◌≡◌, ◌++◌, arith, length, take, drop, length-append, length-replicate,
  length-take_of_le, length-drop, Bytes,
}
use mozilla_telemetry.Constants.{max_telemetry_path, max_telemetry_data}
use mozilla_telemetry.Outcome.{Outcome, ok, throw, fault}
use mozilla_telemetry.Record.{TelemetryRecord, new_record}
use mozilla_telemetry.Record.Header.{KeepsBuffers}
use mozilla_telemetry.Record.Inflate.{copy_to}

-- The call returns or throws, but makes no access outside an object and does not run out.
abbrev pub NoFault : {A : Type 0} → Outcome A → Type 0
NoFault (ok a) = Unit
NoFault (throw e) = Unit
NoFault (fault e) = ⊥

-- Each buffer has its size, and no array is larger than `memory` allows.
pub record IsSound {D : Type 0} (memory : ℕ) (r : TelemetryRecord D) : Type 0 where
  pub path_room : length r.path ≡ max_telemetry_path + 1
  pub data_room : length r.buffer ≡ max_telemetry_data + 1
  pub inflate_room : length r.inflated ≡ r.inflate_size
  pub filled : r.inflate_length ≤ r.inflate_size
  pub positive : 0 < r.inflate_size
  pub allocated : r.inflate_size ≤ memory

pub copy_to_total :
    (buf : Bytes) (i : ℕ) (bytes : Bytes)
    → i + length bytes ≤ length buf
    → (buf' : Bytes) × (copy_to buf i bytes ≡ ok buf') × (length buf' ≡ length buf)
unfolding copy_to
copy_to_total buf i bytes h = (
  take i buf ++ (bytes ++ drop (i + length bytes) buf),
  ground arith,
  omega (
    arith,
    length-append (take i buf) (bytes ++ drop (i + length bytes) buf),
    length-append bytes (drop (i + length bytes) buf),
    length-take_of_le i buf (omega arith),
    length-drop (i + length bytes) buf,
  ),
)

-- A new object is sound where its three arrays can be allocated.
pub new_record-IsSound :
    {D : Type 0} (memory junk : ℕ)
    → max_telemetry_data ≤ memory
    → IsSound memory (new_record {D = D} junk)
unfolding new_record
new_record-IsSound memory junk h = record {
  path_room = length-replicate (max_telemetry_path + 1) junk;
  data_room = length-replicate (max_telemetry_data + 1) junk;
  inflate_room = length-replicate max_telemetry_data junk;
  filled = omega arith;
  positive = omega arith;
  allocated = h;
}

pub KeepsBuffers-IsSound :
    {D : Type 0} (memory : ℕ) (r r' : TelemetryRecord D)
    → KeepsBuffers r r'
    → IsSound memory r
    → IsSound memory r'
KeepsBuffers-IsSound memory r r' k s = ground arith
