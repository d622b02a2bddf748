-- ===== src/Wire/Encoding.antt =====
-- common/message.pb.cc: how a message and its fields are encoded, and the sizes that `ByteSize` gives.
-- Sizes are taken to fit an int.
pub mod Parts
pub mod Sizes
use mozilla_telemetry.Prelude.{
  ℕ, zero, suc, ◌+◌, ◌*◌, ◌<◌, ◌≤◌, ◌≡◌, refl, sym, ap, ◌∙◌, Bool, true, false, ◌||◌, Option, none,
  some, List, [], ◌∷◌, ◌++◌, arith, length, length-append, append_assoc, Bytes, if◌then◌else◌, ltb,
}
use mozilla_telemetry.Prelude.Int.{ℤ}
use mozilla_telemetry.Metric.{
  Number, Field, Message, ValueType, string_type, bytes_type, integer_type, double_type, bool_type,
}
use mozilla_telemetry.Wire.{WireFormat, has, write_if, add_if}

-- More functions of protobuf: `WriteTag`, `WriteVarint32` of a length, and numbers with and without
-- their tag.
pub record MessageFormat : Type 0 where
  pub base : WireFormat
  pub write_tag : ℕ → Bytes
  pub write_length : ℕ → Bytes
  pub write_int32 : ℕ → ℤ → Bytes
  pub write_int64 : ℕ → ℤ → Bytes
  pub write_int64_no_tag : ℤ → Bytes
  pub write_double_no_tag : Number → Bytes
  pub write_bool_no_tag : Bool → Bytes
  pub length_size : ℕ → ℕ
  pub int32_size : ℤ → ℕ
  pub int64_size : ℤ → ℕ
  pub int64_size_positive : (v : ℤ) → 1 ≤ int64_size v
  pub length-write_tag : (n : ℕ) → n < 16 → length (write_tag n) ≡ 1
  pub length-write_length : (n : ℕ) → length (write_length n) ≡ length_size n
  pub length-write_int32 : (n : ℕ) (v : ℤ) → n < 16 → length (write_int32 n v) ≡ 1 + int32_size v
  pub length-write_int64 : (n : ℕ) (v : ℤ) → n < 16 → length (write_int64 n v) ≡ 1 + int64_size v
  pub length-write_int64_no_tag : (v : ℤ) → length (write_int64_no_tag v) ≡ int64_size v
  pub length-write_double_no_tag : (d : Number) → length (write_double_no_tag d) ≡ 8
  pub length-write_bool_no_tag : (b : Bool) → length (write_bool_no_tag b) ≡ 1

-- The number of a value type
abbrev pub type_number : ValueType → ℕ
type_number string_type = 0
type_number bytes_type = 1
type_number integer_type = 2
type_number double_type = 3
type_number bool_type = 4

module _ {A : Type 0} where
  -- A loop that writes every value
  abbrev pub write_each : (A → Bytes) → List A → Bytes
  write_each write [] = []
  write_each write (x ∷ xs) = write x ++ write_each write xs

  -- A loop that adds the size of every value to a total
  abbrev pub add_each : (A → ℕ) → List A → ℕ → ℕ
  add_each size [] total = total
  add_each size (x ∷ xs) total = add_each size xs (total + size x)

module _ (M : MessageFormat) where
  open M use {base, write_tag, write_length, length_size}

  -- The size of a packed member, added to a total
  abbrev pub add_packed : ℕ → ℕ → ℕ
  add_packed data_size total =
      (if ltb 0 data_size then total + (1 + length_size data_size) else total) + data_size

  module _ {A : Type 0} where
    abbrev pub packed_head : ℕ → ℕ → List A → Bytes
    packed_head n data_size [] = []
    packed_head n data_size (x ∷ xs) = write_tag n ++ write_length data_size

    -- A packed member: where there is a value, a tag and the size of the values; then the values
    abbrev pub write_packed : ℕ → ℕ → (A → Bytes) → List A → Bytes
    write_packed n data_size write xs = packed_head n data_size xs ++ write_each write xs

  -- The sizes of the packed members
  abbrev pub integers_size : Field → ℕ
  integers_size f = add_each M.int64_size f.value_integer 0

  abbrev pub doubles_size : Field → ℕ
  doubles_size f = 8 * length f.value_double

  abbrev pub bools_size : Field → ℕ
  bools_size f = 1 * length f.value_bool

  -- `Field::SerializeWithCachedSizes`
  unfoldable pub serialize_field : Field → Bytes
  serialize_field f =
      write_if (base.write_string 1) f.name
      ++ (write_if (λ t. base.write_enum 2 (type_number t)) f.value_type
          ++ (write_if (base.write_string 3) f.representation
              ++ (write_each (base.write_string 4) f.value_string
                  ++ (write_each (base.write_bytes 5) f.value_bytes
                      ++ (write_packed 6 (integers_size f) M.write_int64_no_tag f.value_integer
                          ++ (write_packed 7 (doubles_size f) M.write_double_no_tag f.value_double
                              ++ (write_packed 8 (bools_size f) M.write_bool_no_tag f.value_bool
                                  ++ f.unknown_fields)))))))

  -- The part of `Field::ByteSize` under the test of the bits that tell which members are set
  abbrev pub field_set_size : Field → ℕ
  field_set_size f =
      add_if base.string_size f.representation (
        add_if (λ t. base.enum_size (type_number t)) f.value_type
          (add_if base.string_size f.name 0))

  abbrev pub field_any_set : Field → Bool
  field_any_set f = has f.name || has f.value_type || has f.representation

  -- The repeated members, added to the size of the others
  abbrev pub add_repeated : Field → ℕ → ℕ
  add_repeated f set =
      let strings = add_each base.string_size f.value_string (set + 1 * length f.value_string) in
      let bytes = add_each base.bytes_size f.value_bytes (strings + 1 * length f.value_bytes) in
      add_packed (bools_size f) (add_packed (doubles_size f) (add_packed (integers_size f) bytes))

  -- `Field::ByteSize`
  unfoldable pub field_size : Field → ℕ
  field_size f =
      add_repeated f (if field_any_set f then field_set_size f else 0) + length f.unknown_fields

  -- `WriteMessageMaybeToArray` of a field: its size comes before it.
  abbrev pub write_field : Field → Bytes
  write_field f = write_tag 10 ++ (write_length (field_size f) ++ serialize_field f)

  -- `MessageSizeNoVirtual`
  abbrev pub delimited_size : Field → ℕ
  delimited_size f = length_size (field_size f) + field_size f

  -- `Message::SerializeWithCachedSizes`
  unfoldable pub serialize_message : Message → Bytes
  serialize_message m =
      write_if (base.write_bytes 1) m.uuid
      ++ (write_if (M.write_int64 2) m.timestamp
          ++ (write_if (base.write_string 3) m.type
              ++ (write_if (base.write_string 4) m.logger
                  ++ (write_if (M.write_int32 5) m.severity
                      ++ (write_if (base.write_string 6) m.payload
                          ++ (write_if (base.write_string 7) m.env_version
                              ++ (write_if (M.write_int32 8) m.pid
                                  ++ (write_if (base.write_string 9) m.hostname
                                      ++ (write_each write_field m.fields
                                          ++ m.unknown_fields)))))))))

  -- The members of the first eight bits
  abbrev pub message_set_size : Message → ℕ
  message_set_size m = add_if M.int32_size m.pid (
      add_if base.string_size m.env_version (
        add_if base.string_size m.payload (
          add_if M.int32_size m.severity (
            add_if base.string_size m.logger (
              add_if base.string_size m.type
                (add_if M.int64_size m.timestamp (add_if base.bytes_size m.uuid 0)))))))

  abbrev pub message_any_set : Message → Bool
  message_any_set m =
      has m.uuid
      || has m.timestamp
      || has m.type
      || has m.logger
      || has m.severity
      || has m.payload
      || has m.env_version
      || has m.pid

  -- The ninth bit has a test of its own.
  abbrev pub add_host_name : Message → ℕ → ℕ
  add_host_name m total = if has m.hostname then add_if base.string_size m.hostname total else total

  -- `Message::ByteSize`
  unfoldable pub message_size : Message → ℕ
  message_size m =
      let set = if message_any_set m then message_set_size m else 0 in
      add_each delimited_size m.fields (add_host_name m set + 1 * length m.fields)
      + length m.unknown_fields
