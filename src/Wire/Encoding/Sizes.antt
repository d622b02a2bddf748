-- ===== src/Wire/Encoding/Sizes.antt =====
-- common/message.pb.cc: the encodings of messages and fields against their sizes.
use mozilla_telemetry.Prelude.{
  ℕ, ◌+◌, ◌*◌, ◌≡◌, refl, sym, ap, ◌∙◌, ◌||◌, Option, none, some, ◌++◌, arith, length,
  length-append, Bytes, if◌then◌else◌,
}
use mozilla_telemetry.Prelude.Int.{ℤ}
use mozilla_telemetry.Metric.{Field, Message, ValueType}
use mozilla_telemetry.Wire.{has, add_if}
use mozilla_telemetry.Wire.Framing.{Encoder}
use mozilla_telemetry.Wire.Encoding.{
  MessageFormat, type_number, add_each, integers_size, doubles_size, bools_size, add_repeated,
  serialize_field, field_size, write_field, delimited_size, serialize_message, message_set_size,
  add_host_name, message_size,
}
use mozilla_telemetry.Wire.Encoding.Parts.{
  from_zero, then_if, then_tagged, then_packed, add_each_const,
}

module _ (M : MessageFormat) where
  open M use {base, write_tag, write_length, length_size}

  -- Where no member is set the test skips nothing.
  field_set_cases :
      (name : Option Bytes) (type : Option ValueType) (representation : Option Bytes)
      → (if has name || has type || has representation
          then add_if base.string_size representation
              (add_if (λ t. base.enum_size (type_number t)) type (add_if base.string_size name 0))
          else 0)
        ≡ add_if base.string_size representation
            (add_if (λ t. base.enum_size (type_number t)) type (add_if base.string_size name 0))
  field_set_cases (some _) t r = refl
  field_set_cases none (some _) r = refl
  field_set_cases none none (some _) = refl
  field_set_cases none none none = refl

  -- The encoding of a field has the size that `ByteSize` gives.
  pub length-serialize_field : (f : Field) → length (serialize_field M f) ≡ field_size M f
  unfolding serialize_field field_size
  length-serialize_field f =
      from_zero (length (serialize_field M f))
      ∙ then_if (base.write_string 1) base.string_size f.name _ 0
          (λ s. base.length-write_string 1 s (omega arith))
      ∙ then_if (λ t. base.write_enum 2 (type_number t)) (λ t. base.enum_size (type_number t))
          f.value_type _ _ (λ t. base.length-write_enum 2 (type_number t) (omega arith))
      ∙ then_if (base.write_string 3) base.string_size f.representation _ _
          (λ s. base.length-write_string 3 s (omega arith))
      ∙ then_tagged (base.write_string 4) base.string_size f.value_string _ _
          (λ s. base.length-write_string 4 s (omega arith))
      ∙ then_tagged (base.write_bytes 5) base.bytes_size f.value_bytes _ _
          (λ s. base.length-write_bytes 5 s (omega arith))
      ∙ then_packed M 6 (integers_size M f) M.write_int64_no_tag M.int64_size f.value_integer _ _
          (omega arith) M.length-write_int64_no_tag M.int64_size_positive refl
      ∙ then_packed M 7 (doubles_size M f) M.write_double_no_tag (λ d. 8) f.value_double _ _
          (omega arith) M.length-write_double_no_tag (λ d. omega arith)
          (omega (arith, add_each_const 8 f.value_double 0))
      ∙ then_packed M 8 (bools_size M f) M.write_bool_no_tag (λ b. 1) f.value_bool f.unknown_fields
          _ (omega arith) M.length-write_bool_no_tag (λ b. omega arith)
          (omega (arith, add_each_const 1 f.value_bool 0))
      ∙ ap (λ (set : ℕ). add_repeated M f set + length f.unknown_fields)
          (sym (field_set_cases f.name f.value_type f.representation))

  length-write_field : (f : Field) → length (write_field M f) ≡ 1 + delimited_size M f
  length-write_field f = omega (
    arith,
    length-serialize_field f,
    M.length-write_tag 10 (omega arith),
    M.length-write_length (field_size M f),
    length-append (write_tag 10) (write_length (field_size M f) ++ serialize_field M f),
    length-append (write_length (field_size M f)) (serialize_field M f),
  )

  -- Where none of the first eight members is set, the test skips nothing.
  message_set_cases :
      (uuid : Option Bytes) (timestamp : Option ℤ) (type logger : Option Bytes)
      (severity : Option ℤ) (payload version : Option Bytes) (pid : Option ℤ)
      → let total = add_if M.int32_size pid (
          add_if base.string_size version (
            add_if base.string_size payload (
              add_if M.int32_size severity (
                add_if base.string_size logger (
                  add_if base.string_size type
                    (add_if M.int64_size timestamp (add_if base.bytes_size uuid 0))))))) in
        (if has uuid
            || has timestamp
            || has type
            || has logger
            || has severity
            || has payload
            || has version
            || has pid
          then total
          else 0)
        ≡ total
  message_set_cases (some _) b c d e f g h = refl
  message_set_cases none (some _) c d e f g h = refl
  message_set_cases none none (some _) d e f g h = refl
  message_set_cases none none none (some _) e f g h = refl
  message_set_cases none none none none (some _) f g h = refl
  message_set_cases none none none none none (some _) g h = refl
  message_set_cases none none none none none none (some _) h = refl
  message_set_cases none none none none none none none (some _) = refl
  message_set_cases none none none none none none none none = refl

  host_cases :
      (hostname : Option Bytes) (total : ℕ)
      → add_if base.string_size hostname total
        ≡ (if has hostname then add_if base.string_size hostname total else total)
  host_cases none total = refl
  host_cases (some _) total = refl

  abbrev add_fields : Message → ℕ → ℕ
  add_fields m n =
      add_each (delimited_size M) m.fields (n + 1 * length m.fields) + length m.unknown_fields

  -- The encoding of a message, whichever of its members are set and whatever its fields hold, has the
  -- size that `ByteSize` gives.
  pub length-serialize_message : (m : Message) → length (serialize_message M m) ≡ message_size M m
  unfolding serialize_message message_size
  length-serialize_message m =
      from_zero (length (serialize_message M m))
      ∙ then_if (base.write_bytes 1) base.bytes_size m.uuid _ 0
          (λ s. base.length-write_bytes 1 s (omega arith))
      ∙ then_if (M.write_int64 2) M.int64_size m.timestamp _ _
          (λ v. M.length-write_int64 2 v (omega arith))
      ∙ then_if (base.write_string 3) base.string_size m.type _ _
          (λ s. base.length-write_string 3 s (omega arith))
      ∙ then_if (base.write_string 4) base.string_size m.logger _ _
          (λ s. base.length-write_string 4 s (omega arith))
      ∙ then_if (M.write_int32 5) M.int32_size m.severity _ _
          (λ v. M.length-write_int32 5 v (omega arith))
      ∙ then_if (base.write_string 6) base.string_size m.payload _ _
          (λ s. base.length-write_string 6 s (omega arith))
      ∙ then_if (base.write_string 7) base.string_size m.env_version _ _
          (λ s. base.length-write_string 7 s (omega arith))
      ∙ then_if (M.write_int32 8) M.int32_size m.pid _ _
          (λ v. M.length-write_int32 8 v (omega arith))
      ∙ then_if (base.write_string 9) base.string_size m.hostname _ _
          (λ s. base.length-write_string 9 s (omega arith))
      ∙ then_tagged (write_field M) (delimited_size M) m.fields m.unknown_fields _
          length-write_field
      ∙ ap (add_fields m) (host_cases m.hostname (message_set_size M m))
      ∙ ap (λ (set : ℕ). add_fields m (add_host_name M m set))
          (sym (
            message_set_cases m.uuid m.timestamp m.type m.logger m.severity m.payload m.env_version
              m.pid))

-- What `WriteMessage` uses of a message
abbrev pub message_encoder : MessageFormat → Encoder
message_encoder M = record {
  encode = serialize_message M;
  message_size = message_size M;
  length-encode = length-serialize_message M;
}
