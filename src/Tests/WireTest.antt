-- ===== src/Tests/WireTest.antt =====
-- A run of common/message.pb.cc.
use mozilla_telemetry.Prelude.{
  ℕ, ◌+◌, ◌*◌, ◌≡◌, ◌<◌, ◌^◌, arith, refl, Option, none, some, [], ◌∷◌, length, replicate, All,
  Bytes, codes, true,
}
use mozilla_telemetry.Metric.{Message, new_message, new_metric, count, exact, shown}
use mozilla_telemetry.Wire.Encoding.{MessageFormat, field_size, serialize_message, message_size}
use mozilla_telemetry.Wire.Encoding.Sizes.{length-serialize_message, message_encoder}
use mozilla_telemetry.Wire.Framing.{Encoder, write_all, read_frames, read_frames-write_all}
use mozilla_telemetry.Wire.{
  WireFormat, Header, new_header, set_message_length, serialize, byte_size,
}

-- The wire format for numbers and lengths below 128.
abbrev pub small : WireFormat
small = record {
  write_uint32 = λ n v. (n * 8) ∷ v ∷ [];
  write_enum = λ n v. (n * 8) ∷ v ∷ [];
  write_string = λ n s. (n * 8 + 2) ∷ length s ∷ s;
  write_bytes = λ n s. (n * 8 + 2) ∷ length s ∷ s;
  uint32_size = λ v. 1;
  uint32_size-le = λ v. omega arith;
  enum_size = λ v. 1;
  string_size = λ s. 1 + length s;
  bytes_size = λ s. 1 + length s;
  length-write_uint32 = λ n v h. refl;
  length-write_enum = λ n v h. refl;
  length-write_string = λ n s h. omega arith;
  length-write_bytes = λ n s h. omega arith;
}

abbrev signed : Header
signed = record (set_message_length 80 new_header) { hmac_signer = some (codes "ops") }

program : Unit {0}
unfolding serialize byte_size set_message_length
program = tt

encodes : serialize small signed ≡ 8 ∷ 80 ∷ 34 ∷ 3 ∷ codes "ops"
unfolding program
encodes = refl

-- Every number as one byte, and a double as eight
abbrev pub plain : MessageFormat
plain = record {
  base = small;
  write_tag = λ n. (n * 8 + 2) ∷ [];
  write_length = λ n. n ∷ [];
  write_int32 = λ n v. (n * 8) ∷ 1 ∷ [];
  write_int64 = λ n v. (n * 8) ∷ 1 ∷ [];
  write_int64_no_tag = λ v. 1 ∷ [];
  write_double_no_tag = λ d. replicate 8 0;
  write_bool_no_tag = λ b. 1 ∷ [];
  length_size = λ n. 1;
  int32_size = λ v. 1;
  int64_size = λ v. 1;
  int64_size_positive = λ v. omega arith;
  length-write_tag = λ n h. refl;
  length-write_length = λ n. refl;
  length-write_int32 = λ n v h. refl;
  length-write_int64 = λ n v h. refl;
  length-write_int64_no_tag = λ v. refl;
  length-write_double_no_tag = λ d. refl;
  length-write_bool_no_tag = λ b. refl;
}

abbrev pub messages_of : Encoder
messages_of = message_encoder plain

-- The length in a header that has no other member
abbrev decode_length : Bytes → Option ℕ
decode_length (key ∷ value ∷ rest) = some value
decode_length _ = none

abbrev hello : Message
hello = record new_message {
  payload = some (codes "hello");
  fields = shown (exact (record (new_metric (codes "Cache Hits") count) { value = 3 })) ∷ [];
}

length-serialize_message_example : length (serialize_message plain hello) ≡ 40
unfolding message_size field_size
length-serialize_message_example = length-serialize_message plain hello

small_messages : All (λ m. messages_of.message_size m < 2 ^ 32) (hello ∷ new_message ∷ [])
unfolding message_size field_size
small_messages = (omega arith, (omega arith, tt))

read_frames-write_all_example :
    read_frames decode_length 2
      (write_all small messages_of
        (record { is_open = true; is_good = true; written = [] })
        (hello ∷ new_message ∷ [])).written
    ≡ some (serialize_message plain hello ∷ serialize_message plain new_message ∷ [])
read_frames-write_all_example =
    read_frames-write_all small messages_of decode_length (λ n h. refl) (hello ∷ new_message ∷ []) 2
      true small_messages (omega arith)
