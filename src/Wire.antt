-- ===== src/Wire.antt =====
-- common/message.pb.cc: how the header of a message is encoded. protobuf's own functions, which
-- write one field, are the parameter `WireFormat`, with the sizes that its documentation gives them.
pub mod Framing
pub mod Encoding
use mozilla_telemetry.Prelude.{
  ℕ, ◌+◌, ◌<◌, ◌≤◌, ◌≡◌, refl, Bool, true, false, ◌||◌, Option, none, some, [], ◌++◌, arith, length,
  length-append, Bytes, if◌then◌else◌,
}

-- A function of `WireFormatLite` takes the field's number, and its output has the tag in front. The
-- tag of a number below 16 is one byte.
pub record WireFormat : Type 0 where
  pub write_uint32 : ℕ → ℕ → Bytes
  pub write_enum : ℕ → ℕ → Bytes
  pub write_string : ℕ → Bytes → Bytes
  pub write_bytes : ℕ → Bytes → Bytes
  pub uint32_size : ℕ → ℕ
  pub enum_size : ℕ → ℕ
  pub string_size : Bytes → ℕ
  pub bytes_size : Bytes → ℕ
  pub uint32_size-le : (v : ℕ) → uint32_size v ≤ 5
  pub length-write_uint32 : (n v : ℕ) → n < 16 → length (write_uint32 n v) ≡ 1 + uint32_size v
  pub length-write_enum : (n v : ℕ) → n < 16 → length (write_enum n v) ≡ 1 + enum_size v
  pub length-write_string :
      (n : ℕ) (s : Bytes) → n < 16 → length (write_string n s) ≡ 1 + string_size s
  pub length-write_bytes :
      (n : ℕ) (s : Bytes) → n < 16 → length (write_bytes n s) ≡ 1 + bytes_size s

-- `Header`: a member that is not set is `none`, and the unknown fields are the bytes they stand for.
pub record Header : Type 0 where
  pub message_length : Option ℕ
  pub hmac_hash_function : Option ℕ
  pub hmac_signer : Option Bytes
  pub hmac_key_version : Option ℕ
  pub hmac : Option Bytes
  pub unknown_fields : Bytes

abbrev pub new_header : Header
new_header = record {
  message_length = none;
  hmac_hash_function = none;
  hmac_signer = none;
  hmac_key_version = none;
  hmac = none;
  unknown_fields = [];
}

-- `set_message_length`
unfoldable pub set_message_length : ℕ → Header → Header
set_message_length n h = record h { message_length = some n }

module _ {A : Type 0} where
  -- `has_x()`
  abbrev pub has : Option A → Bool
  has none = false
  has (some a) = true

  -- `if (has_x()) { write(x()) }`
  abbrev pub write_if : (A → Bytes) → Option A → Bytes
  write_if write none = []
  write_if write (some a) = write a

  -- `if (has_x()) { total_size += 1 + size(x()) }`
  abbrev pub add_if : (A → ℕ) → Option A → ℕ → ℕ
  add_if size none total = total
  add_if size (some a) total = total + (1 + size a)

  length-write_if :
      (write : A → Bytes) (size : A → ℕ) (o : Option A) (total : ℕ)
      → ((a : A) → length (write a) ≡ 1 + size a)
      → total + length (write_if write o) ≡ add_if size o total
  length-write_if write size none total h = omega arith
  length-write_if write size (some a) total h = omega (arith, h a)

module _ (F : WireFormat) where
  -- `SerializeWithCachedSizes`
  unfoldable pub serialize : Header → Bytes
  serialize h =
      write_if (F.write_uint32 1) h.message_length
      ++ (write_if (F.write_enum 3) h.hmac_hash_function
          ++ (write_if (F.write_string 4) h.hmac_signer
              ++ (write_if (F.write_uint32 5) h.hmac_key_version
                  ++ (write_if (F.write_bytes 6) h.hmac ++ h.unknown_fields))))

  -- The part of `ByteSize` under the test of the bits that tell which members are set
  abbrev set_size : Header → ℕ
  set_size h = add_if F.bytes_size h.hmac (
      add_if F.uint32_size h.hmac_key_version (
        add_if F.string_size h.hmac_signer
          (add_if F.enum_size h.hmac_hash_function (add_if F.uint32_size h.message_length 0))))

  abbrev any_set : Header → Bool
  any_set h =
      has h.message_length
      || has h.hmac_hash_function
      || has h.hmac_signer
      || has h.hmac_key_version
      || has h.hmac

  abbrev set_if : Header → ℕ
  set_if h = if any_set h then set_size h else 0

  abbrev header_of : Option ℕ → Option ℕ → Option Bytes → Option ℕ → Option Bytes → Bytes → Header
  header_of a b c d e u = record {
    message_length = a;
    hmac_hash_function = b;
    hmac_signer = c;
    hmac_key_version = d;
    hmac = e;
    unknown_fields = u;
  }

  -- `ByteSize`
  unfoldable pub byte_size : Header → ℕ
  byte_size h = set_if h + length h.unknown_fields

  -- Where no member is set the test skips nothing.
  any_set_cases :
      (length signer_hash : Option ℕ) (signer : Option Bytes) (version : Option ℕ)
      (hmac : Option Bytes) (unknown : Bytes)
      → set_if (header_of length signer_hash signer version hmac unknown)
        ≡ set_size (header_of length signer_hash signer version hmac unknown)
  any_set_cases (some _) b c d e u = refl
  any_set_cases none (some _) c d e u = refl
  any_set_cases none none (some _) d e u = refl
  any_set_cases none none none (some _) e u = refl
  any_set_cases none none none none (some _) u = refl
  any_set_cases none none none none none u = refl

  -- The encoding of a header, whichever of its members are set, has the size that `ByteSize` gives.
  pub length-serialize : (h : Header) → length (serialize h) ≡ byte_size h
  unfolding serialize byte_size
  length-serialize h =
      let a = write_if (F.write_uint32 1) h.message_length in
      let b = write_if (F.write_enum 3) h.hmac_hash_function in
      let c = write_if (F.write_string 4) h.hmac_signer in
      let d = write_if (F.write_uint32 5) h.hmac_key_version in
      let e = write_if (F.write_bytes 6) h.hmac in
      let u = h.unknown_fields in
      let size₁ = add_if F.uint32_size h.message_length 0 in
      let size₂ = add_if F.enum_size h.hmac_hash_function size₁ in
      let size₃ = add_if F.string_size h.hmac_signer size₂ in
      let size₄ = add_if F.uint32_size h.hmac_key_version size₃ in
      omega (
        arith,
        any_set_cases h.message_length h.hmac_hash_function h.hmac_signer h.hmac_key_version h.hmac
            u,
        length-append a (b ++ (c ++ (d ++ (e ++ u)))),
        length-append b (c ++ (d ++ (e ++ u))),
        length-append c (d ++ (e ++ u)),
        length-append d (e ++ u),
        length-append e u,
        length-write_if (F.write_uint32 1) F.uint32_size h.message_length 0
            (λ v. F.length-write_uint32 1 v (omega arith)),
        length-write_if (F.write_enum 3) F.enum_size h.hmac_hash_function size₁
            (λ v. F.length-write_enum 3 v (omega arith)),
        length-write_if (F.write_string 4) F.string_size h.hmac_signer size₂
            (λ v. F.length-write_string 4 v (omega arith)),
        length-write_if (F.write_uint32 5) F.uint32_size h.hmac_key_version size₃
            (λ v. F.length-write_uint32 5 v (omega arith)),
        length-write_if (F.write_bytes 6) F.bytes_size h.hmac size₄
            (λ v. F.length-write_bytes 6 v (omega arith)),
      )
