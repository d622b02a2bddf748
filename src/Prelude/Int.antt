-- ===== src/Prelude/Int.antt =====
-- Signed integers over the native numbers, and the ranges of the C++ types that hold them.
use mozilla_telemetry.Prelude.{
  ℕ, suc, ◌-◌, ◌%◌, ◌^◌, ◌≡◌, refl, ◌↔◌, Bool, true, false, arith, ltb, ◌==◌, if◌then◌else◌, Bytes,
  show_ℕ, ◌∷◌,
}

-- `negsuc n` is -(n + 1).
pub data ℤ : Type 0 where
  pos : ℕ → ℤ
  negsuc : ℕ → ℤ

abbrev pub eqb_ℤ : ℤ → ℤ → Bool
eqb_ℤ (pos a) (pos b) = a == b
eqb_ℤ (negsuc a) (negsuc b) = a == b
eqb_ℤ (pos a) (negsuc b) = false
eqb_ℤ (negsuc a) (pos b) = false

pub eqb_ℤ_iff : (a b : ℤ) → (eqb_ℤ a b ≡ true) ↔ (a ≡ b)
eqb_ℤ_iff (pos a) (pos b) = ground arith
eqb_ℤ_iff (negsuc a) (negsuc b) = ground arith
eqb_ℤ_iff (pos a) (negsuc b) = ground arith
eqb_ℤ_iff (negsuc a) (pos b) = ground arith

pub eqb_ℤ_refl : (a : ℤ) → eqb_ℤ a a ≡ true
eqb_ℤ_refl a = (eqb_ℤ_iff a a).1 refl

-- A value of a signed type of 2 * `half` values.
abbrev in_signed : ℕ → ℤ → Bool
in_signed half (pos n) = ltb n half
in_signed half (negsuc n) = ltb n half

-- A value of a 32-bit `int`.
abbrev pub is_int32 : ℤ → Bool
is_int32 = in_signed (2 ^ 31)

abbrev pub is_uint32 : ℤ → Bool
is_uint32 (pos n) = ltb n (2 ^ 32)
is_uint32 (negsuc n) = false

abbrev pub is_uint64 : ℤ → Bool
is_uint64 (pos n) = ltb n (2 ^ 64)
is_uint64 (negsuc n) = false

-- The `int` of a 32-bit pattern.
abbrev pub int32_of_bits : ℕ → ℤ
int32_of_bits n = if ltb n (2 ^ 31) then pos n else negsuc (2 ^ 32 - 1 - n)

-- `long` to `int`, which keeps the low 32 bits in two's complement.
unfoldable pub to_int32 : ℤ → ℤ
to_int32 (pos n) = int32_of_bits (n % 2 ^ 32)
to_int32 (negsuc n) = int32_of_bits (2 ^ 32 - 1 - n % 2 ^ 32)

pub to_int32_of_is_int32 : (z : ℤ) → is_int32 z ≡ true → to_int32 z ≡ z
unfolding to_int32
to_int32_of_is_int32 (pos n) h = ground arith
to_int32_of_is_int32 (negsuc n) h = ground arith

-- `operator<<` on an `int`.
unfoldable pub show_ℤ : ℤ → Bytes
unfolding show_ℕ
show_ℤ (pos n) = show_ℕ n
show_ℤ (negsuc n) = b'-' ∷ show_ℕ (suc n)
