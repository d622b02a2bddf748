-- ===== src/Converter/Strtol.antt =====
-- `strtol(s, nullptr, 10)` of the C library, with a 64-bit `long`.
use mozilla_telemetry.Prelude.{
  ℕ, ◌+◌, ◌-◌, ◌*◌, ◌^◌, Bool, ◌&&◌, ◌||◌, [], ◌∷◌, Bytes, ltb, leb, ◌==◌, if◌then◌else◌,
}
use mozilla_telemetry.Prelude.Int.{ℤ, pos, negsuc}

abbrev is_space : ℕ → Bool
is_space c = c == b' ' || (leb 9 c && leb c 13)

abbrev is_digit : ℕ → Bool
is_digit c = leb b'0' c && leb c b'9'

unfoldable pub skip_space : Bytes → Bytes
skip_space [] = []
skip_space (c ∷ cs) = if is_space c then skip_space cs else c ∷ cs

-- The value of the digits at the front, behind those read as `acc`.
unfoldable pub read_digits : ℕ → Bytes → ℕ
read_digits acc [] = acc
read_digits acc (c ∷ cs) =
    let rest = read_digits (acc * 10 + (c - b'0')) cs in if is_digit c then rest else acc

-- Out of the range of `long`, the nearest value.
abbrev positive : ℕ → ℤ
positive n = if ltb n (2 ^ 63) then pos n else pos (2 ^ 63 - 1)

abbrev negative : ℕ → ℤ
negative n =
    if n == 0 then pos 0 else if leb n (2 ^ 63) then negsuc (n - 1) else negsuc (2 ^ 63 - 1)

abbrev signed : Bytes → ℤ
signed [] = pos 0
signed (c ∷ cs) =
    if c == b'-'
    then negative (read_digits 0 cs)
    else if c == b'+'
    then positive (read_digits 0 cs)
    else positive (read_digits 0 (c ∷ cs))

unfoldable pub strtol : Bytes → ℤ
unfolding skip_space read_digits
strtol s = signed (skip_space s)
