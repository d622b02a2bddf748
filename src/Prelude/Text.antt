-- ===== src/Prelude/Text.antt =====
-- Text as its bytes: a C or C++ string is a list of byte values.
use Prim.Native.Nat.{ℕ, zero, suc, ◌+◌, ◌/◌, ◌%◌}
use Prim.Native.Char.{code}
use Prim.Native.String.{String}
use mathlib.Core.Path.{◌≡◌, refl}
use mathlib.Core.Logic.{◌↔◌}
use mathlib.Core.Bool.{Bool, true, false, ◌&&◌, ◌||◌}
use mathlib.Core.List.{List, [], ◌∷◌, ◌++◌}
use native.Mathlib.Omega.{arith}
use mozilla_telemetry.Prelude.Tests.{◌==◌, ltb, if◌then◌else◌}

abbrev pub Bytes : Type 0
Bytes = List ℕ

-- A literal of the source; every one is ASCII.
abbrev pub codes : String → Bytes
codes String.[] = []
codes (String.◌∷◌ c s) = code c ∷ codes s

-- `std::string::operator==`, and `strcmp(a, b) == 0` on C strings.
abbrev pub bytes_eq : Bytes → Bytes → Bool
bytes_eq [] [] = true
bytes_eq [] (y ∷ ys) = false
bytes_eq (x ∷ xs) [] = false
bytes_eq (x ∷ xs) (y ∷ ys) = x == y && bytes_eq xs ys

pub bytes_eq_iff : (xs ys : Bytes) → (bytes_eq xs ys ≡ true) ↔ (xs ≡ ys)
bytes_eq_iff [] [] = ground arith
bytes_eq_iff [] (y ∷ ys) = ground arith
bytes_eq_iff (x ∷ xs) [] = ground arith
bytes_eq_iff (x ∷ xs) (y ∷ ys) = ground (arith, bytes_eq_iff xs ys)

pub bytes_eq_refl : (xs : Bytes) → bytes_eq xs xs ≡ true
bytes_eq_refl xs = (bytes_eq_iff xs xs).1 refl

-- What a `const char*` shows of a buffer: the bytes before the first NUL.
unfoldable pub c_str : Bytes → Bytes
c_str [] = []
c_str (c ∷ cs) = if c == 0 then [] else c ∷ c_str cs

pub c_str_idem : (s : Bytes) → c_str (c_str s) ≡ c_str s
unfolding c_str
c_str_idem [] = refl
c_str_idem (c ∷ cs) = ground (arith, c_str_idem cs)

-- A number in decimal, as `operator<<` prints it; `fuel` bounds the digits.
unfoldable pub show_fuel : ℕ → ℕ → Bytes → Bytes
show_fuel zero n acc = acc
show_fuel (suc fuel) n acc =
    let digit = b'0' + n % 10 in
    let rest = show_fuel fuel (n / 10) (digit ∷ acc) in if ltb n 10 then digit ∷ acc else rest

-- Twenty digits are enough for every 64-bit value.
unfoldable pub show_ℕ : ℕ → Bytes
unfolding show_fuel
show_ℕ n = show_fuel 20 n []

-- A text with its NUL at the front of a buffer shows that text, up to a NUL of its own.
pub c_str-append : (s rest : Bytes) → c_str (s ++ (0 ∷ rest)) ≡ c_str s
unfolding c_str
c_str-append [] rest = refl
c_str-append (c ∷ cs) rest = ground (arith, c_str-append cs rest)

-- There is a NUL among the bytes, so a reader of a C string stops within them.
unfoldable pub has_nul : Bytes → Bool
has_nul [] = false
has_nul (c ∷ cs) = c == 0 || has_nul cs

pub has_nul-append : (s rest : Bytes) → has_nul (s ++ (0 ∷ rest)) ≡ true
unfolding has_nul
has_nul-append [] rest = refl
has_nul-append (c ∷ cs) rest = ground (arith, has_nul-append cs rest)
