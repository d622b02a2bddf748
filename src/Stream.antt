-- ===== src/Stream.antt =====
-- The input stream of the C++ library (`std::istream` over a file), as the program uses it: a
-- position is the bytes that are left from it on, and no read fails but at the end.
pub mod Reading
use mozilla_telemetry.Prelude.{
  ℕ, zero, suc, ◌+◌, ◌*◌, ◌/◌, ◌%◌, Bool, true, false, not, ◌||◌, Option, none, some, [], ◌∷◌, ◌++◌,
  length, take, drop, Bytes, ltb, if◌then◌else◌,
}

pub record Stream : Type 0 where
  pub rest : Bytes
  pub eof : Bool
  pub fail : Bool

-- An open stream with these bytes left.
abbrev pub at : Bytes → Stream
at bs = record { rest = bs; eof = false; fail = false }

-- The stream after a read that met the end.
abbrev pub at_end : Stream
at_end = record { rest = []; eof = true; fail = true }

-- `good()`
abbrev pub good : Stream → Bool
good s = not (s.eof || s.fail)

-- `get(ch)`: a stream that is not good sets `failbit` and gives nothing.
abbrev get_byte : Bytes → Option ℕ × Stream
get_byte [] = (none, at_end)
get_byte (c ∷ cs) = (some c, at cs)

unfoldable pub get : Stream → Option ℕ × Stream
get s = if good s then get_byte s.rest else (none, record s { fail = true })

-- `read(p, n)`: the bytes that are stored at `p`.
unfoldable pub read : ℕ → Stream → Bytes × Stream
read n s =
    if good s
    then (if ltb (length s.rest) n then (s.rest, at_end) else (take n s.rest, at (drop n s.rest)))
    else ([], record s { fail = true })

-- The bytes of an unsigned number, lowest first, and back: the layout of x86.
unfoldable pub to_le : ℕ → ℕ → Bytes
to_le zero v = []
to_le (suc n) v = (v % 256) ∷ to_le n (v / 256)

unfoldable pub of_le : Bytes → ℕ
of_le [] = 0
of_le (b ∷ bs) = b + 256 * of_le bs

-- `read_value` (common/TelemetryRecord.h): `sizeof(val)` bytes over those of `val`.
unfoldable pub read_value : ℕ → ℕ → Stream → ℕ × Stream
unfolding read to_le of_le
read_value size val s =
    let r = read size s in (of_le (r.0 ++ drop (length r.0) (to_le size val)), r.1)
