-- ===== src/Stream/Reading.antt =====
-- Reading back what was written: numbers in the layout of x86, and the bytes at the front.
use mozilla_telemetry.Prelude.{
  ℕ, zero, suc, ◌*◌, ◌/◌, ◌<◌, ◌≤◌, ◌≡◌, refl, ap, [], ◌∷◌, ◌++◌, append-nil, arith, length,
  length-append, take, take-append, drop, drop-append, Bytes,
}
use mozilla_telemetry.Stream.{at, read, to_le, of_le, read_value}

pub length-to_le : (n v : ℕ) → length (to_le n v) ≡ n
unfolding to_le
length-to_le zero v = refl
length-to_le (suc n) v = ap suc (length-to_le n (v / 256))

-- 256 ^ n, by the number of bytes.
abbrev pub capacity : ℕ → ℕ
capacity zero = 1
capacity (suc n) = 256 * capacity n

pub of_le-to_le : (n v : ℕ) → v < capacity n → of_le (to_le n v) ≡ v
unfolding to_le of_le
of_le-to_le zero v h = omega arith
of_le-to_le (suc n) v h = omega (arith, of_le-to_le n (v / 256) (omega arith))

pub read-append :
    (xs rest : Bytes) (n : ℕ) → length xs ≡ n → read n (at (xs ++ rest)) ≡ (xs, at rest)
unfolding read
read-append xs rest n h = ground (
  arith,
  length-append xs rest,
  ap (λ (k : ℕ). take k (xs ++ rest)) h,
  ap (λ (k : ℕ). drop k (xs ++ rest)) h,
  take-append xs rest,
  drop-append xs rest,
)

pub drop_all : (n : ℕ) (xs : Bytes) → length xs ≤ n → drop n xs ≡ []
drop_all zero [] h = refl
drop_all (suc n) [] h = refl
drop_all zero (x ∷ xs) h = absurd (omega arith)
drop_all (suc n) (x ∷ xs) h = drop_all n xs (omega arith)

-- `read_value` takes a number that was written, whatever its variable held.
pub read_value-to_le :
    (n old v : ℕ) (rest : Bytes)
    → v < capacity n
    → read_value n old (at (to_le n v ++ rest)) ≡ (v, at rest)
unfolding read_value
read_value-to_le n old v rest h =
    let e = read-append (to_le n v) rest n (length-to_le n v) in
    let none_left : drop (length (to_le n v)) (to_le n old) ≡ [] =
      drop_all (length (to_le n v)) (to_le n old)
        (omega (arith, length-to_le n v, length-to_le n old)) in
    rw e (rw none_left (rw append-nil (rw (of_le-to_le n v h))))
