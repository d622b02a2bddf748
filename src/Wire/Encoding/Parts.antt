-- ===== src/Wire/Encoding/Parts.antt =====
-- common/message.pb.cc: what a member adds to an encoding, and to its size.
use mozilla_telemetry.Prelude.{
  ℕ, ◌+◌, ◌*◌, ◌<◌, ◌≤◌, ◌≡◌, refl, ap, ◌∙◌, true, Option, none, some, List, [], ◌∷◌, ◌++◌, arith,
  length, length-append, append_assoc, Bytes, ltb,
}
use mozilla_telemetry.Wire.{write_if, add_if}
use mozilla_telemetry.Wire.Encoding.{MessageFormat, write_each, add_each, write_packed, add_packed}

pub from_zero : (n : ℕ) → n ≡ 0 + n
from_zero n = omega arith

module _ {A : Type 0} where
  pub then_each :
      (write : A → Bytes) (size : A → ℕ) (xs : List A) (rest : Bytes) (total : ℕ)
      → ((x : A) → length (write x) ≡ size x)
      → total + length (write_each write xs ++ rest) ≡ add_each size xs total + length rest
  then_each write size [] rest total h = refl
  then_each write size (x ∷ xs) rest total h = omega (
    arith,
    h x,
    length-append (write_each write (x ∷ xs)) rest,
    length-append (write x) (write_each write xs),
    length-append (write_each write xs) rest,
    then_each write size xs rest (total + size x) h,
  )

  pub then_if :
      (write : A → Bytes) (size : A → ℕ) (o : Option A) (rest : Bytes) (total : ℕ)
      → ((a : A) → length (write a) ≡ 1 + size a)
      → total + length (write_if write o ++ rest) ≡ add_if size o total + length rest
  then_if write size none rest total h = refl
  then_if write size (some a) rest total h = omega (arith, h a, length-append (write a) rest)

  -- As `then_each`, where the size leaves out the tag and the tags were added first.
  pub then_tagged :
      (write : A → Bytes) (size : A → ℕ) (xs : List A) (rest : Bytes) (total : ℕ)
      → ((x : A) → length (write x) ≡ 1 + size x)
      → total + length (write_each write xs ++ rest)
        ≡ add_each size xs (total + 1 * length xs) + length rest
  then_tagged write size [] rest total h = ap (λ (n : ℕ). n + length rest) (omega arith)
  then_tagged write size (x ∷ xs) rest total h =
      let start : total + 1 + size x + 1 * length xs ≡ total + 1 * length (x ∷ xs) + size x =
        omega arith in
      omega (
        arith,
        h x,
        length-append (write_each write (x ∷ xs)) rest,
        length-append (write x) (write_each write xs),
        length-append (write_each write xs) rest,
        then_tagged write size xs rest (total + 1 + size x) h,
        ap (λ (n : ℕ). add_each size xs n) start,
      )

  add_each-le : (size : A → ℕ) (xs : List A) (total : ℕ) → total ≤ add_each size xs total
  add_each-le size [] total = omega arith
  add_each-le size (x ∷ xs) total = omega (arith, add_each-le size xs (total + size x))

  pub add_each_const :
      (k : ℕ) (xs : List A) (total : ℕ) → add_each (λ x. k) xs total ≡ total + k * length xs
  add_each_const k [] total = omega arith
  add_each_const k (x ∷ xs) total = omega (arith, add_each_const k xs (total + k))

module _ (M : MessageFormat) where
  open M use {base, write_tag, write_length, length_size}

  module _ {A : Type 0} where
    pub then_packed :
        (n data_size : ℕ) (write : A → Bytes) (size : A → ℕ) (xs : List A) (rest : Bytes)
        (total : ℕ)
        → n < 16
        → ((x : A) → length (write x) ≡ size x)
        → ((x : A) → 1 ≤ size x)
        → add_each size xs 0 ≡ data_size
        → total + length (write_packed M n data_size write xs ++ rest)
          ≡ add_packed M data_size total + length rest
    then_packed n data_size write size [] rest total small h positive e = ground (arith, e)
    then_packed n data_size write size (x ∷ xs) rest total small h positive e =
        let grown : 1 ≤ data_size =
          omega (arith, e, positive x, add_each-le size xs (0 + size x)) in
        let body = write_each write (x ∷ xs) in
        let sizes : 0 + length (body ++ rest) ≡ data_size + length rest =
          then_each write size (x ∷ xs) rest 0 h ∙ ap (λ (n : ℕ). n + length rest) e in
        let head : length ((write_tag n ++ write_length data_size) ++ (body ++ rest))
            ≡ 1 + length_size data_size + length (body ++ rest) =
          omega (
            arith,
            M.length-write_tag n small,
            M.length-write_length data_size,
            length-append (write_tag n) (write_length data_size),
            length-append (write_tag n ++ write_length data_size) (body ++ rest),
          ) in
        let whole : length (((write_tag n ++ write_length data_size) ++ body) ++ rest)
            ≡ 1 + length_size data_size + length (body ++ rest) =
          ap length (append_assoc (write_tag n ++ write_length data_size) body rest) ∙ head in
        let test : ltb 0 data_size ≡ true = ground (arith, grown) in
        rw (test) (omega (arith, whole, sizes))
