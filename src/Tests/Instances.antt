-- ===== src/Tests/Instances.antt =====
-- Concrete functions for the parameters of the model.
use mozilla_telemetry.Prelude.{
  ℕ, zero, suc, ◌≤◌, ◌≡◌, Option, none, some, List, [], ◌∷◌, arith, length, take, drop,
  length-take_of_le, get_elem?, Bytes, codes, bytes_eq, bytes_eq_iff, leb, if◌then◌else◌,
}
use mozilla_telemetry.Prelude.Int.{ℤ, pos}
use mozilla_telemetry.Json.{int, object, end, member, Parsed, parse_error, document, Rapidjson}
use mozilla_telemetry.Record.Inflate.{Ret, stream_end, buf_error, Zlib}

abbrev shift : Option ℕ → Option ℕ
shift none = none
shift (some i) = some (suc i)

-- The first member of the name.
abbrev pub find_first : Bytes → List Bytes → Option ℕ
find_first k [] = none
find_first k (x ∷ xs) = if bytes_eq x k then some 0 else shift (find_first k xs)

pub find_first-some :
    (k : Bytes) (ks : List Bytes) {i : ℕ} → find_first k ks ≡ some i → get_elem? ks i ≡ some k
find_first-some k [] h = cc
find_first-some k (x ∷ xs) {i = zero} h = ground (arith, bytes_eq_iff x k)
find_first-some k (x ∷ xs) {i = suc i} h = ground (arith, find_first-some k xs {i = i})

pub find_first-none :
    (k : Bytes) (ks : List Bytes) → find_first k ks ≡ none → (i : ℕ) → get_elem? ks i ≡ some k → ⊥
find_first-none k [] h i e = cc
find_first-none k (x ∷ xs) h zero e = ground (arith, bytes_eq_iff x k)
find_first-none k (x ∷ xs) h (suc i) e = find_first-none k xs (ground arith) i e

-- A parser that knows one document.
abbrev parse_sample : Bytes → Parsed ℤ
parse_sample s =
    if bytes_eq s (codes "{\"a\":8}")
    then document (object (member (codes "a") (int (pos 8)) end))
    else parse_error (codes "Expect either an object or array at root")

abbrev pub sample_json : Rapidjson
sample_json = record {
  Double = ℤ;
  of_int = λ z. z;
  parse = parse_sample;
  find = find_first;
  find-some = find_first-some;
  find-none = find_first-none;
}

-- A stream that is stored: `inflate` gives out its bytes as they are.
abbrev stored : Bytes → ℕ → Ret × Bytes × Bytes
stored z n = if leb (length z) n then (stream_end, z, []) else (buf_error, take n z, drop n z)

pub stored_bound : (z : Bytes) (n : ℕ) → length (stored z n).1 ≤ n
stored_bound z n = ground (arith, length-take_of_le n z)

abbrev pub stored_zlib : Zlib
stored_zlib = record {
  ZStream = Bytes;
  init = λ bs. some bs;
  inflate = stored;
  inflate_bound = stored_bound;
}

-- A stream that waits for input that does not come.
abbrev pub waiting_zlib : Zlib
waiting_zlib = record {
  ZStream = Unit;
  init = λ bs. some tt;
  inflate = λ z n. (buf_error, [], tt);
  inflate_bound = λ z n. omega arith;
}
