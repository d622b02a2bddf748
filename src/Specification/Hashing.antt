-- ===== src/Specification/Hashing.antt =====
-- common/HistogramSpecification.h: the functors of the hash table, and the table of the source over any
-- `unordered_map`, beside the list of the model.
pub mod Loaded
pub mod Chained
use mozilla_telemetry.Prelude.{
  ℕ, ◌≡◌, refl, sym, ◌∙◌, ap, Bool, true, false, Bool-cases, inl, inr, Option, none, some, List, [],
  ◌∷◌, Bytes, c_str, c_str_idem, bytes_eq, bytes_eq_iff, bytes_eq_refl, arith, ◌==◌, if◌then◌else◌,
}
use mozilla_telemetry.Prelude.Int.{ℤ}
use mozilla_telemetry.Outcome.{Outcome, ok, throw, fault, ◌>>=◌, ◌>>◌, require, rethrow}
use mozilla_telemetry.Json.{Value, Members, end, member, is_object, Rapidjson}
use mozilla_telemetry.Specification.{
  HistogramDefinition, HistogramSpecification, find_definition, insert_definition, get_definition,
  new_definition, not_a_definition, in_key, load_members,
}
use mozilla_telemetry.Specification.Buckets.{or_else}
use mozilla_telemetry.Specification.Names.{find_definition-insert_definition}

-- `Cstring_equal_to`, of the bytes from a pointer on
unfoldable pub cstring_equal_to : Bytes → Bytes → Bool
unfolding c_str
cstring_equal_to p q = bytes_eq (c_str p) (c_str q)

-- The loop of `Cstring_hash`; `combine` is `boost::hash_combine`.
unfoldable pub hash_loop : (ℕ → ℕ → ℕ) → Bytes → ℕ → ℕ
hash_loop combine [] seed = seed
hash_loop combine (c ∷ cs) seed =
    let rest = hash_loop combine cs (combine seed c) in if c == 0 then seed else rest

-- `Cstring_hash`
unfoldable pub cstring_hash : (ℕ → ℕ → ℕ) → Bytes → ℕ
unfolding hash_loop
cstring_hash combine p = hash_loop combine p 0

-- What `unordered_map` asks of its functors: keys that are equal have one hash, and equality of keys is
-- an equivalence.
pub record IsHashable {P : Type 0} (hash : P → ℕ) (equal : P → P → Bool) : Type 0 where
  pub reflexive : (p : P) → equal p p ≡ true
  pub symmetric : (p q : P) → equal p q ≡ true → equal q p ≡ true
  pub transitive : (p q r : P) → equal p q ≡ true → equal q r ≡ true → equal p r ≡ true
  pub agrees : (p q : P) → equal p q ≡ true → hash p ≡ hash q

hash_loop-c_str :
    (combine : ℕ → ℕ → ℕ) (p : Bytes) (seed : ℕ)
    → hash_loop combine (c_str p) seed ≡ hash_loop combine p seed
unfolding hash_loop c_str
hash_loop-c_str combine [] seed = refl
hash_loop-c_str combine (c ∷ cs) seed = ground (arith, hash_loop-c_str combine cs (combine seed c))

-- The functors of the table are what `unordered_map` asks for, whatever `hash_combine` does.
pub cstring-IsHashable : (combine : ℕ → ℕ → ℕ) → IsHashable (cstring_hash combine) cstring_equal_to
unfolding cstring_hash cstring_equal_to
cstring-IsHashable combine = record {
  reflexive = λ p. bytes_eq_refl (c_str p);
  symmetric = λ p q h.
      ground (arith, h, bytes_eq_iff (c_str p) (c_str q), bytes_eq_iff (c_str q) (c_str p));
  transitive = λ p q r h k. ground (
    arith,
    h,
    k,
    bytes_eq_iff (c_str p) (c_str q),
    bytes_eq_iff (c_str q) (c_str r),
    bytes_eq_iff (c_str p) (c_str r),
  );
  agrees = λ p q h.
      sym (hash_loop-c_str combine p 0)
      ∙ ap (λ (s : Bytes). hash_loop combine s 0) ((bytes_eq_iff (c_str p) (c_str q)).0 h)
      ∙ hash_loop-c_str combine q 0;
}

-- `unordered_map` over two functors, for which it keeps its promises only where they are what it asks for:
-- a new table has no key, and `insert` adds a key unless an equal one is there.
pub record UnorderedMap {P : Type 0} (V : Type 0) (hash : P → ℕ) (equal : P → P → Bool)
    : Type 1 where
  pub Table : Type 0
  pub empty : Table
  pub find : P → Table → Option V
  pub insert : P → V → Table → Table
  pub find-empty : IsHashable hash equal → (p : P) → find p empty ≡ none
  pub find-insert :
      IsHashable hash equal
      → (p q : P) (v : V) (t : Table)
      → find p (insert q v t) ≡ or_else (find p t) (if equal q p then some v else none)
