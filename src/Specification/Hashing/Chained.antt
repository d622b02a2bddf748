-- ===== src/Specification/Hashing/Chained.antt =====
-- A table of buckets, each a chain of its entries, as an `unordered_map` is one.
use mozilla_telemetry.Prelude.{
  ℕ, ◌+◌, ◌%◌, ◌≡◌, refl, sym, ◌∙◌, ap, Bool, true, false, Bool-cases, inl, inr, Option,
  Option-cases, none, some, List, [], ◌∷◌, arith, ◌==◌, if◌then◌else◌,
}
use mozilla_telemetry.Specification.Buckets.{or_else}
use mozilla_telemetry.Specification.Hashing.{IsHashable, UnorderedMap}

or_else-none : {V : Type 0} (o : Option V) → o ≡ or_else o none
or_else-none none = refl
or_else-none (some v) = refl

module _ {P : Type 0} (V : Type 0) (hash : P → ℕ) (equal : P → P → Bool) (more : ℕ) where
  abbrev Chains : Type 0
  Chains = ℕ → List (P × V)

  -- The number of the bucket of a key; there is one bucket and `more`.
  abbrev bucket : P → ℕ
  bucket p = hash p % (more + 1)

  abbrev chain_find : P → List (P × V) → Option V
  chain_find p [] = none
  chain_find p ((q, v) ∷ es) = if equal q p then some v else chain_find p es

  abbrev find_in : P → Chains → Option V
  find_in p t = chain_find p (t (bucket p))

  abbrev add : P → V → Chains → Chains
  add q v t i = if i == bucket q then (q, v) ∷ t i else t i

  abbrev insert_in : P → V → Chains → Chains
  insert_in q v t = elim (find_in q t) [ none ↦ add q v t | some w ↦ t ]

  module _ (fine : IsHashable hash equal) where
    same_key : (p q r : P) → equal p q ≡ true → equal r p ≡ equal r q
    same_key p q r h = elim (Bool-cases (equal r p)) [
      | inl there ↦ there ∙ sym (fine.transitive r p q there h)
      | inr other ↦ elim (Bool-cases (equal r q)) [
        | inl there ↦ cc (fine.transitive r q p there (fine.symmetric p q h))
        | inr none_there ↦ other ∙ sym none_there
      ]
    ]

    chain_find_same :
        (p q : P) (es : List (P × V)) → equal p q ≡ true → chain_find p es ≡ chain_find q es
    chain_find_same p q [] h = refl
    chain_find_same p q ((r, v) ∷ es) h = rw (same_key p q r h, chain_find_same p q es h) refl

    find_in_same : (p q : P) (t : Chains) → equal p q ≡ true → find_in p t ≡ find_in q t
    find_in_same p q t h =
        ap (λ (n : ℕ). chain_find p (t (n % (more + 1)))) (fine.agrees p q h)
        ∙ chain_find_same p q (t (bucket q)) h

    abbrev new_entry : P → P → V → Option V
    new_entry p q v = if equal q p then some v else none

    add_cases :
        (p q : P) (v : V) (t : Chains) (same : Bool)
        → find_in q t ≡ none
        → (bucket p == bucket q) ≡ same
        → find_in p (add q v t) ≡ or_else (find_in p t) (new_entry p q v)
    add_cases p q v t true missing e = elim (Bool-cases (equal q p)) [
      | inl there ↦ rw (e, there, sym (find_in_same q p t there), missing) refl
      | inr other ↦ rw (e, other) (or_else-none (find_in p t))
    ]
    add_cases p q v t false missing e = elim (Bool-cases (equal q p)) [
      | inl there ↦ ground (arith, e, fine.agrees q p there)
      | inr other ↦ rw (e, other) (or_else-none (find_in p t))
    ]

    kept_cases :
        (p q : P) (v w : V) (t : Chains)
        → find_in q t ≡ some w
        → find_in p t ≡ or_else (find_in p t) (new_entry p q v)
    kept_cases p q v w t there = elim (Bool-cases (equal q p)) [
      | inl same ↦ let found = sym (find_in_same q p t same) ∙ there in rw (found) refl
      | inr other ↦ rw (other) (or_else-none (find_in p t))
    ]

    pub find_insert :
        (p q : P) (v : V) (t : Chains)
        → find_in p (insert_in q v t) ≡ or_else (find_in p t) (new_entry p q v)
    find_insert p q v t = elim (Option-cases (find_in q t)) [
      | inl missing ↦
          rw (missing, insert_in) (add_cases p q v t (bucket p == bucket q) missing refl)
      | inr (w, there) ↦ rw (there, insert_in) (kept_cases p q v w t there)
    ]

  -- The table of buckets keeps the promises of `unordered_map`.
  abbrev pub chained : UnorderedMap V hash equal
  chained = record {
    Table = Chains;
    empty = λ i. [];
    find = find_in;
    insert = insert_in;
    find-empty = λ fine p. refl;
    find-insert = find_insert;
  }
