-- ===== src/Specification/Ownership/Memory.antt =====
-- common/HistogramSpecification.cpp: the memory that `LoadDefinitions` allocates, and the destructor.
-- A block has an identity, the number of the `new` that made it; an entry of the table points to two.
use mozilla_telemetry.Prelude.{
  ℕ, suc, ◌<◌, ◌≡◌, refl, ◌∙◌, sym, Bool, true, false, Bool-cases, ◌||◌, inl, inr, Option,
  Option-cases, none, some, List, [], ◌∷◌, ◌==◌, All, arith, map, Bytes, c_str, bytes_eq,
  bytes_eq_iff, if◌then◌else◌,
}
use mozilla_telemetry.Outcome.{Outcome, ok, fault, out_of_bounds, ◌>>=◌, >>=-eq-ok}
use mozilla_telemetry.Json.{Members, end, member}
use mozilla_telemetry.Specification.{
  HistogramDefinition, HistogramSpecification, find_definition, insert_definition,
}

-- An entry of the table: the name, the block of its `char*`, the definition, and the block of that.
pub record OwnedEntry : Type 0 where
  pub name : Bytes
  pub key : ℕ
  pub definition : HistogramDefinition
  pub hd : ℕ

-- The table, the blocks that are allocated, the newest first, and the number of the next `new`
pub record Owned : Type 0 where
  pub entries : List OwnedEntry
  pub live : List ℕ
  pub next : ℕ

-- `find`
unfoldable pub find_name : Bytes → List OwnedEntry → Option OwnedEntry
find_name k [] = none
find_name k (e ∷ es) = if bytes_eq e.name k then some e else find_name k es

-- `new HistogramDefinition` and `new char[]`, and `insert`, which leaves both blocks to nobody where the
-- name is there.
unfoldable pub take_over : Bytes → HistogramDefinition → Owned → Owned
unfolding find_name
take_over name definition σ = record {
  entries = elim (find_name name σ.entries) [
    | none ↦
        record { name = name; key = suc σ.next; definition = definition; hd = σ.next } ∷ σ.entries
    | some e ↦ σ.entries
  ];
  live = suc σ.next ∷ σ.next ∷ σ.live;
  next = suc (suc σ.next);
}

-- `delete` of a block; to delete one that is not allocated is a fault.
unfoldable pub free : ℕ → List ℕ → Outcome (List ℕ)
free b [] = fault out_of_bounds
free b (c ∷ cs) = let rest = free b cs in if c == b then ok cs else rest >>= λ ds. ok (c ∷ ds)

-- The destructor: `delete[] key` and `delete hd` for each entry
unfoldable pub destroy : List OwnedEntry → List ℕ → Outcome (List ℕ)
unfolding free
destroy [] live = ok live
destroy (e ∷ es) live = do
  without_key ← free e.key live
  without_hd ← free e.hd without_key
  destroy es without_hd

-- The table without its blocks
abbrev pub definitions : List OwnedEntry → HistogramSpecification
definitions es = map (λ (e : OwnedEntry). (e.name, e.definition)) es

abbrev is_there : {A : Type 0} → Option A → Bool
is_there none = false
is_there (some a) = true

abbrev pub has : Bytes → List Bytes → Bool
has k [] = false
has k (j ∷ js) = bytes_eq j k || has k js

-- The reference: the blocks, from the number of the next one, of the members that have the name, as a C
-- string, of a member before them
abbrev pub repeated : {D : Type 0} → List Bytes → Members D → ℕ → List ℕ → List ℕ
repeated seen end next left = left
repeated seen (member n v ms) next left =
    repeated (c_str n ∷ seen) ms (suc (suc next))
      (if has (c_str n) seen then suc next ∷ next ∷ left else left)

-- The destructor frees the blocks of the table, which are old, and leaves these.
pub record Owns (seen : List Bytes) (left : List ℕ) (σ : Owned) : Type 0 where
  pub frees : destroy σ.entries σ.live ≡ ok left
  pub old : All (λ (e : OwnedEntry). (e.key < σ.next) × (e.hd < σ.next)) σ.entries
  pub names : (k : Bytes) → is_there (find_name k σ.entries) ≡ has k seen

free-other :
    (b c : ℕ) (live : List ℕ) → c < b → free c (b ∷ live) ≡ (free c live >>= λ ds. ok (b ∷ ds))
unfolding free
free-other b c live h = ground (arith, h)

destroy-newer :
    (b : ℕ) (es : List OwnedEntry) (live left : List ℕ)
    → All (λ (e : OwnedEntry). (e.key < b) × (e.hd < b)) es
    → destroy es live ≡ ok left
    → destroy es (b ∷ live) ≡ ok (b ∷ left)
unfolding destroy
destroy-newer b [] live left old e = ground (arith, e)
destroy-newer b (x ∷ es) live left old e =
    let (l₁, e₁, f₁) = >>=-eq-ok _ (free x.key live) e in
    let (l₂, e₂, f₂) = >>=-eq-ok _ (free x.hd l₁) f₁ in
    rw (free-other b x.key live old.0.0, e₁, free-other b x.hd l₁ old.0.1, e₂)
      (destroy-newer b es l₂ left old.1 f₂)

older :
    (n : ℕ) (es : List OwnedEntry)
    → All (λ (e : OwnedEntry). (e.key < n) × (e.hd < n)) es
    → All (λ (e : OwnedEntry). (e.key < suc n) × (e.hd < suc n)) es
older n [] h = tt
older n (e ∷ es) ((k, d), h) = ((omega (arith, k), omega (arith, d)), older n es h)

-- A name that the table has already changes nothing for the names.
known_name : (n k : Bytes) (seen : List Bytes) → has n seen ≡ true → has k seen ≡ has k (n ∷ seen)
known_name n k seen known = elim (Bool-cases (bytes_eq n k)) [
  | inl same ↦ rw (same, sym ((bytes_eq_iff n k).0 same)) known
  | inr other ↦ rw (other) refl
]

-- Where the name is there, the two new blocks are left behind the destructor.
take_over-repeated :
    (n : Bytes) (d : HistogramDefinition) (seen : List Bytes) (left : List ℕ) (σ : Owned)
    (x : OwnedEntry)
    → find_name n σ.entries ≡ some x
    → has n seen ≡ true
    → Owns seen left σ
    → Owns (n ∷ seen) (suc σ.next ∷ σ.next ∷ left) (take_over n d σ)
unfolding take_over
take_over-repeated n d seen left σ x there known w =
    let e₁ = destroy-newer σ.next σ.entries σ.live left w.old w.frees in
    let once = older σ.next σ.entries w.old in
    rw (there) (record {
      frees = destroy-newer (suc σ.next) σ.entries (σ.next ∷ σ.live) (σ.next ∷ left) once e₁;
      old = older (suc σ.next) σ.entries once;
      names = λ k. w.names k ∙ known_name n k seen known;
    })

-- Where it is not, the destructor frees both.
take_over-fresh :
    (n : Bytes) (d : HistogramDefinition) (seen : List Bytes) (left : List ℕ) (σ : Owned)
    → find_name n σ.entries ≡ none
    → Owns seen left σ
    → Owns (n ∷ seen) left (take_over n d σ)
unfolding take_over destroy find_name free
take_over-fresh n d seen left σ missing w = rw (missing) (record {
  frees = ground (arith, w.frees);
  old = ((omega arith, omega arith), older (suc σ.next) σ.entries (older σ.next σ.entries w.old));
  names = λ k. ground (arith, w.names k);
})

pub take_over-Owns :
    (n : Bytes) (d : HistogramDefinition) (seen : List Bytes) (left : List ℕ) (σ : Owned)
    → Owns seen left σ
    → Owns (n ∷ seen) (if has n seen then suc σ.next ∷ σ.next ∷ left else left) (take_over n d σ)
take_over-Owns n d seen left σ w = elim (Option-cases (find_name n σ.entries)) [
  | inl missing ↦
      let unknown : has n seen ≡ false = sym (w.names n) ∙ rw (missing) refl in
      rw (unknown) (take_over-fresh n d seen left σ missing w)
  | inr (x, there) ↦
      let known : has n seen ≡ true = sym (w.names n) ∙ rw (there) refl in
      rw (known) (take_over-repeated n d seen left σ x there known w)
]

-- The table without its blocks is that of `Specification`.
find_definition-definitions :
    (k : Bytes) (es : List OwnedEntry)
    → find_definition k (definitions es)
      ≡ elim (find_name k es) [ none ↦ none | some e ↦ some e.definition ]
unfolding find_definition find_name
find_definition-definitions k [] = refl
find_definition-definitions k (e ∷ es) = ground (arith, find_definition-definitions k es)

pub definitions-take_over :
    (n : Bytes) (d : HistogramDefinition) (σ : Owned)
    → definitions (take_over n d σ).entries ≡ insert_definition n d (definitions σ.entries)
unfolding take_over insert_definition
definitions-take_over n d σ = elim (Option-cases (find_name n σ.entries)) [
  | inl missing ↦
      rw (insert_definition, find_definition-definitions n σ.entries, missing, take_over) refl
  | inr (x, there) ↦
      rw (insert_definition, find_definition-definitions n σ.entries, there, take_over) refl
]
