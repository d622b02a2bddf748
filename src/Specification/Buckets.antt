-- ===== src/Specification/Buckets.antt =====
-- What a definition that the constructor accepted knows of its array `buckets`.
use mozilla_telemetry.Prelude.{
  ℕ, ◌+◌, ◌<◌, ◌≡◌, ◌⊎◌, inl, inr, Bool, true, false, Option, none, some, List, [], ◌∷◌, arith,
  length, All, sym, ◌∙◌, Option-cases, if◌then◌else◌,
}
use mozilla_telemetry.Prelude.Int.{
  ℤ, pos, negsuc, is_int32, eqb_ℤ, eqb_ℤ_iff, to_int32, to_int32_of_is_int32,
}
use mozilla_telemetry.Outcome.{ok}
use mozilla_telemetry.Json.{Value, int, is_int}
use mozilla_telemetry.Specification.{
  HistogramDefinition, find_bucket, insert_bucket, load_buckets, get_bucket_index,
}

abbrev pub or_else {ℓ} : {A : Type ℓ} → Option A → Option A → Option A
or_else none o = o
or_else (some a) o = some a

module _ {D : Type 0} where
  abbrev pub is_value : ℤ → Value D → Bool
  is_value k (int z) = eqb_ℤ z k
  is_value k _ = false

  -- The reference: the first position, counted from `n`, at which `k` stands in an array.
  abbrev pub first_index : ℤ → List (Value D) → ℕ → Option ℕ
  first_index k [] n = none
  first_index k (v ∷ vs) n = if is_value k v then some n else first_index k vs (n + 1)

  first_index-lt :
      (k : ℤ) (vs : List (Value D)) (n i : ℕ) → first_index k vs n ≡ some i → i < n + length vs
  first_index-lt k [] n i h = cc
  first_index-lt k (v ∷ vs) n i h = ground (arith, first_index-lt k vs (n + 1) i)

find_bucket-insert_bucket :
    (k j : ℤ) (i : ℕ) (bs : List (ℤ × ℕ))
    → find_bucket k (insert_bucket j i bs)
      ≡ or_else (find_bucket k bs) (if eqb_ℤ j k then some i else none)
unfolding find_bucket insert_bucket
find_bucket-insert_bucket k j i bs = ground (arith, eqb_ℤ_iff j k)

-- The loop of the constructor builds the table of first positions.
module _ {D : Type 0} where
  pub load_buckets-first_index :
      (vs : List (Value D)) (n : ℕ) (bs : List (ℤ × ℕ)) (m : ℕ) (bs' : List (ℤ × ℕ))
      → load_buckets vs n bs ≡ ok (m, bs')
      → (m ≡ n + length vs)
        × ((k : ℤ) → find_bucket k bs' ≡ or_else (find_bucket k bs) (first_index k vs n))
  unfolding load_buckets
  load_buckets-first_index [] n bs m bs' h = (ground arith, λ k. ground arith)
  load_buckets-first_index (int z ∷ vs) n bs m bs' h =
      let ih = load_buckets-first_index vs (n + 1) (insert_bucket z n bs) m bs' (ground arith) in
      (omega (arith, ih.0), λ k. ground (arith, ih.1 k, find_bucket-insert_bucket k z n bs))
  load_buckets-first_index (v ∷ vs) n bs m bs' h = ground arith

  pub load_buckets-ints :
      (vs : List (Value D)) (n : ℕ) (bs : List (ℤ × ℕ)) (m : ℕ) (bs' : List (ℤ × ℕ))
      → load_buckets vs n bs ≡ ok (m, bs')
      → All (λ v. is_int v ≡ true) vs
  unfolding load_buckets
  load_buckets-ints [] n bs m bs' h = tt
  load_buckets-ints (int z ∷ vs) n bs m bs' h =
      (ground arith, load_buckets-ints vs (n + 1) (insert_bucket z n bs) m bs' (ground arith))
  load_buckets-ints (v ∷ vs) n bs m bs' h = ground arith

  pub load_buckets_total :
      (vs : List (Value D)) (n : ℕ) (bs : List (ℤ × ℕ))
      → All (λ v. is_int v ≡ true) vs
      → (bs' : List (ℤ × ℕ)) × (load_buckets vs n bs ≡ ok (n + length vs, bs'))
  unfolding load_buckets
  load_buckets_total [] n bs h = (bs, ground arith)
  load_buckets_total (int z ∷ vs) n bs (h, hs) =
      let (bs', e) = load_buckets_total vs (n + 1) (insert_bucket z n bs) hs in (bs', ground arith)
  load_buckets_total (v ∷ vs) n bs h = cc

-- The array `buckets` that a definition was built from: `bucket_count` is its length, and the
-- table maps each value to its first position.
pub record IsTableOf {D : Type 0} (d : HistogramDefinition) (vs : List (Value D)) : Type 0 where
  pub ints : All (λ v. is_int v ≡ true) vs
  pub count : d.bucket_count ≡ pos (length vs)
  pub table : (k : ℤ) → find_bucket k d.buckets ≡ first_index k vs 0

-- The same with the array forgotten: every index that the table holds is a bucket.
pub record IsWellFormed (d : HistogramDefinition) : Type 0 where
  pub size : ℕ
  pub count : d.bucket_count ≡ pos size
  pub in_range : (k : ℤ) (i : ℕ) → find_bucket k d.buckets ≡ some i → i < size

pub IsTableOf-IsWellFormed :
    {D : Type 0} (d : HistogramDefinition) (vs : List (Value D)) → IsTableOf d vs → IsWellFormed d
IsTableOf-IsWellFormed d vs t = record {
  size = length vs;
  count = t.count;
  in_range = λ k i h. omega (arith, first_index-lt k vs 0 i (sym (t.table k) ∙ h));
}

-- `GetBucketIndex` answers -1 or the index of a bucket.
pub get_bucket_index-lt :
    (d : HistogramDefinition) (w : IsWellFormed d) (lower_bound : ℤ)
    → (get_bucket_index d lower_bound ≡ negsuc 0)
      ⊎ ((i : ℕ) × (get_bucket_index d lower_bound ≡ pos i) × (i < w.size))
unfolding get_bucket_index
get_bucket_index-lt d w lower_bound =
    elim (Option-cases (find_bucket (to_int32 lower_bound) d.buckets)) [
      | inl e ↦ inl (ground (arith, e))
      | inr (i, e) ↦ inr (i, ground (arith, e), w.in_range (to_int32 lower_bound) i e)
    ]

-- On a definition built from an array, `GetBucketIndex` of an `int` is its first position there.
pub get_bucket_index-first_index :
    {D : Type 0} (d : HistogramDefinition) (vs : List (Value D)) (k : ℤ)
    → IsTableOf d vs
    → is_int32 k ≡ true
    → get_bucket_index d k ≡ elim (first_index k vs 0) [ none ↦ negsuc 0 | some i ↦ pos i ]
unfolding get_bucket_index
get_bucket_index-first_index d vs k t h = ground (arith, t.table k, to_int32_of_is_int32 k h)
