-- ===== src/Converter/Values.antt =====
-- What `RewriteValues` writes: each bucket gets the last count that the record has for it.
use mozilla_telemetry.Prelude.{
  ℕ, ◌<◌, ◌≡◌, refl, ◌∙◌, ◌⊎◌, inl, inr, Bool, true, false, Option, none, some, List, arith, length,
  replicate, length-replicate, codes, set, get_elem?, length-set, get_elem?-set_self,
  get_elem?-set_ne, Bytes, c_str, Bool-cases, if◌then◌else◌, ◌==◌,
}
use mozilla_telemetry.Prelude.Int.{ℤ, pos, negsuc, is_int32, eqb_ℤ}
use mozilla_telemetry.Outcome.{ok}
use mozilla_telemetry.Json.{Value, int, object, Members, end, member, Rapidjson, lookup}
use mozilla_telemetry.Specification.{HistogramDefinition, get_bucket_index}
use mozilla_telemetry.Specification.Buckets.{or_else, IsWellFormed, get_bucket_index-lt}
use mozilla_telemetry.Converter.{strtol, rewrite_value, rewrite_loop, rewrite_values}

-- The bucket of a member's name, -1 if it has none.
abbrev pub bucket_of : HistogramDefinition → Bytes → ℤ
bucket_of d n = get_bucket_index d (strtol (c_str n))

module _ {D : Type 0} where
  -- A member of `values` that names a bucket and holds an `int`.
  abbrev pub is_count : HistogramDefinition → Bytes → Value D → Bool
  is_count d n (int i) =
      if is_int32 i then (if eqb_ℤ (bucket_of d n) (negsuc 0) then false else true) else false
  is_count d n _ = false

  abbrev pub all_counts : HistogramDefinition → Members D → Bool
  all_counts d end = true
  all_counts d (member n v ms) = if is_count d n v then all_counts d ms else false

  abbrev pub count_of : Value D → Option ℤ
  count_of (int i) = some i
  count_of _ = none

  -- The reference: the count of the last member whose bucket is `b`.
  abbrev pub last_count : HistogramDefinition → ℕ → Members D → Option ℤ
  last_count d b end = none
  last_count d b (member n v ms) =
      or_else (last_count d b ms) (if eqb_ℤ (bucket_of d n) (pos b) then count_of v else none)

  -- What the loop makes of the vector `xs`.
  abbrev pub LoopResult : HistogramDefinition → Members D → List ℤ → Option (List ℤ) → Type 0
  LoopResult d ms xs none = all_counts d ms ≡ false
  LoopResult d ms xs (some ys) =
      (all_counts d ms ≡ true)
      × (length ys ≡ length xs)
      × ((b : ℕ) → b < length xs → get_elem? ys b ≡ or_else (last_count d b ms) (get_elem? xs b))

get_elem?-set :
    {A : Type 0} (xs : List A) (i j : ℕ) (v : A)
    → j < length xs
    → get_elem? (set xs i v) j ≡ (if i == j then some v else get_elem? xs j)
get_elem?-set xs i j v h = ground (arith, get_elem?-set_self xs i v, get_elem?-set_ne xs i j v)

module _ {D : Type 0} (d : HistogramDefinition) (w : IsWellFormed d) where
  -- One member: no write leaves the vector.
  rewrite_value_lem :
      (n : Bytes) (v : Value D) (xs : List ℤ)
      → length xs ≡ w.size
      → ((rewrite_value d n v xs ≡ ok none) × (is_count d n v ≡ false))
        ⊎ ((i : ℕ) × (z : ℤ) × (rewrite_value d n v xs ≡ ok (some (set xs i z)))
            × (is_count d n v ≡ true)
            × (bucket_of d n ≡ pos i)
            × (v ≡ int z)
            × (i < length xs))
  unfolding rewrite_value
  rewrite_value_lem n (int z) xs h = elim (get_bucket_index-lt d w (strtol (c_str n))) [
    | inl e ↦ inl (ground (arith, e), ground (arith, e))
    | inr (i, e, lt) ↦ elim (Bool-cases (is_int32 z)) [
      | inl y ↦ inr (i, z, ground (arith, e, lt), ground (arith, e), e, refl, ground (arith, lt))
      | inr x ↦ inl (ground arith, ground arith)
    ]
  ]
  rewrite_value_lem n v xs h = inl (refl, refl)

  LoopResult-set :
      (n : Bytes) (v : Value D) (ms : Members D) (xs : List ℤ) (i : ℕ) (z : ℤ) (r : Option (List ℤ))
      → is_count d n v ≡ true
      → bucket_of d n ≡ pos i
      → v ≡ int z
      → LoopResult d ms (set xs i z) r
      → LoopResult d (member n v ms) xs r
  LoopResult-set n v ms xs i z none c e shape h = ground arith
  LoopResult-set n v ms xs i z (some ys) c e shape (all, size, at) = (
    ground arith,
    size ∙ length-set xs i z,
    λ b lt. ground (arith, e, shape, get_elem?-set xs i b z lt, at b (rw length-set lt)),
  )

  -- The loop returns, and keeps the last count of each bucket.
  rewrite_loop_lem :
      (ms : Members D) (xs : List ℤ)
      → length xs ≡ w.size
      → (r : Option (List ℤ)) × (rewrite_loop d ms xs ≡ ok r) × LoopResult d ms xs r
  unfolding rewrite_loop
  rewrite_loop_lem end xs h = (some xs, refl, (refl, refl, λ b lt. refl))
  rewrite_loop_lem (member n v ms) xs h = elim (rewrite_value_lem n v xs h) [
    | inl (e, c) ↦ (none, ground (arith, e), ground (arith, c))
    | inr (i, z, e, c, at_bucket, shape, lt) ↦
        let (r, run, result) = rewrite_loop_lem ms (set xs i z) (length-set xs i z ∙ h) in
        (r, ground (arith, e, run), LoopResult-set n v ms xs i z r c at_bucket shape result)
  ]

module _ (J : Rapidjson) (d : HistogramDefinition) (w : IsWellFormed d)
    (os vs : Members J.Double) where
  -- On the zeros that `RewriteHistogram` passes in.
  pub rewrite_values-last_count :
      lookup J os (codes "values") ≡ object vs
      → (r : Option (List ℤ)) × (rewrite_values J d (object os) (replicate w.size (pos 0)) ≡ ok r)
        × LoopResult d vs (replicate w.size (pos 0)) r
  unfolding rewrite_values
  rewrite_values-last_count e =
      let (r, run, result) =
        rewrite_loop_lem d w vs (replicate w.size (pos 0)) (length-replicate w.size _) in
      (r, ground (arith, e, run), result)
