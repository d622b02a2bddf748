-- ===== src/Converter/Histograms.antt =====
-- What `RewriteHistogram` makes of the object `histograms`.
use mozilla_telemetry.Prelude.{
  ℕ, ◌<◌, ◌≡◌, refl, sym, ◌∙◌, ap, ◌⊎◌, inl, inr, Bool, true, false, Option, none, some, List, [],
  ◌∷◌, arith, map, length, replicate, length-replicate, get_elem?, get_elem?-replicate, Bytes,
  codes, c_str, drop, Option-cases,
}
use mozilla_telemetry.Prelude.Int.{ℤ, pos}
use mozilla_telemetry.Constants.{extra_buckets}
use mozilla_telemetry.Outcome.{ok}
use mozilla_telemetry.Json.{Value, object, Members, end, member, is_object, Rapidjson, lookup}
use mozilla_telemetry.Specification.{
  HistogramDefinition, HistogramSpecification, get_definition, get_bucket_count,
}
use mozilla_telemetry.Specification.Buckets.{or_else, IsWellFormed}
use mozilla_telemetry.Converter.{
  resolve, new_vector, rewrite_values, summary_value, write_at, fill_summary, rewritten,
  rewrite_object, rewrite_entry, rewrite_members, rewrite_histogram,
}
use mozilla_telemetry.Converter.Values.{
  last_count, all_counts, LoopResult, rewrite_values-last_count,
}

-- Every definition that the specification gives is well formed, as those of a loaded one are.
abbrev pub AllWellFormed : HistogramSpecification → Type 0
AllWellFormed spec =
    (name : Bytes) (d : HistogramDefinition) → get_definition spec name ≡ some d → IsWellFormed d

module _ (J : Rapidjson) where
  open J use {Double}

  -- The summary values of a histogram, -1 where one is missing.
  abbrev pub summaries : Members Double → List Double
  summaries os = map (λ k. summary_value J (lookup J os k)) extra_buckets

  fill_summary_lem :
      (os : Members Double) (s : List Double)
      → length s ≡ 5
      → fill_summary J os extra_buckets 0 s ≡ ok (summaries os)
  unfolding fill_summary write_at
  fill_summary_lem os (a ∷ b ∷ c ∷ d ∷ e ∷ []) h = refl
  fill_summary_lem os s h = absurd (omega arith)

  -- The counts of a histogram: each bucket has its last count, or 0.
  pub record IsCounts (hd : HistogramDefinition) (vs : Members Double) (counts : List ℤ)
      : Type 0 where
    pub valid : all_counts hd vs ≡ true
    pub size : hd.bucket_count ≡ pos (length counts)
    pub counted :
        (b : ℕ)
        → b < length counts
        → get_elem? counts b ≡ or_else (last_count hd b vs) (some (pos 0))

  -- `values` is no object, or holds a member that is not a count of a bucket.
  abbrev pub IsRefused : HistogramDefinition → Value Double → Type 0
  IsRefused hd (object vs) = all_counts hd vs ≡ false
  IsRefused hd _ = Unit

  -- What the loop leaves of the members, and its result.
  pub data Rewrites (spec : HistogramSpecification)
      : Members Double → Members Double → Bool → Type 0 where
    done : Rewrites spec end end true
    other :
        {n : Bytes} {v : Value Double} {ms ms' : Members Double} {r : Bool}
        → is_object v ≡ false
        → Rewrites spec ms ms' r
        → Rewrites spec (member n v ms) (member n v ms') r
    unknown :
        {n : Bytes} {os ms ms' : Members Double} {r : Bool}
        → resolve spec n ≡ ok none
        → Rewrites spec ms ms' r
        → Rewrites spec (member n (object os) ms) (member n (object os) ms') r
    converted :
        {n n' : Bytes} {os vs ms ms' : Members Double} {hd : HistogramDefinition} {counts : List ℤ}
        {r : Bool}
        → resolve spec n ≡ ok (some (n', hd))
        → lookup J os (codes "values") ≡ object vs
        → IsCounts hd vs counts
        → Rewrites spec ms ms' r
        → Rewrites spec
            (member n (object os) ms)
            (member n' (rewritten J counts (summaries os)) ms')
            r
    refused :
        {n n' : Bytes} {os ms : Members Double} {hd : HistogramDefinition}
        → resolve spec n ≡ ok (some (n', hd))
        → IsRefused hd (lookup J os (codes "values"))
        → Rewrites spec (member n (object os) ms) (member n' (object os) ms) false

  -- Both results of `rewrite_object`.
  abbrev pub Outcomes : Bytes → HistogramDefinition → Members Double → List Double → Type 0
  Outcomes n hd os s =
      ((vs : Members Double) × (counts : List ℤ) × (lookup J os (codes "values") ≡ object vs)
        × IsCounts hd vs counts
        × (rewrite_object J n hd os s
            ≡ ok (record {
              name = n;
              value = rewritten J counts (summaries os);
              summary = summaries os;
              result = true;
            })))
      ⊎ (IsRefused hd (lookup J os (codes "values"))
          × (rewrite_object J n hd os s
              ≡ ok (record { name = n; value = object os; summary = s; result = false })))

  module _ (n : Bytes) (hd : HistogramDefinition) (w : IsWellFormed hd) (os : Members Double)
      (s : List Double) (five : length s ≡ 5) where
    vector_lem : new_vector (get_bucket_count hd) ≡ ok (replicate w.size (pos 0))
    unfolding new_vector get_bucket_count
    vector_lem = ground (arith, w.count)

    object_case :
        (vs : Members Double) (r : Option (List ℤ))
        → lookup J os (codes "values") ≡ object vs
        → rewrite_values J hd (object os) (replicate w.size (pos 0)) ≡ ok r
        → LoopResult hd vs (replicate w.size (pos 0)) r
        → Outcomes n hd os s
    unfolding rewrite_object
    object_case vs none e run bad = inr (rw e bad, rw vector_lem (ground (arith, run)))
    object_case vs (some counts) e run (all, size, at) =
        let n_eq : length counts ≡ w.size = size ∙ length-replicate w.size (pos 0) in
        inl (
          vs,
          counts,
          e,
          record {
            valid = all;
            size = w.count ∙ ap pos (sym n_eq);
            counted = λ b lt.
                at b (rw (← size) lt)
                ∙ ap (or_else (last_count hd b vs))
                    (get_elem?-replicate w.size b (pos 0) (omega (arith, n_eq)));
          },
          ground (arith, vector_lem, run, fill_summary_lem os s five),
        )

    pub rewrite_object_lem :
        (v : Value Double) → lookup J os (codes "values") ≡ v → Outcomes n hd os s
    unfolding rewrite_object rewrite_values
    rewrite_object_lem (object vs) e =
        let (r, run, result) = rewrite_values-last_count J hd w os vs e in
        object_case vs r e run result
    rewrite_object_lem v e = inr (rw e tt, ground (arith, vector_lem, e))

  -- The value is no histogram, or its name can be looked up within its bytes.
  abbrev pub Resolves : HistogramSpecification → Bytes → Value Double → Type 0
  Resolves spec n (object os) =
      (found : Option (Bytes × HistogramDefinition)) × (resolve spec n ≡ ok found)
  Resolves spec n _ = Unit

  abbrev pub AllResolve : HistogramSpecification → Members Double → Type 0
  AllResolve spec end = Unit
  AllResolve spec (member n v ms) = Resolves spec n v × AllResolve spec ms

  pub resolve-IsWellFormed :
      (spec : HistogramSpecification) (n : Bytes) (n' : Bytes) (hd : HistogramDefinition)
      → AllWellFormed spec
      → resolve spec n ≡ ok (some (n', hd))
      → IsWellFormed hd
  unfolding resolve
  resolve-IsWellFormed spec n n' hd all h = elim (Option-cases (get_definition spec (c_str n))) [
    | inr (d, e) ↦ all (c_str n) hd (ground (arith, e))
    | inl e ↦ all (drop 8 (c_str n)) hd (ground (arith, e))
  ]

  -- The loop returns, and leaves members in the relation above.
  rewrite_members_lem :
      (spec : HistogramSpecification) (ms : Members Double) (s : List Double)
      → AllWellFormed spec
      → AllResolve spec ms
      → length s ≡ 5
      → (ms' : Members Double) × (r : Bool) × (rewrite_members J spec ms s ≡ ok (ms', r))
        × Rewrites spec ms ms' r
  unfolding rewrite_members rewrite_entry
  rewrite_members_lem spec end s all safe five = (end, true, refl, done)
  rewrite_members_lem spec (member n (object os) ms) s all ((none, e), safe) five =
      let (ms', r, run, rel) = rewrite_members_lem spec ms s all safe five in
      (member n (object os) ms', r, ground (arith, e, run), unknown e rel)
  rewrite_members_lem spec (member n (object os) ms) s all ((some (n', hd), e), safe) five =
      let later = rewrite_members_lem spec ms (summaries os) all safe refl in
      elim (rewrite_object_lem n' hd (resolve-IsWellFormed spec n n' hd all e) os s five
        (lookup J os (codes "values")) refl) [
          | inl (vs, counts, shape, good, step) ↦
              let (ms', r, run, rel) = later in
              (
                member n' (rewritten J counts (summaries os)) ms',
                r,
                ground (arith, e, step, run),
                converted e shape good rel,
              )
          | inr (bad, step) ↦
              (member n' (object os) ms, false, ground (arith, e, step), refused e bad)
        ]
  rewrite_members_lem spec (member n v ms) s all (_, safe) five =
      let (ms', r, run, rel) = rewrite_members_lem spec ms s all safe five in
      (member n v ms', r, ground (arith, run), other refl rel)

  -- `RewriteHistogram` returns, with every histogram that has a definition converted or, at the
  -- first one that is refused, with the rest untouched and `false`.
  pub rewrite_histogram-Rewrites :
      (spec : HistogramSpecification) (ms : Members Double)
      → AllWellFormed spec
      → AllResolve spec ms
      → (ms' : Members Double) × (r : Bool) × (rewrite_histogram J spec ms ≡ ok (ms', r))
        × Rewrites spec ms ms' r
  unfolding rewrite_histogram
  rewrite_histogram-Rewrites spec ms all safe = rewrite_members_lem spec ms _ all safe refl
