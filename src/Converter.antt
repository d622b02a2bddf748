-- ===== src/Converter.antt =====
-- common/HistogramConverter.cpp: rewriting the histograms of a record by their definitions.
-- A `false` of `RewriteValues` is `none`; its vector is then not read again.
mod Strtol
pub mod Values
pub mod Histograms
pub mod Resolution
pub mod Faults
pub mod Document
pub mod Order
unfoldable pub use Strtol.{strtol}
use mozilla_telemetry.Prelude.{
  ℕ, ◌+◌, ◌<◌, Bool, true, false, not, Option, none, some, List, [], ◌∷◌, ◌++◌, map, Bytes, codes,
  c_str, bytes_eq, length, set, take, drop, replicate, ltb, if◌then◌else◌,
}
use mozilla_telemetry.Prelude.Int.{ℤ, pos, negsuc, is_int32, eqb_ℤ}
use mozilla_telemetry.Constants.{extra_buckets, extra_buckets_size}
use mozilla_telemetry.Outcome.{Outcome, ok, throw, fault, out_of_bounds, ◌>>=◌}
use mozilla_telemetry.Json.{
  Value, int, double, array, object, Members, end, member, of_list, Rapidjson, lookup, get_double,
  at,
}
use mozilla_telemetry.Specification.{
  HistogramDefinition, HistogramSpecification, get_bucket_index, get_bucket_count, get_definition,
}

-- `vector<int> v(n)`; a negative `n` is a huge `size_t`, which throws `length_error`.
unfoldable pub new_vector : ℤ → Outcome (List ℤ)
new_vector (pos n) = ok (replicate n (pos 0))
new_vector (negsuc n) = throw (codes "std::length_error")

-- `v[index] = x`, which C++ does not check.
unfoldable pub write_at {ℓ} : {A : Type ℓ} → List A → ℤ → A → Outcome (List A)
write_at xs (pos i) x = if ltb i (length xs) then ok (set xs i x) else fault out_of_bounds
write_at xs (negsuc i) x = fault out_of_bounds

module _ {D : Type 0} where
  -- The body of the loop of `RewriteValues`, at the member `n : v`.
  unfoldable pub rewrite_value :
      HistogramDefinition → Bytes → Value D → List ℤ → Outcome (Option (List ℤ))
  unfolding write_at
  rewrite_value d n (int i) rewrite =
      let index = get_bucket_index d (strtol (c_str n)) in
      if is_int32 i
      then (if eqb_ℤ index (negsuc 0)
          then ok none
          else (do rewrite' ← write_at rewrite index i; ok (some rewrite')))
      else ok none
  rewrite_value d n _ rewrite = ok none

  unfoldable pub rewrite_loop : HistogramDefinition → Members D → List ℤ → Outcome (Option (List ℤ))
  rewrite_loop d end rewrite = ok (some rewrite)
  rewrite_loop d (member n v ms) rewrite = do
    r ← rewrite_value d n v rewrite
    elim r [ none ↦ ok none | some rewrite' ↦ rewrite_loop d ms rewrite' ]

  abbrev pub loop_of : HistogramDefinition → Value D → List ℤ → Outcome (Option (List ℤ))
  loop_of d (object ms) rewrite = rewrite_loop d ms rewrite
  loop_of d _ rewrite = ok none

-- What the loop of `RewriteHistogram` leaves behind at one member.
pub record Entry (D : Type 0) : Type 0 where
  pub name : Bytes
  pub value : Value D
  pub summary : List D
  pub result : Bool

-- The name that a definition is found under, and the definition. A name that `strncmp` tells
-- apart from "STARTUP_" is looked up again from its ninth byte on.
unfoldable pub resolve :
    HistogramSpecification → Bytes → Outcome (Option (Bytes × HistogramDefinition))
resolve spec n =
    let name = c_str n in
    elim (get_definition spec name) [
      | some hd ↦ ok (some (n, hd))
      | none ↦
          if not (bytes_eq (take 8 name) (codes "STARTUP_"))
          then (if ltb (length name) 8
              then fault out_of_bounds
              else ok (elim (get_definition spec (drop 8 name)) [
                | none ↦ none
                | some hd ↦ some (drop 8 name, hd)
              ]))
          else ok none
    ]

module _ (J : Rapidjson) where
  open J use {Double, of_int}

  -- `RewriteValues`
  unfoldable pub rewrite_values :
      HistogramDefinition → Value Double → List ℤ → Outcome (Option (List ℤ))
  unfolding rewrite_loop
  rewrite_values d data_value rewrite = do
    values ← at J data_value (codes "values")
    loop_of d values rewrite

  abbrev pub summary_value : Value Double → Double
  summary_value v = elim (get_double J v) [ none ↦ of_int (negsuc 0) | some x ↦ x ]

  -- The loop over `kExtraBuckets`
  unfoldable pub fill_summary :
      Members Double → List Bytes → ℕ → List Double → Outcome (List Double)
  fill_summary ms [] x summary = ok summary
  fill_summary ms (k ∷ ks) x summary = do
    summary' ← write_at summary (pos x) (summary_value (lookup J ms k))
    fill_summary ms ks (x + 1) summary'

  -- `SetArray` and the `PushBack` of the counts and the summary
  abbrev pub rewritten : List ℤ → List Double → Value Double
  rewritten counts summary = array (of_list (map int counts ++ map double summary))

  -- The part of the loop body where the definition was found
  unfoldable pub rewrite_object :
      Bytes → HistogramDefinition → Members Double → List Double → Outcome (Entry Double)
  unfolding new_vector rewrite_values fill_summary
  rewrite_object n hd ms summary = do
    zeros ← new_vector (get_bucket_count hd)
    r ← rewrite_values hd (object ms) zeros
    elim r [
      | none ↦ ok (record { name = n; value = object ms; summary = summary; result = false })
      | some counts ↦ (do
        summary' ← fill_summary ms extra_buckets 0 summary
        ok (record {
          name = n;
          value = rewritten counts summary';
          summary = summary';
          result = true;
        }))
    ]

  -- The body of the loop of `RewriteHistogram`, at the member `n : v`
  unfoldable pub rewrite_entry :
      HistogramSpecification → Bytes → Value Double → List Double → Outcome (Entry Double)
  unfolding resolve rewrite_object
  rewrite_entry spec n (object ms) summary = do
    found ← resolve spec n
    elim found [
      | none ↦ ok (record { name = n; value = object ms; summary = summary; result = true })
      | some (n', hd) ↦ rewrite_object n' hd ms summary
    ]
  rewrite_entry spec n v summary =
      ok (record { name = n; value = v; summary = summary; result = true })

  unfoldable pub rewrite_members :
      HistogramSpecification → Members Double → List Double → Outcome (Members Double × Bool)
  rewrite_members spec end summary = ok (end, true)
  rewrite_members spec (member n v ms) summary = do
    e ← rewrite_entry spec n v summary
    let rest = rewrite_members spec ms e.summary
    if e.result
        then (do r ← rest; ok (member e.name e.value r.0, r.1))
        else ok (member e.name e.value ms, false)

  -- `RewriteHistogram`: the members as the loop leaves them, and its result
  unfoldable pub rewrite_histogram :
      HistogramSpecification → Members Double → Outcome (Members Double × Bool)
  unfolding rewrite_members
  rewrite_histogram spec ms =
      rewrite_members spec ms (replicate extra_buckets_size (of_int (pos 0)))
