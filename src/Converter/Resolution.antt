-- ===== src/Converter/Resolution.antt =====
-- Which definition `RewriteHistogram` looks up for a name.
use mozilla_telemetry.Prelude.{
  ap, ◌<◌, ◌≤◌, ◌≡◌, ◌↔◌, ◌⊎◌, inl, inr, Option-cases, true, false, none, some, arith, length,
  length-take-le, take, drop, Bytes, codes, c_str, bytes_eq, bytes_eq_iff,
}
use mozilla_telemetry.Outcome.{ok, fault, out_of_bounds}
use mozilla_telemetry.Specification.{HistogramDefinition, HistogramSpecification, get_definition}
use mozilla_telemetry.Converter.{resolve}

module _ (spec : HistogramSpecification) where
  prefix_length :
      (name : Bytes) → bytes_eq (take 8 name) (codes "STARTUP_") ≡ true → 8 ≤ length name
  prefix_length name h =
      let e = (bytes_eq_iff (take 8 name) (codes "STARTUP_")).0 h in
      omega (arith, ap length e, length-take-le 8 name)

  -- A definition is found for a name exactly where it is that of the whole name; or where the whole name
  -- has none, has eight bytes or more and does not start with "STARTUP_", and it is that of what follows
  -- the first eight bytes, which the histogram is then named. So the prefix "STARTUP_" is never chopped
  -- off, and eight bytes of any other name are.
  pub resolve-some_iff :
      (n m : Bytes) (hd : HistogramDefinition)
      → (resolve spec n ≡ ok (some (m, hd))) ↔ (
          ((get_definition spec (c_str n) ≡ some hd) × (m ≡ n))
          ⊎ ((get_definition spec (c_str n) ≡ none)
              × (8 ≤ length (c_str n))
              × (bytes_eq (take 8 (c_str n)) (codes "STARTUP_") ≡ false)
              × (m ≡ drop 8 (c_str n))
              × (get_definition spec m ≡ some hd)))
  unfolding resolve
  resolve-some_iff n m hd = elim (Option-cases (get_definition spec (c_str n))) [
    | inr (d, there) ↦ ground (arith, there)
    | inl missing ↦ elim (Option-cases (get_definition spec (drop 8 (c_str n)))) [
      | inl none_left ↦ ground (arith, missing, none_left)
      | inr (d, there) ↦ ground (arith, missing, there)
    ]
  ]

  -- The lookup leaves the bytes of the name exactly if the name has no definition and fewer
  -- than eight bytes.
  pub resolve-fault_iff :
      (n : Bytes)
      → (resolve spec n ≡ fault out_of_bounds)
        ↔ ((get_definition spec (c_str n) ≡ none) × (length (c_str n) < 8))
  unfolding resolve
  resolve-fault_iff n = ground (arith, prefix_length (c_str n))
