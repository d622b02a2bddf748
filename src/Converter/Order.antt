-- ===== src/Converter/Order.antt =====
-- common/HistogramConverter.cpp with common/HistogramSpecification.cpp: the conversion does not see the
-- order of a table of definitions.
use mathlib.Core.Quot
use mozilla_telemetry.Prelude.{
  ◌≡◌, refl, false, Option, List, [], arith, drop, Bytes, c_str, if◌then◌else◌,
}
use mozilla_telemetry.Prelude.Int.{ℤ}
use mozilla_telemetry.Outcome.{ok, ◌>>=◌}
use mozilla_telemetry.Json.{Value, object, Members, end, member, Rapidjson}
use mozilla_telemetry.Specification.{HistogramSpecification, load_members}
use mozilla_telemetry.Specification.Order.{Same, Table, Reordered, load_members-Table, Table-Same}
use mozilla_telemetry.Converter.{resolve, rewrite_entry, rewrite_members, rewrite_histogram}

module _ (spec spec' : HistogramSpecification) (same : Same spec spec') where
  resolve-Same : (n : Bytes) → resolve spec n ≡ resolve spec' n
  unfolding resolve
  resolve-Same n = ground (arith, same (c_str n), same (drop 8 (c_str n)))

  module _ (J : Rapidjson) where
    open J use {Double}

    entry-Same :
        (n : Bytes) (v : Value Double) (summary : List Double)
        → rewrite_entry J spec n v summary ≡ rewrite_entry J spec' n v summary
    unfolding rewrite_entry
    entry-Same n (object ms) summary = rw (resolve-Same n, rewrite_entry) refl
    entry-Same n v summary = refl

    members-Same :
        (ms : Members Double) (summary : List Double)
        → rewrite_members J spec ms summary ≡ rewrite_members J spec' ms summary
    unfolding rewrite_members
    members-Same end summary = refl
    members-Same (member n v ms) summary = λ i. entry-Same n v summary i >>= λ e.
        if e.result
        then (members-Same ms e.summary i >>= λ r. ok (member e.name e.value r.0, r.1))
        else ok (member e.name e.value ms, false)

    rewrite_histogram-Same :
        (hs : Members Double) → rewrite_histogram J spec hs ≡ rewrite_histogram J spec' hs
    unfolding rewrite_histogram
    rewrite_histogram-Same hs = members-Same hs _

module _ (J : Rapidjson) (lexical_cast : Bytes → Option ℤ) where
  open J use {Double}

  -- Where the member `histograms` of a specification is loaded, it is loaded in every other order of
  -- members of different names too; the two tables are equal up to their order, and `RewriteHistogram`
  -- does the same with both to every object of histograms, faults and exceptions included.
  pub rewrite_histogram-Reordered :
      (ms ms' : Members Double) (spec : HistogramSpecification)
      → Reordered ms ms'
      → load_members J lexical_cast ms [] ≡ ok spec
      → (spec' : HistogramSpecification) × (load_members J lexical_cast ms' [] ≡ ok spec')
        × (◌≡◌ {A = Table} (Quot.mk spec) (Quot.mk spec'))
        × ((hs : Members Double) → rewrite_histogram J spec hs ≡ rewrite_histogram J spec' hs)
  rewrite_histogram-Reordered ms ms' spec r h =
      let (spec', loaded, equal) = load_members-Table J lexical_cast ms ms' spec r h in
      (spec', loaded, equal, rewrite_histogram-Same spec spec' (Table-Same spec spec' equal) J)
