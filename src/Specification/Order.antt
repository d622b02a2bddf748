-- ===== src/Specification/Order.antt =====
-- common/HistogramSpecification.cpp: the table that `LoadDefinitions` makes, without its order. The hash
-- table of the source has an order that no standard fixes, and the list of the model one that follows the
-- document; what `GetDefinition` answers is all that the program sees of either.
use mathlib.Core.Quot
use mathlib.Core.Quot.{Quot, Quot-set}
use mozilla_telemetry.Prelude.{
  ◌≡◌, refl, sym, ◌∙◌, ap, false, Option, [], arith, Bytes, c_str, bytes_eq, bytes_eq_iff,
}
use mozilla_telemetry.Prelude.Int.{ℤ}
use mozilla_telemetry.Outcome.{ok}
use mozilla_telemetry.Json.{Value, object, Members, end, member, Rapidjson}
use mozilla_telemetry.Specification.{
  HistogramDefinition, HistogramSpecification, find_definition, insert_definition, get_definition,
  load_members,
}
use mozilla_telemetry.Specification.Names.{
  first_definition, AllAccepted, load_members-first_definition,
}

-- Two tables have the same definition under every name.
abbrev pub Same : HistogramSpecification → HistogramSpecification → Type 0
Same spec spec' = (name : Bytes) → get_definition spec name ≡ get_definition spec' name

-- A table up to its order
abbrev pub Table : Type 0
Table = Quot Same

-- The same members in another order, where members that change places have different names as C strings.
pub data Reordered {D : Type 0} : Members D → Members D → Type 0 where
  same : {ms : Members D} → Reordered ms ms
  keep :
      {n : Bytes} {v : Value D} {ms ms' : Members D}
      → Reordered ms ms'
      → Reordered (member n v ms) (member n v ms')
  swap :
      {n n' : Bytes} {v v' : Value D} {ms : Members D}
      → bytes_eq (c_str n) (c_str n') ≡ false
      → Reordered (member n v (member n' v' ms)) (member n' v' (member n v ms))
  then : {ms ms' ms'' : Members D} → Reordered ms ms' → Reordered ms' ms'' → Reordered ms ms''

module _ (J : Rapidjson) (lexical_cast : Bytes → Option ℤ) where
  open J use {Double}

  first_definition-swap :
      (k n n' : Bytes) (v v' : Value Double) (ms : Members Double)
      → bytes_eq (c_str n) (c_str n') ≡ false
      → first_definition J lexical_cast k (member n v (member n' v' ms))
        ≡ first_definition J lexical_cast k (member n' v' (member n v ms))
  unfolding first_definition
  first_definition-swap k n n' v v' ms h = ground (
    arith,
    bytes_eq_iff (c_str n) k,
    bytes_eq_iff (c_str n') k,
    bytes_eq_iff (c_str n) (c_str n'),
  )

  first_definition-Reordered :
      (k : Bytes) (ms ms' : Members Double)
      → Reordered ms ms'
      → first_definition J lexical_cast k ms ≡ first_definition J lexical_cast k ms'
  unfolding first_definition
  first_definition-Reordered k ms ms' same = refl
  first_definition-Reordered k _ _ (keep {n = n} {v = v} {ms = ms} {ms' = ms'} r) =
      ground (arith, first_definition-Reordered k ms ms' r)
  first_definition-Reordered k _ _ (swap h) = first_definition-swap k _ _ _ _ _ h
  first_definition-Reordered k ms ms'' (then r s) =
      first_definition-Reordered k _ _ r ∙ first_definition-Reordered k _ _ s

  AllAccepted-Reordered :
      (ms ms' : Members Double)
      → Reordered ms ms'
      → AllAccepted J lexical_cast ms
      → AllAccepted J lexical_cast ms'
  AllAccepted-Reordered ms ms' same h = h
  AllAccepted-Reordered _ _ (keep r) h = (h.0, AllAccepted-Reordered _ _ r h.1)
  AllAccepted-Reordered _ _ (swap d) h = (h.1.0, (h.0, h.1.1))
  AllAccepted-Reordered ms ms'' (then r s) h =
      AllAccepted-Reordered _ _ s (AllAccepted-Reordered _ _ r h)

  -- Members that are all accepted are loaded.
  load_members-AllAccepted :
      (ms : Members Double) (ds : HistogramSpecification)
      → AllAccepted J lexical_cast ms
      → (ds' : HistogramSpecification) × (load_members J lexical_cast ms ds ≡ ok ds')
  unfolding load_members
  load_members-AllAccepted end ds h = (ds, refl)
  load_members-AllAccepted (member n (object os) ms) ds ((_, d, shape, made), later) =
      rw (made, load_members) (load_members-AllAccepted ms (insert_definition (c_str n) d ds) later)
  load_members-AllAccepted (member n v ms) ds ((os, d, shape, made), later) = cc shape

  load_members-Same :
      (ms ms' : Members Double) (spec spec' : HistogramSpecification)
      → Reordered ms ms'
      → load_members J lexical_cast ms [] ≡ ok spec
      → load_members J lexical_cast ms' [] ≡ ok spec'
      → Same spec spec'
  unfolding get_definition find_definition
  load_members-Same ms ms' spec spec' r h k name =
      let a = load_members-first_definition J lexical_cast ms [] spec h in
      let b = load_members-first_definition J lexical_cast ms' [] spec' k in
      a.1 (c_str name) ∙ first_definition-Reordered (c_str name) ms ms' r ∙ sym (b.1 (c_str name))

  -- Where `LoadDefinitions` loads the members of `histograms`, it loads them in every other order of
  -- members of different names too, and makes the same table up to its order.
  pub load_members-Table :
      (ms ms' : Members Double) (spec : HistogramSpecification)
      → Reordered ms ms'
      → load_members J lexical_cast ms [] ≡ ok spec
      → (spec' : HistogramSpecification) × (load_members J lexical_cast ms' [] ≡ ok spec')
        × (◌≡◌ {A = Table} (Quot.mk spec) (Quot.mk spec'))
  load_members-Table ms ms' spec r h =
      let all = (load_members-first_definition J lexical_cast ms [] spec h).0 in
      let (spec', loaded) = load_members-AllAccepted ms' [] (AllAccepted-Reordered ms ms' r all) in
      (spec', loaded, Quot.sound (load_members-Same ms ms' spec spec' r h loaded))

pub Option-IsSet : IsSet (Option HistogramDefinition)
Option-IsSet = hlevel

-- `GetDefinition` of a table without its order
abbrev pub definition_in : Table → Bytes → Option HistogramDefinition
definition_in t name =
    Quot.lift Option-IsSet (λ spec. get_definition spec name) (λ spec spec' h. h name) t

-- Tables that are equal up to their order answer alike.
pub Table-Same :
    (spec spec' : HistogramSpecification)
    → ◌≡◌ {A = Table} (Quot.mk spec) (Quot.mk spec')
    → Same spec spec'
Table-Same spec spec' e name = ap (λ (t : Table). definition_in t name) e
