-- ===== src/Cache/Tables.antt =====
-- common/HistogramCache.cpp: tables whose specifications are all of well-formed definitions.
use mozilla_telemetry.Prelude.{
  ◌≡◌, subst, ◌⊎◌, inl, inr, true, Bool-cases, Option-cases, Option, none, some, [], ◌∷◌, arith,
  Bytes, bytes_eq,
}
use mozilla_telemetry.Specification.{HistogramSpecification}
use mozilla_telemetry.Converter.Histograms.{AllWellFormed}
use mozilla_telemetry.Cache.{Table, find_entry, insert_entry}

-- A pointer is null or to such a specification.
abbrev pub IsGood : Option HistogramSpecification → Type 0
IsGood none = Unit
IsGood (some spec) = AllWellFormed spec

abbrev pub IsGoodTable : Table → Type 0
IsGoodTable [] = Unit
IsGoodTable ((k, o) ∷ es) = IsGood o × IsGoodTable es

first_entry :
    (k j : Bytes) (p o : Option HistogramSpecification) (es : Table)
    → bytes_eq j k ≡ true
    → find_entry k ((j, p) ∷ es) ≡ some o
    → p ≡ o
unfolding find_entry
first_entry k j p o es same h = ground (arith, same)

pub find_entry-IsGood :
    (k : Bytes) (es : Table) (o : Option HistogramSpecification)
    → IsGoodTable es
    → find_entry k es ≡ some o
    → IsGood o
unfolding find_entry
find_entry-IsGood k [] o good h = cc
find_entry-IsGood k ((j, p) ∷ es) o good h = elim (Bool-cases (bytes_eq j k)) [
  | inl same ↦ subst IsGood (first_entry k j p o es same h) good.0
  | inr other ↦ find_entry-IsGood k es o good.1 (rw other at h)
]

insert_entry-cases :
    (k : Bytes) (o : Option HistogramSpecification) (es : Table)
    → (insert_entry k o es ≡ (k, o) ∷ es) ⊎ (insert_entry k o es ≡ es)
unfolding insert_entry
insert_entry-cases k o es = elim (Option-cases (find_entry k es)) [
  | inl e ↦ inl (ground (arith, e))
  | inr (p, e) ↦ inr (ground (arith, e))
]

pub insert_entry-IsGood :
    (k : Bytes) (o : Option HistogramSpecification) (es : Table)
    → IsGood o
    → IsGoodTable es
    → IsGoodTable (insert_entry k o es)
insert_entry-IsGood k o es h good = elim (insert_entry-cases k o es) [
  | inl e ↦ rw e (h, good)
  | inr e ↦ rw e good
]
