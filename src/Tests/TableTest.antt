-- ===== src/Tests/TableTest.antt =====
-- Runs of common/HistogramSpecification.cpp: the order of a table, its hashing, and its memory.
use mathlib.Core.Quot
use mozilla_telemetry.Prelude.{ℕ, ◌+◌, ◌≡◌, refl, List, [], ◌∷◌, Bytes, codes, c_str}
use mozilla_telemetry.Prelude.Int.{ℤ}
use mozilla_telemetry.Outcome.{ok, fault, out_of_bounds}
use mozilla_telemetry.Json.{object, Members, end, member}
use mozilla_telemetry.Specification.{
  HistogramDefinition, HistogramSpecification, load_members, new_definition, load_buckets,
  insert_bucket, find_bucket, insert_definition, find_definition,
}
use mozilla_telemetry.Specification.Order.{Table, Reordered, swap}
use mozilla_telemetry.Specification.Hashing.{cstring_hash, cstring_equal_to}
use mozilla_telemetry.Specification.Hashing.Loaded.{Agree, load_table, load_table-load_members}
use mozilla_telemetry.Specification.Hashing.Chained.{chained}
use mozilla_telemetry.Specification.Ownership.{load_owned, destroy-load_owned}
use mozilla_telemetry.Specification.Ownership.Memory.{
  OwnedEntry, Owned, destroy, definitions, repeated,
}
use mozilla_telemetry.Converter.{rewrite_histogram}
use mozilla_telemetry.Converter.Order.{rewrite_histogram-Reordered}
use mozilla_telemetry.Tests.Instances.{sample_json}
use mozilla_telemetry.Tests.SpecificationTest.{
  cast_digit, definition_members, flag, flag_definition,
}

abbrev other : Bytes
other = codes "A11Y"

abbrev flag_first : Members ℤ
flag_first = member flag (object definition_members) (member other (object definition_members) end)

abbrev other_first : Members ℤ
other_first = member other (object definition_members) (member flag (object definition_members) end)

abbrev both : HistogramSpecification
both = (other, flag_definition) ∷ (flag, flag_definition) ∷ []

program : Unit {0}
unfolding load_members new_definition load_buckets insert_bucket find_bucket insert_definition
    find_definition c_str
program = tt

both_loaded : load_members sample_json cast_digit flag_first [] ≡ ok both
unfolding program
both_loaded = refl

swapped : Reordered flag_first other_first
unfolding c_str
swapped = swap refl

rewrite_histogram-Reordered_example :
    (spec' : HistogramSpecification) × (load_members sample_json cast_digit other_first []
      ≡ ok spec')
    × (◌≡◌ {A = Table} (Quot.mk both) (Quot.mk spec'))
    × ((hs : Members ℤ)
        → rewrite_histogram sample_json both hs ≡ rewrite_histogram sample_json spec' hs)
rewrite_histogram-Reordered_example =
    rewrite_histogram-Reordered sample_json cast_digit flag_first other_first both swapped
      both_loaded

-- `hash_combine` as a sum, and a table of four buckets
abbrev combine : ℕ → ℕ → ℕ
combine seed c = seed + c

load_table-load_members_example :
    Agree sample_json cast_digit combine
      (chained HistogramDefinition (cstring_hash combine) cstring_equal_to 3)
      (load_table sample_json cast_digit combine
        (chained HistogramDefinition (cstring_hash combine) cstring_equal_to 3)
        flag_first
        (λ i. []))
      (load_members sample_json cast_digit flag_first [])
load_table-load_members_example =
    load_table-load_members sample_json cast_digit combine
      (chained HistogramDefinition (cstring_hash combine) cstring_equal_to 3) flag_first

-- The name of the second member is that of the first.
abbrev twice : Members ℤ
twice = member flag (object definition_members) (member flag (object definition_members) end)

twice_loaded : load_members sample_json cast_digit twice [] ≡ ok ((flag, flag_definition) ∷ [])
unfolding program
twice_loaded = refl

-- The second member's blocks
leaks : repeated [] twice 0 [] ≡ 3 ∷ 2 ∷ []
unfolding c_str
leaks = refl

-- An entry whose two pointers point to one block
abbrev twice_deleted : List OwnedEntry
twice_deleted = record { name = flag; key = 1; definition = flag_definition; hd = 1 } ∷ []

-- To delete a block twice is a fault.
deletes_twice : destroy twice_deleted (1 ∷ 0 ∷ []) ≡ fault out_of_bounds
unfolding destroy
deletes_twice = refl

destroy-load_owned_example :
    (σ : Owned) × (load_owned sample_json cast_digit twice
        (record { entries = []; live = []; next = 0 })
      ≡ (ok tt, σ))
    × (definitions σ.entries ≡ (flag, flag_definition) ∷ [])
    × (destroy σ.entries σ.live ≡ ok (repeated [] twice 0 []))
destroy-load_owned_example =
    destroy-load_owned sample_json cast_digit twice ((flag, flag_definition) ∷ []) twice_loaded
