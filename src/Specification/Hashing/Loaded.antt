-- ===== src/Specification/Hashing/Loaded.antt =====
-- common/HistogramSpecification.cpp: `LoadDefinitions` and `GetDefinition` over any `unordered_map`.
use mozilla_telemetry.Prelude.{
  ℕ, ◌≡◌, refl, sym, ◌∙◌, ap, Option, none, some, [], Bytes, c_str, c_str_idem, bytes_eq,
  if◌then◌else◌,
}
use mozilla_telemetry.Prelude.Int.{ℤ}
use mozilla_telemetry.Outcome.{Outcome, ok, throw, fault, ◌>>=◌, ◌>>◌, require, rethrow}
use mozilla_telemetry.Json.{Members, end, member, is_object, Rapidjson}
use mozilla_telemetry.Specification.{
  HistogramDefinition, HistogramSpecification, find_definition, insert_definition, get_definition,
  new_definition, not_a_definition, in_key, load_members,
}
use mozilla_telemetry.Specification.Buckets.{or_else}
use mozilla_telemetry.Specification.Names.{find_definition-insert_definition}
use mozilla_telemetry.Specification.Hashing.{
  cstring_equal_to, cstring_hash, cstring-IsHashable, UnorderedMap,
}

module _ (J : Rapidjson) (lexical_cast : Bytes → Option ℤ) (combine : ℕ → ℕ → ℕ)
    (M : UnorderedMap HistogramDefinition (cstring_hash combine) cstring_equal_to) where
  open J use {Double}

  -- The loop of `LoadDefinitions` over the table
  unfoldable pub load_table : Members Double → M.Table → Outcome M.Table
  load_table end t = ok t
  load_table (member n v ms) t = do
    require (is_object v) (not_a_definition (c_str n))
    hd ← rethrow (in_key (c_str n)) (new_definition J lexical_cast v)
    load_table ms (M.insert (c_str n) hd t)

  -- The table answers `GetDefinition` as the list does.
  abbrev pub Represents : M.Table → HistogramSpecification → Type 0
  Represents t spec = (name : Bytes) → M.find name t ≡ get_definition spec name

  -- Both return, with tables that answer alike, or both end by one exception or fault.
  abbrev pub Agree : Outcome M.Table → Outcome HistogramSpecification → Type 0
  Agree (ok t) (ok spec) = Represents t spec
  Agree (throw what) (throw what') = what ≡ what'
  Agree (fault kind) (fault kind') = kind ≡ kind'
  Agree _ _ = ⊥

  bind-Agree :
      {A : Type 0} (m : Outcome A) (f : A → Outcome M.Table)
      (g : A → Outcome HistogramSpecification)
      → ((a : A) → Agree (f a) (g a))
      → Agree (m >>= f) (m >>= g)
  bind-Agree (ok a) f g h = h a
  bind-Agree (throw what) f g h = refl
  bind-Agree (fault kind) f g h = refl

  insert-Represents :
      (n : Bytes) (hd : HistogramDefinition) (t : M.Table) (spec : HistogramSpecification)
      → Represents t spec
      → Represents (M.insert (c_str n) hd t) (insert_definition (c_str n) hd spec)
  unfolding cstring_equal_to get_definition
  insert-Represents n hd t spec h name =
      M.find-insert (cstring-IsHashable combine) name (c_str n) hd t
      ∙ ap
          (λ (o : Option HistogramDefinition).
            or_else o (if bytes_eq (c_str (c_str n)) (c_str name) then some hd else none))
          (h name)
      ∙ ap
          (λ (s : Bytes).
            or_else (find_definition (c_str name) spec)
              (if bytes_eq s (c_str name) then some hd else none))
          (c_str_idem n)
      ∙ sym (find_definition-insert_definition (c_str name) (c_str n) hd spec)

  load_from :
      (ms : Members Double) (t : M.Table) (spec : HistogramSpecification)
      → Represents t spec
      → Agree (load_table ms t) (load_members J lexical_cast ms spec)
  unfolding load_table load_members
  load_from end t spec h = h
  load_from (member n v ms) t spec h =
      bind-Agree (require (is_object v) (not_a_definition (c_str n))) _ _ λ u.
        bind-Agree (rethrow (in_key (c_str n)) (new_definition J lexical_cast v)) _ _ λ hd.
          load_from ms (M.insert (c_str n) hd t) (insert_definition (c_str n) hd spec)
            (insert-Represents n hd t spec h)

  -- Over any `unordered_map` that keeps its promises, whatever `hash_combine` does, `LoadDefinitions`
  -- does to every object of definitions what the model does with its list: it throws the same exception,
  -- or returns a table in which `GetDefinition` finds the same under every name.
  pub load_table-load_members :
      (ms : Members Double) → Agree (load_table ms M.empty) (load_members J lexical_cast ms [])
  unfolding get_definition find_definition
  load_table-load_members ms =
      load_from ms M.empty [] (λ name. M.find-empty (cstring-IsHashable combine) name)
