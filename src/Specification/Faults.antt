-- ===== src/Specification/Faults.antt =====
-- common/HistogramSpecification.cpp: the faults of the constructors. `F` is what may be said of a fault.
use mozilla_telemetry.Prelude.{
  ℕ, ◌+◌, ◌≡◌, refl, true, false, Option, Option-cases, inl, inr, List, [], ◌∷◌, Bytes, c_str,
}
use mozilla_telemetry.Prelude.Int.{ℤ, is_int32}
use mozilla_telemetry.Outcome.{Fault, failed_assertion, ok, throw, require, rethrow}
use mozilla_telemetry.Outcome.Ensures.{
  Ensures, Any, >>=-Ensures, if-Ensures, require-Ensures, rethrow-Ensures, Ensures-Any,
}
use mozilla_telemetry.Json.{
  Value, int, string, array, object, Members, end, member, is_object, Rapidjson, Parsed,
  parse_error, document, at,
}
use mozilla_telemetry.Specification.{
  HistogramSpecification, require_string, require_int, require_array, require_object, load_buckets,
  insert_bucket, cast_int, check_count, insert_definition, new_definition, load_members,
  load_definitions, new_specification, in_key,
}

module _ (F : Fault → Type 0) where
  module _ {D : Type 0} where
    pub require_string-Ensures :
        (v : Value D) (what : Bytes) → Ensures F Any (require_string v what)
    require_string-Ensures (string s) what = tt
    require_string-Ensures v what = tt

    pub require_int-Ensures : (v : Value D) (what : Bytes) → Ensures F Any (require_int v what)
    require_int-Ensures (int z) what =
        if-Ensures F Any (is_int32 z) (ok z) (throw what) (λ h. tt) (λ h. tt)
    require_int-Ensures v what = tt

    pub require_array-Ensures : (v : Value D) (what : Bytes) → Ensures F Any (require_array v what)
    require_array-Ensures (array vs) what = tt
    require_array-Ensures v what = tt

    require_object-Ensures : (v : Value D) (what : Bytes) → Ensures F Any (require_object v what)
    require_object-Ensures (object ms) what = tt
    require_object-Ensures v what = tt

    load_buckets-Ensures :
        (vs : List (Value D)) (index : ℕ) (bs : List (ℤ × ℕ))
        → Ensures F Any (load_buckets vs index bs)
    unfolding load_buckets
    load_buckets-Ensures [] index bs = tt
    load_buckets-Ensures (v ∷ vs) index bs =
        >>=-Ensures F Any Any (require_int v _) _ (require_int-Ensures v _)
          (λ k u. load_buckets-Ensures vs (index + 1) (insert_bucket k index bs))

  cast_int-Ensures : (cast : Bytes → Option ℤ) (s : Bytes) → Ensures F Any (cast_int cast s)
  unfolding cast_int
  cast_int-Ensures cast s = elim (Option-cases (cast (c_str s))) [
    | inl e ↦ rw (e, cast_int) tt
    | inr (z, e) ↦ rw (e, cast_int) tt
  ]

  module _ (J : Rapidjson) where
    open J use {Double}

    -- `operator[]` of an object
    pub at-Ensures : (v : Value Double) (k : Bytes) → is_object v ≡ true → Ensures F Any (at J v k)
    at-Ensures (object ms) k h = tt
    at-Ensures v k h = cc h

    -- `operator[]` of a document, where a fault is allowed if it is no object
    pub document-Ensures :
        (v : Value Double) (k : Bytes)
        → (is_object v ≡ false → F failed_assertion)
        → Ensures F (λ w. is_object v ≡ true) (at J v k)
    document-Ensures (object ms) k h = refl
    document-Ensures v k h = h refl

  module _ (J : Rapidjson) (lexical_cast : Bytes → Option ℤ) where
    open J use {Double, parse}

    new_definition-Ensures :
        (v : Value Double) → is_object v ≡ true → Ensures F Any (new_definition J lexical_cast v)
    unfolding new_definition check_count
    new_definition-Ensures v o = >>=-Ensures F Any Any (at J v _) _ (at-Ensures J v _ o) λ k _.
        >>=-Ensures F Any Any (require_string k _) _ (require_string-Ensures k _) λ text _.
          >>=-Ensures F Any Any (cast_int lexical_cast text) _ (cast_int-Ensures lexical_cast text)
            λ kind _. >>=-Ensures F Any Any (at J v _) _ (at-Ensures J v _ o) λ mn _.
              >>=-Ensures F Any Any (require_int mn _) _ (require_int-Ensures mn _) λ min _.
                >>=-Ensures F Any Any (at J v _) _ (at-Ensures J v _ o) λ mx _.
                  >>=-Ensures F Any Any (require_int mx _) _ (require_int-Ensures mx _) λ max _.
                    >>=-Ensures F Any Any (at J v _) _ (at-Ensures J v _ o) λ b _.
                      >>=-Ensures F Any Any (require_int b _) _ (require_int-Ensures b _) λ count _.
                        >>=-Ensures F Any Any (at J v _) _ (at-Ensures J v _ o) λ a _.
                          >>=-Ensures F Any Any (require_array a _) _ (require_array-Ensures a _)
                            λ vs _.
                              >>=-Ensures F Any Any (load_buckets vs 0 []) _
                                (load_buckets-Ensures vs 0 [])
                                λ loaded _.
                                  >>=-Ensures F Any Any (check_count count loaded.0) _
                                    (Ensures-Any F _ (check_count count loaded.0)
                                      (require-Ensures F _ _))
                                    (λ u _. tt)

    load_members-Ensures :
        (ms : Members Double) (ds : HistogramSpecification)
        → Ensures F Any (load_members J lexical_cast ms ds)
    unfolding load_members
    load_members-Ensures end ds = tt
    load_members-Ensures (member n v ms) ds =
        >>=-Ensures F (λ u. is_object v ≡ true) Any (require (is_object v) _) _
          (require-Ensures F (is_object v) _)
          λ u o.
            >>=-Ensures F Any Any (rethrow (in_key (c_str n)) (new_definition J lexical_cast v)) _
              (rethrow-Ensures F Any (in_key (c_str n)) (new_definition J lexical_cast v)
                (new_definition-Ensures v o))
              (λ hd _. load_members-Ensures ms (insert_definition (c_str n) hd ds))

    parsed-Ensures :
        (json : Bytes) (p : Parsed Double)
        → parse (c_str json) ≡ p
        → ((doc : Value Double) → p ≡ document doc → is_object doc ≡ false → F failed_assertion)
        → Ensures F Any (new_specification J lexical_cast json)
    unfolding new_specification load_definitions
    parsed-Ensures json (parse_error e) h blame = rw (h, new_specification) tt
    parsed-Ensures json (document doc) h blame =
        rw (h, new_specification)
          (>>=-Ensures F Any Any (at J doc _) _
            (Ensures-Any F _ (at J doc _) (document-Ensures J doc _ (blame doc refl)))
            λ histograms _.
              >>=-Ensures F Any Any (require_object histograms _) _
                (require_object-Ensures histograms _) (λ ms _. load_members-Ensures ms []))

    -- A specification is loaded without a fault, unless its text is a document that is no object.
    pub new_specification-Ensures :
        (json : Bytes)
        → ((doc : Value Double)
            → parse (c_str json) ≡ document doc
            → is_object doc ≡ false
            → F failed_assertion)
        → Ensures F Any (new_specification J lexical_cast json)
    new_specification-Ensures json blame = parsed-Ensures json (parse (c_str json)) refl blame
