-- ===== src/Specification/Acceptance.antt =====
-- Which JSON objects the constructor of `HistogramDefinition` accepts.
use mozilla_telemetry.Prelude.{
  ℕ, ◌+◌, ◌≡◌, ◌↔◌, true, Option, some, List, [], arith, ap, sym, ◌∙◌, length, Bytes, codes, c_str,
}
use mozilla_telemetry.Prelude.Int.{ℤ, pos, is_int32, eqb_ℤ_iff}
use mozilla_telemetry.Outcome.{ok}
use mozilla_telemetry.Json.{int, string, array, object, Items, Members, items, Rapidjson, lookup}
use mozilla_telemetry.Specification.{HistogramDefinition, find_bucket, load_buckets, new_definition}
use mozilla_telemetry.Specification.Buckets.{
  IsTableOf, load_buckets-first_index, load_buckets-ints, load_buckets_total,
}

module _ (J : Rapidjson) (lexical_cast : Bytes → Option ℤ) where
  open J use {Double}

  -- The members that a definition needs, with their types, and the definition that they make.
  pub record Describes (ms : Members Double) (d : HistogramDefinition) : Type 0 where
    pub text : Bytes
    pub elements : Items Double
    pub kind : lookup J ms (codes "kind") ≡ string text
    pub kind_value : lexical_cast (c_str text) ≡ some d.kind
    pub min : lookup J ms (codes "min") ≡ int d.min
    pub min_range : is_int32 d.min ≡ true
    pub max : lookup J ms (codes "max") ≡ int d.max
    pub max_range : is_int32 d.max ≡ true
    pub bucket_count : lookup J ms (codes "bucket_count") ≡ int d.bucket_count
    pub bucket_count_range : is_int32 d.bucket_count ≡ true
    pub buckets : lookup J ms (codes "buckets") ≡ array elements
    pub built : IsTableOf d (items elements)

  module _ (ms : Members Double) (d : HistogramDefinition)
      (h : new_definition J lexical_cast (object ms) ≡ ok d) where
    kind_read :
        (text : Bytes) × (lookup J ms (codes "kind") ≡ string text)
        × (lexical_cast (c_str text) ≡ some d.kind)
    unfolding new_definition
    kind_read = ground arith

    min_read : (lookup J ms (codes "min") ≡ int d.min) × (is_int32 d.min ≡ true)
    unfolding new_definition
    min_read = ground arith

    max_read : (lookup J ms (codes "max") ≡ int d.max) × (is_int32 d.max ≡ true)
    unfolding new_definition
    max_read = ground arith

    bucket_count_read :
        (lookup J ms (codes "bucket_count") ≡ int d.bucket_count) × (is_int32 d.bucket_count ≡ true)
    unfolding new_definition
    bucket_count_read = ground arith

    array_read : (vs : Items Double) × (lookup J ms (codes "buckets") ≡ array vs)
    unfolding new_definition
    array_read = ground arith

    loop_read :
        (vs : Items Double)
        → lookup J ms (codes "buckets") ≡ array vs
        → (p : ℕ × List (ℤ × ℕ)) × (load_buckets (items vs) 0 [] ≡ ok p)
    unfolding new_definition
    loop_read vs e = ground arith

    count_read :
        (vs : Items Double) (p : ℕ × List (ℤ × ℕ))
        → lookup J ms (codes "buckets") ≡ array vs
        → load_buckets (items vs) 0 [] ≡ ok p
        → (d.bucket_count ≡ pos p.0) × (p.1 ≡ d.buckets)
    unfolding new_definition
    count_read vs p e l = ground (arith, eqb_ℤ_iff (pos p.0) d.bucket_count)

    -- A definition that the constructor returns is the one that the members describe.
    pub new_definition-Describes : Describes ms d
    new_definition-Describes =
        let (vs, read) = array_read in
        let (p, loaded) = loop_read vs read in
        let (counted, table) = count_read vs p read loaded in
        let lem = load_buckets-first_index (items vs) 0 [] p.0 p.1 loaded in
        record {
          text = kind_read.0;
          elements = vs;
          kind = kind_read.1;
          kind_value = kind_read.2;
          min = min_read.0;
          min_range = min_read.1;
          max = max_read.0;
          max_range = max_read.1;
          bucket_count = bucket_count_read.0;
          bucket_count_range = bucket_count_read.1;
          buckets = read;
          built = record {
            ints = load_buckets-ints (items vs) 0 [] p.0 p.1 loaded;
            count = counted ∙ ap pos (omega (arith, lem.0));
            table = λ k. ap (find_bucket k) (sym table) ∙ (unfold find_bucket in lem.1 k);
          };
        }

  -- Members that describe a definition are accepted.
  new_definition_total :
      (ms : Members Double) (d : HistogramDefinition)
      → Describes ms d
      → (d' : HistogramDefinition) × (new_definition J lexical_cast (object ms) ≡ ok d')
  unfolding new_definition
  new_definition_total ms d h =
      let (bs, loaded) = load_buckets_total (items h.elements) 0 [] h.built.ints in
      (
        record d { buckets = bs },
        ground (arith, loaded, eqb_ℤ_iff (pos (0 + length (items h.elements))) d.bucket_count),
      )

  -- The constructor accepts an object exactly if its members describe a definition.
  pub new_definition-accepts_iff :
      (ms : Members Double)
      → ((d : HistogramDefinition) × (new_definition J lexical_cast (object ms) ≡ ok d))
        ↔ ((d : HistogramDefinition) × Describes ms d)
  new_definition-accepts_iff ms =
      (λ (d, h). (d, new_definition-Describes ms d h), λ (d, h). new_definition_total ms d h)
