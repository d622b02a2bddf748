-- ===== src/Json.antt =====
-- The JSON documents that the program reads and rewrites (common/Common.h), and rapidjson, which
-- is not part of the repository: a parameter, with what its documentation says as laws.
pub mod Assignment
use mozilla_telemetry.Prelude.{
  ℕ, zero, suc, ◌≡◌, Bool, true, false, Option, none, some, List, [], ◌∷◌, ◌⊎◌, get_elem?, Bytes,
}
use mozilla_telemetry.Prelude.Int.{ℤ, is_int32, is_uint32, is_uint64}
use mozilla_telemetry.Outcome.{Outcome, ok, fault, failed_assertion, ◌>>=◌}

-- `RapidjsonValue`, over the type of floating-point numbers. A number without a fraction and an
-- exponent is `int`; an object keeps its members in order, duplicates included.
mutual
  pub data Value (D : Type 0) : Type 0 where
    null : Value D
    bool : Bool → Value D
    int : ℤ → Value D
    double : D → Value D
    string : Bytes → Value D
    array : Items D → Value D
    object : Members D → Value D

  pub data Items (D : Type 0) : Type 0 where
    nil : Items D
    item : Value D → Items D → Items D

  pub data Members (D : Type 0) : Type 0 where
    end : Members D
    member : Bytes → Value D → Members D → Members D

module _ {D : Type 0} where
  abbrev pub is_object : Value D → Bool
  is_object (object _) = true
  is_object _ = false

  abbrev pub is_array : Value D → Bool
  is_array (array _) = true
  is_array _ = false

  abbrev pub is_string : Value D → Bool
  is_string (string _) = true
  is_string _ = false

  abbrev pub is_int : Value D → Bool
  is_int (int z) = is_int32 z
  is_int _ = false

  abbrev pub is_uint : Value D → Bool
  is_uint (int z) = is_uint32 z
  is_uint _ = false

  abbrev pub is_uint64_value : Value D → Bool
  is_uint64_value (int z) = is_uint64 z
  is_uint64_value _ = false

  abbrev pub is_number : Value D → Bool
  is_number (int z) = true
  is_number (double d) = true
  is_number _ = false

  -- `MemberBegin()` to `MemberEnd()`: the names, and a member's value and name by its position.
  abbrev pub names : Members D → List Bytes
  names end = []
  names (member k v ms) = k ∷ names ms

  abbrev pub value_at : Members D → ℕ → Option (Value D)
  value_at end i = none
  value_at (member k v ms) zero = some v
  value_at (member k v ms) (suc i) = value_at ms i

  -- An assignment through a reference to the value of a member.
  abbrev pub set_value : Members D → ℕ → Value D → Members D
  set_value end i w = end
  set_value (member k v ms) zero w = member k w ms
  set_value (member k v ms) (suc i) w = member k v (set_value ms i w)

  abbrev pub items : Items D → List (Value D)
  items nil = []
  items (item v vs) = v ∷ items vs

  abbrev pub of_list : List (Value D) → Items D
  of_list [] = nil
  of_list (v ∷ vs) = item v (of_list vs)

-- `GetParseError()` of a refused text, or the document.
pub data Parsed (D : Type 0) : Type 0 where
  parse_error : Bytes → Parsed D
  document : Value D → Parsed D

-- rapidjson 0.11. `find name names` is the position of the member that `operator[]` of an object
-- refers to, `none` where it gives the null value. Which one of several members with one name it
-- is, and the floating-point numbers, are left open.
pub record Rapidjson : Type 1 where
  pub Double : Type 0
  pub of_int : ℤ → Double
  pub parse : Bytes → Parsed Double
  pub find : Bytes → List Bytes → Option ℕ
  pub find-some :
      (k : Bytes) (ks : List Bytes) {i : ℕ} → find k ks ≡ some i → get_elem? ks i ≡ some k
  pub find-none :
      (k : Bytes) (ks : List Bytes) → find k ks ≡ none → (i : ℕ) → get_elem? ks i ≡ some k → ⊥

module _ (J : Rapidjson) where
  open J use {Double, find, of_int}

  -- `GetDouble()` of a number.
  abbrev pub get_double : Value Double → Option Double
  get_double (int z) = some (of_int z)
  get_double (double d) = some d
  get_double _ = none

  abbrev pub value_or_null : Members Double → Option ℕ → Value Double
  value_or_null ms none = null
  value_or_null ms (some i) = elim (value_at ms i) [ none ↦ null | some v ↦ v ]

  abbrev pub lookup : Members Double → Bytes → Value Double
  lookup ms k = value_or_null ms (find k (names ms))

  -- `v[k]`, which asserts that `v` is an object.
  abbrev pub at : Value Double → Bytes → Outcome (Value Double)
  at (object ms) k = ok (lookup ms k)
  at _ k = fault failed_assertion
