-- ===== src/Schema/SafePath.antt =====
-- common/TelemetrySchema.cpp: what `SafePath` makes of a text, and how a file is read.
use mozilla_telemetry.Prelude.{
  ℕ, suc, ◌≤◌, ◌≡◌, ◌↔◌, ◌⊎◌, refl, ap, inl, inr, true, Bool-cases, [], ◌∷◌, ◌++◌, arith, length,
  All, Bytes, if◌then◌else◌,
}
use mozilla_telemetry.Json.{Rapidjson}
use mozilla_telemetry.Prelude.{some}
use mozilla_telemetry.Schema.{
  is_safe_char, safe_path, is_space, read_chars, parse_schema, new_schema,
}

-- A letter, a digit, `_`, `/` or `.`.
abbrev pub IsSafe : ℕ → Type 0
IsSafe c =
    (b'a' ≤ c × c ≤ b'z')
    ⊎ ((b'A' ≤ c × c ≤ b'Z') ⊎ ((b'0' ≤ c × c ≤ b'9') ⊎ ((c ≡ b'_') ⊎ ((c ≡ b'/') ⊎ (c ≡ b'.')))))

is_safe_char_iff : (c : ℕ) → (is_safe_char c ≡ true) ↔ IsSafe c
is_safe_char_iff c = ground arith

cleaned-IsSafe : (c : ℕ) → IsSafe (if is_safe_char c then c else b'_')
cleaned-IsSafe c = elim (Bool-cases (is_safe_char c)) [
  | inl safe ↦ rw safe ((is_safe_char_iff c).0 safe)
  | inr not_safe ↦ rw not_safe (inr (inr (inr (inl refl))))
]

cleaned_id : (c : ℕ) → IsSafe c → (if is_safe_char c then c else b'_') ≡ c
cleaned_id c h = rw ((is_safe_char_iff c).1 h)

cleaned_fixed : (c : ℕ) → (if is_safe_char c then c else b'_') ≡ c → IsSafe c
cleaned_fixed c h = rw h at (cleaned-IsSafe c)

safe_path-IsSafe : (s : Bytes) → All IsSafe (safe_path s)
unfolding safe_path
safe_path-IsSafe [] = tt
safe_path-IsSafe (c ∷ cs) = (cleaned-IsSafe c, safe_path-IsSafe cs)

safe_path_id : (s : Bytes) → All IsSafe s → safe_path s ≡ s
unfolding safe_path
safe_path_id [] h = refl
safe_path_id (c ∷ cs) h = rw (cleaned_id c h.0, safe_path_id cs h.1)

length-safe_path : (s : Bytes) → length (safe_path s) ≡ length s
unfolding safe_path
length-safe_path [] = refl
length-safe_path (c ∷ cs) = ap suc (length-safe_path cs)

read_chars-append : (xs ys : Bytes) → read_chars (xs ++ ys) ≡ read_chars xs ++ read_chars ys
unfolding read_chars
read_chars-append [] ys = refl
read_chars-append (x ∷ xs) ys = ground (arith, read_chars-append xs ys)

pub safe_path_fixed : (s : Bytes) → safe_path s ≡ s → All IsSafe s
safe_path_fixed s h = rw h at (safe_path-IsSafe s)

-- `SafePath` gives a text of the same length, all of whose characters are letters, digits, `_`, `/`
-- or `.`, and it leaves a text as it was exactly if all of its characters are such already.
pub safe_path-IsClean :
    (s : Bytes)
    → (length (safe_path s) ≡ length s)
      × All IsSafe (safe_path s)
      × ((safe_path s ≡ s) ↔ All IsSafe s)
safe_path-IsClean s = (length-safe_path s, safe_path-IsSafe s, (safe_path_fixed s, safe_path_id s))

read_space : (c : ℕ) (ys : Bytes) → is_space c ≡ true → read_chars (c ∷ ys) ≡ read_chars ys
unfolding read_chars
read_space c ys h = rw h

same_chars :
    (before after : Bytes) (c : ℕ)
    → is_space c ≡ true
    → read_chars (before ++ (c ∷ after)) ≡ read_chars (before ++ after)
same_chars before after c h =
    rw (read_chars-append before (c ∷ after), read_chars-append before after, read_space c after h)

module _ (J : Rapidjson) where
  -- A character of white space, put anywhere into the file, so also into a string of the JSON, does
  -- not change what the constructor of `TelemetrySchema` makes of it.
  pub new_schema-space :
      (file_name before after : Bytes) (c : ℕ)
      → is_space c ≡ true
      → new_schema J file_name (some (before ++ (c ∷ after)))
        ≡ new_schema J file_name (some (before ++ after))
  unfolding new_schema
  new_schema-space file_name before after c h = ap (parse_schema J) (same_chars before after c h)
