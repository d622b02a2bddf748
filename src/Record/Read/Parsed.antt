-- ===== src/Record/Read/Parsed.antt =====
-- Where `Read` returns true, the document is what rapidjson made of a text.
use mozilla_telemetry.Prelude.{
  ℕ, zero, suc, ◌≡◌, refl, Bool, true, false, Bytes, c_str, has_nul, Bool-cases, inl, inr, not,
  if◌then◌else◌,
}
use mozilla_telemetry.Outcome.{Outcome, ok, throw, fault}
use mozilla_telemetry.Exec.{Exec, continue, pure}
use mozilla_telemetry.Stream.{Stream}
use mozilla_telemetry.Json.{Rapidjson, Value, Parsed, parse_error, document}
use mozilla_telemetry.Record.{TelemetryRecord}
use mozilla_telemetry.Record.Inflate.{Zlib, inflate_data}
use mozilla_telemetry.Record.Read.{
  Session, Round, found, failed, again, search, fetch, is_gzip, parse_document, terminate_inflated,
  process_record, read_round, read_record, end_round,
}

-- What a call leaves where it returns: of its value and the object
abbrev After : {S A : Type 0} → (A → S → Type 0) → Outcome A × S → Type 0
After Q (ok a, s) = Q a s
After Q (throw what, s) = Unit
After Q (fault kind, s) = Unit

continue-After :
    {S A C : Type 0} (Q : C → S → Type 0) (o : Outcome A) (f : A → Exec S C) (s : S)
    → ((a : A) (s : S) → After Q (f a s))
    → After Q (continue o f s)
continue-After Q (ok a) f s h = h a s
continue-After Q (throw what) f s h = tt
continue-After Q (fault kind) f s h = tt

if-After :
    {S A : Type 0} (Q : A → S → Type 0) (b : Bool) (m k : Exec S A) (s : S)
    → After Q (m s)
    → After Q (k s)
    → After Q ((if b then m else k) s)
if-After Q true m k s h j = h
if-After Q false m k s h j = j

module _ (J : Rapidjson) (Z : Zlib) (memory junk : ℕ) where
  open J use {Double, parse}

  -- The document is one that the parser made.
  pub record IsParsed (doc : Value Double) : Type 0 where
    pub text : Bytes
    pub made : parse text ≡ document doc

  abbrev Made : Bool → TelemetryRecord Double → Type 0
  Made true r = IsParsed r.document
  Made false r = Unit

  parsed_cases :
      (text : TelemetryRecord Double → Bytes) (r : TelemetryRecord Double) (p : Parsed Double)
      → parse (c_str (text r)) ≡ p
      → has_nul (text r) ≡ true
      → After Made (parse_document J Z memory junk text r)
  unfolding parse_document
  parsed_cases text r (parse_error e) h there = rw (h, there, parse_document) tt
  parsed_cases text r (document d) h there =
      rw (h, there, parse_document) (record { text = c_str (text r); made = h })

  parse_document-After :
      (text : TelemetryRecord Double → Bytes) (r : TelemetryRecord Double)
      → After Made (parse_document J Z memory junk text r)
  unfolding parse_document
  parse_document-After text r = elim (Bool-cases (has_nul (text r))) [
    | inl there ↦ parsed_cases text r _ refl there
    | inr missing ↦ rw (missing, parse_document) tt
  ]

  process_record-After :
      (r : TelemetryRecord Double) → After Made (process_record J Z memory junk r)
  unfolding process_record
  process_record-After r =
      if-After Made (not (is_gzip r)) _ _ r (parse_document-After (λ r. r.buffer) r) (
        continue-After Made (inflate_data Z memory junk r).0 _ (inflate_data Z memory junk r).1
          λ fine s. if-After Made (not fine) _ _ s tt (
            continue-After Made (terminate_inflated J Z memory junk s).0 _
              (terminate_inflated J Z memory junk s).1
              λ u s'. parse_document-After (λ r. r.inflated) s'))

  abbrev MadeIn : Bool → Session Double → Type 0
  MadeIn b σ = Made b σ.0

  abbrev Found : Round → Session Double → Type 0
  Found found σ = IsParsed σ.0.document
  Found failed σ = Unit
  Found again σ = Unit

  session_cases :
      (o : Outcome Bool × TelemetryRecord Double) (s : Stream)
      → After Made o
      → After MadeIn (o.0, (o.1, s))
  session_cases (ok b, r) s h = h
  session_cases (throw what, r) s h = tt
  session_cases (fault kind, r) s h = tt

  end_cases :
      (o : Outcome Bool) (σ : Session Double)
      → After MadeIn (o, σ)
      → After Found (continue o (λ b. pure (end_round J Z memory junk b)) σ)
  end_cases (ok true) σ h = h
  end_cases (ok false) σ h = tt
  end_cases (throw what) σ h = tt
  end_cases (fault kind) σ h = tt

  read_round-After : (σ : Session Double) → After Found (read_round J Z memory junk σ)
  unfolding read_round
  read_round-After σ = continue-After Found (search junk σ).0 _ (search junk σ).1 λ there τ.
      if-After Found (not there) _ _ τ tt (
        continue-After Found (fetch τ).0 _ (fetch τ).1 λ complete υ.
          if-After Found (not complete) _ _ υ tt (
            end_cases (process_record J Z memory junk υ.0).0
              ((process_record J Z memory junk υ.0).1, υ.1)
              (session_cases (process_record J Z memory junk υ.0) υ.1 (process_record-After υ.0))))

  round_cases :
      (fuel : ℕ) (o : Outcome Round) (σ : Session Double)
      → After Found (o, σ)
      → ((τ : Session Double) → After MadeIn (read_record J Z memory junk fuel τ))
      → After MadeIn (
          continue o
            (λ (end : Round). elim end [
              | found ↦ pure true
              | failed ↦ pure false
              | again ↦ read_record J Z memory junk fuel
            ])
            σ)
  round_cases fuel (ok found) σ h ih = h
  round_cases fuel (ok failed) σ h ih = tt
  round_cases fuel (ok again) σ h ih = ih σ
  round_cases fuel (throw what) σ h ih = tt
  round_cases fuel (fault kind) σ h ih = tt

  read_record-After :
      (fuel : ℕ) (σ : Session Double) → After MadeIn (read_record J Z memory junk fuel σ)
  unfolding read_record
  read_record-After zero σ = tt
  read_record-After (suc fuel) σ = if-After MadeIn σ.1.fail _ _ σ tt (
      round_cases fuel (read_round J Z memory junk σ).0 (read_round J Z memory junk σ).1
        (read_round-After σ) (read_record-After fuel))

  true_cases :
      (o : Outcome Bool) (σ : Session Double)
      → After MadeIn (o, σ)
      → o ≡ ok true
      → IsParsed σ.0.document
  true_cases (ok true) σ h e = h
  true_cases (ok false) σ h e = cc e
  true_cases (throw what) σ h e = cc e
  true_cases (fault kind) σ h e = cc e

  -- Where `Read` returns true, the parser has made the document of the object.
  pub read_record-IsParsed :
      (fuel : ℕ) (σ : Session Double)
      → (read_record J Z memory junk fuel σ).0 ≡ ok true
      → IsParsed (read_record J Z memory junk fuel σ).1.0.document
  read_record-IsParsed fuel σ e =
      true_cases (read_record J Z memory junk fuel σ).0 (read_record J Z memory junk fuel σ).1
        (read_record-After fuel σ) e
