-- ===== src/Convert/Process/Lines.antt =====
-- convert.cpp: the uuid in front of a converted record.
use mozilla_telemetry.Prelude.{
  ◌≡◌, ◌≢◌, ◌⊎◌, refl, inl, inr, Bool-cases, ◌||◌, [], ◌∷◌, ◌++◌, arith, All, Bytes, ◌==◌,
}
use mozilla_telemetry.Convert.Process.{take_uuid}

-- Behind the uuid the path ends, or a NUL or a slash stands.
abbrev pub IsStop : Bytes → Type 0
IsStop [] = Unit
IsStop (c ∷ cs) = (c ≡ 0) ⊎ (c ≡ b'/')

-- The uuid of a path is the longest start without a NUL and a slash: it holds neither, and what
-- follows it in the path is nothing or starts with one of them.
pub take_uuid-IsStop :
    (path : Bytes)
    → (rest : Bytes) × (path ≡ take_uuid path ++ rest)
      × All (λ c. (c ≢ 0) × (c ≢ b'/')) (take_uuid path)
      × IsStop rest
unfolding take_uuid
take_uuid-IsStop [] = ([], refl, tt, tt)
take_uuid-IsStop (c ∷ cs) =
    let (rest, e, clean, stop) = take_uuid-IsStop cs in
    elim (Bool-cases (c == 0 || c == b'/')) [
      | inl ends ↦ (c ∷ cs, ground (arith, ends), ground (arith, ends), ground (arith, ends))
      | inr goes ↦ (rest, ground (arith, goes, e), ground (arith, goes, clean), stop)
    ]
