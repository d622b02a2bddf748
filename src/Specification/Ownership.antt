-- ===== src/Specification/Ownership.antt =====
-- common/HistogramSpecification.cpp: the blocks that `LoadDefinitions` leaves to the destructor.
pub mod Memory
use mozilla_telemetry.Prelude.{
  ℕ, suc, ◌≡◌, refl, ap, sym, ◌∙◌, List, [], ◌∷◌, Option, Bytes, c_str, if◌then◌else◌,
}
use mozilla_telemetry.Prelude.Int.{ℤ}
use mozilla_telemetry.Outcome.{Outcome, ok, require, rethrow, >>=-eq-ok}
use mozilla_telemetry.Exec.{Exec, pure, lift, modify, ◌>>=◌, ◌>>◌}
use mozilla_telemetry.Json.{object, Members, end, member, is_object, Rapidjson}
use mozilla_telemetry.Specification.{
  HistogramSpecification, insert_definition, new_definition, not_a_definition, in_key, load_members,
}
use mozilla_telemetry.Specification.Ownership.Memory.{
  Owned, find_name, take_over, destroy, definitions, has, repeated, Owns, take_over-Owns,
  definitions-take_over,
}

module _ (J : Rapidjson) (lexical_cast : Bytes → Option ℤ) where
  open J use {Double}

  -- The loop of `LoadDefinitions`
  unfoldable pub load_owned : Members Double → Exec Owned (Unit {0})
  unfolding take_over
  load_owned end = pure tt
  load_owned (member n v ms) = do
    lift (require (is_object v) (not_a_definition (c_str n)))
    hd ← lift (rethrow (in_key (c_str n)) (new_definition J lexical_cast v))
    modify (take_over (c_str n) hd)
    load_owned ms

  -- What a run of the loop leaves
  record IsLoaded (spec : HistogramSpecification) (left : List ℕ) (o : Outcome (Unit {0}) × Owned)
      : Type 0 where
    returns : o.0 ≡ ok tt
    table : definitions o.1.entries ≡ spec
    frees : destroy o.1.entries o.1.live ≡ ok left

  loaded :
      (ms : Members Double) (seen : List Bytes) (spec : HistogramSpecification) (left : List ℕ)
      (σ : Owned)
      → Owns seen left σ
      → load_members J lexical_cast ms (definitions σ.entries) ≡ ok spec
      → IsLoaded spec (repeated seen ms σ.next left) (load_owned ms σ)
  unfolding load_owned load_members
  loaded end seen spec left σ w e = record { returns = refl; table = cc e; frees = w.frees }
  loaded (member n (object os) ms) seen spec left σ w e =
      let (d, built, later) =
        >>=-eq-ok
          (λ hd.
            load_members J lexical_cast ms (insert_definition (c_str n) hd (definitions σ.entries)))
          _ e in
      let moved = sym (
        ap (λ (ds : HistogramSpecification). load_members J lexical_cast ms ds)
          (definitions-take_over (c_str n) d σ)) in
      rw (built, load_owned)
        (loaded ms (c_str n ∷ seen) spec
          (if has (c_str n) seen then suc σ.next ∷ σ.next ∷ left else left)
          (take_over (c_str n) d σ) (take_over-Owns (c_str n) d seen left σ w) (sym moved ∙ later))
  loaded (member n v ms) seen spec left σ w e = cc e

  -- Where `LoadDefinitions` loads the members of `histograms`, the destructor then deletes no block twice
  -- and none that was not allocated, and what is left is exactly the two blocks of each member whose name,
  -- as a C string, a member before it has: nothing is left where the names are different.
  pub destroy-load_owned :
      (ms : Members Double) (spec : HistogramSpecification)
      → load_members J lexical_cast ms [] ≡ ok spec
      → (σ : Owned) × (load_owned ms (record { entries = []; live = []; next = 0 }) ≡ (ok tt, σ))
        × (definitions σ.entries ≡ spec)
        × (destroy σ.entries σ.live ≡ ok (repeated [] ms 0 []))
  unfolding destroy find_name
  destroy-load_owned ms spec e =
      let new : Owned = record { entries = []; live = []; next = 0 } in
      let run = loaded ms [] spec [] new (record { frees = refl; old = tt; names = λ k. refl }) e in
      (
        (load_owned ms new).1,
        ap (λ (o : Outcome (Unit {0})). (o, (load_owned ms new).1)) run.returns,
        run.table,
        run.frees,
      )
