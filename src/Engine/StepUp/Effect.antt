-- ===== src/Engine/StepUp/Effect.antt =====
-- What a validated step-up does: undisturbed, and against clients that always write first.
use bank_of_baroda_iit_gn.Common.{
  ℕ, zero, suc, ◌+◌, String, ◌≡◌, Bool, true, false, arith, if◌then◌else◌,
}
use bank_of_baroda_iit_gn.Common.Int.{ℤ, pos, ◌≤ℤ◌, +ℤ_parts, -ℤ_parts}
use bank_of_baroda_iit_gn.Float.{Float}
use bank_of_baroda_iit_gn.State.{IdentityState, StateStore, load}
use bank_of_baroda_iit_gn.State.Commit.{commit_stale, commit_fresh}
use bank_of_baroda_iit_gn.Engine.Trust.Bounds.{InRange}
use bank_of_baroda_iit_gn.Engine.StepUp.{
  stepped, stepped_trust, step_up_loop, apply_verified_step_up,
}

-- Nobody else writes.
abbrev pub undisturbed : {W : Type 0} → ℕ → StateStore W → StateStore W
undisturbed k store = store

-- A passed step-up never lowers a trust score in range, a failed one never raises it, and the
-- result is in range.
pub stepped_trust_bounds :
    (prev : ℤ) (passed : Bool)
    → InRange prev
    → InRange (stepped_trust prev passed)
      × (if passed then prev ≤ℤ stepped_trust prev true else stepped_trust prev false ≤ℤ prev)
stepped_trust_bounds prev true h = ground (arith, +ℤ_parts prev (pos 250))
stepped_trust_bounds prev false h = ground (arith, -ℤ_parts prev (pos 400))

module _ {W : Type 0} ⦃f : Float W⦄ where
  pub stepped_version :
      (s : IdentityState W) (passed : Bool)
      → ((stepped s passed).version ≡ s.version)
        × ((stepped s passed).trust ≡ stepped_trust s.trust passed)
  unfolding stepped
  stepped_version s passed = ground arith

  -- With no other writer, the state that is stored is the loaded one after the step-up, one version
  -- on, and the trust score that is returned is the stored one.
  pub step_up_stored :
      (id : String) (passed : Bool) (store : StateStore W)
      → let (new, after) = apply_verified_step_up id passed undisturbed store in
        (load after id
          ≡ record (stepped (load store id) passed) { version = (load store id).version + 1 })
        × (new ≡ (load after id).trust)
  unfolding apply_verified_step_up step_up_loop
  step_up_stored id passed store =
      let s = stepped (load store id) passed in
      ground (
        arith,
        commit_fresh store id s,
        commit_stale store id s s.version,
        stepped_version (load store id) passed,
      )

  -- What the store becomes if only the other clients write.
  pub only_rivals : ℕ → (ℕ → StateStore W → StateStore W) → StateStore W → StateStore W
  only_rivals zero rivals store = rivals 0 store
  only_rivals (suc n) rivals store = only_rivals n rivals (rivals (suc n) store)

  loop_lost :
      (n : ℕ) (id : String) (passed : Bool) (rivals : ℕ → StateStore W → StateStore W)
      → (store : StateStore W)
      → ((k : ℕ) (s : StateStore W) → (load (rivals k s) id).version ≡ suc (load s id).version)
      → (step_up_loop n id passed rivals store).2 ≡ only_rivals n rivals store
  unfolding step_up_loop only_rivals
  loop_lost zero id passed rivals store bump =
      let s = stepped (load store id) passed in
      ground (
        arith,
        commit_stale (rivals 0 store) id s s.version,
        stepped_version (load store id) passed,
        bump 0 store,
      )
  loop_lost (suc n) id passed rivals store bump =
      let s = stepped (load store id) passed in
      ground (
        arith,
        commit_stale (rivals (suc n) store) id s s.version,
        stepped_version (load store id) passed,
        bump (suc n) store,
        loop_lost n id passed rivals (rivals (suc n) store) bump,
      )

  -- If another client commits to the identity before each of the six attempts, nothing of the
  -- step-up is stored, though a new trust score is returned.
  pub step_up_lost :
      (id : String) (passed : Bool) (rivals : ℕ → StateStore W → StateStore W)
      (store : StateStore W)
      → ((k : ℕ) (s : StateStore W) → (load (rivals k s) id).version ≡ suc (load s id).version)
      → (apply_verified_step_up id passed rivals store).1 ≡ only_rivals 5 rivals store
  unfolding apply_verified_step_up
  step_up_lost id passed rivals store bump = loop_lost 5 id passed rivals store bump
