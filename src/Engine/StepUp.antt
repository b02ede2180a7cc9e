-- ===== src/Engine/StepUp.antt =====
-- `apply_verified_step_up`: what a validated step-up does to trust and review.
pub mod Effect
use bank_of_baroda_iit_gn.Common.{ℕ, zero, suc, String, Bool, true, false, [], if◌then◌else◌}
use bank_of_baroda_iit_gn.Common.Int.{ℤ, pos, ◌+ℤ◌, ◌-ℤ◌, min_ℤ, max_ℤ}
use bank_of_baroda_iit_gn.Float.{Float, zero_float}
use bank_of_baroda_iit_gn.State.{IdentityState, StateStore, load, commit}

-- The new trust: restored by 250 up to 1000, or lowered by 400 down to 0.
abbrev pub stepped_trust : ℤ → Bool → ℤ
stepped_trust prev passed =
    if passed then min_ℤ (prev +ℤ pos 250) (pos 1000) else max_ℤ (prev -ℤ pos 400) (pos 0)

module _ {W : Type 0} ⦃f : Float W⦄ where
  -- The state after the outcome; a passed step-up clears the review and the drift history.
  unfoldable pub stepped : IdentityState W → Bool → IdentityState W
  stepped state passed =
      if passed
      then record state {
        trust = stepped_trust state.trust true;
        under_review = false;
        risk_window = [];
        cusum = zero_float;
      }
      else record state { trust = stepped_trust state.trust false }

  -- The loop; `retries` are left after this attempt. It returns the new trust of the last attempt,
  -- whether that was committed, and the store.
  unfoldable pub step_up_loop :
      ℕ → String → Bool → (ℕ → StateStore W → StateStore W) → StateStore W → ℤ × Bool × StateStore W
  step_up_loop zero identity_id passed rivals store =
      let new = stepped (load store identity_id) passed in
      let (committed, after) = commit (rivals 0 store) identity_id new new.version in
      (new.trust, committed, after)
  step_up_loop (suc retries) identity_id passed rivals store =
      let new = stepped (load store identity_id) passed in
      let (committed, after) = commit (rivals (suc retries) store) identity_id new new.version in
      let again = step_up_loop retries identity_id passed rivals after in
      if committed then (new.trust, committed, after) else again

  -- `apply_verified_step_up`, six attempts.
  unfoldable pub apply_verified_step_up :
      String → Bool → (ℕ → StateStore W → StateStore W) → StateStore W → ℤ × StateStore W
  unfolding step_up_loop
  apply_verified_step_up identity_id passed rivals store =
      let (new, committed, after) = step_up_loop 5 identity_id passed rivals store in (new, after)
