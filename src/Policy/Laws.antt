-- ===== src/Policy/Laws.antt =====
-- What the policy and the degradation rule guarantee.
use bank_of_baroda_iit_gn.Common.{
  ℕ, ◌≤◌, ◌≡◌, ◌≢◌, ◌↔◌, true, some, none, arith, if◌then◌else◌, is_some,
}
use bank_of_baroda_iit_gn.Common.Int.{ℤ, pos, ◌≤ℤ◌}
use bank_of_baroda_iit_gn.Float.{Float}
use bank_of_baroda_iit_gn.Schemas.{Decision, StepUpMethod, IdentityEvent, is_step_up}
use bank_of_baroda_iit_gn.Policy.{is_privileged, fail_closed, decide, apply_degraded}

-- How strict a decision is.
abbrev pub strictness : Decision → ℕ
strictness Decision.allow = 0
strictness Decision.step_up = 1
strictness Decision.block = 2

module _ {W : Type 0} ⦃f : Float W⦄ where
  open f use {lit, lt}

  -- An event is allowed exactly at a trust score of 650 or more and a risk below 0.45, a risk that
  -- is NaN never being below; it is blocked exactly at a score below 150.
  pub decide_exact :
      (trust : ℤ) (risk : W) (e : IdentityEvent W)
      → (((decide trust risk e).0 ≡ Decision.allow)
          ↔ ((pos 650 ≤ℤ trust) × (lt risk (lit 45 2) ≡ true)))
        × (((decide trust risk e).0 ≡ Decision.block) ↔ (trust ≤ℤ pos 149))
  unfolding decide
  decide_exact trust risk e = ground arith

  -- At one risk, a higher trust score never gets a stricter decision.
  pub decide_antitone :
      (t u : ℤ) (risk : W) (e : IdentityEvent W)
      → t ≤ℤ u
      → strictness (decide u risk e).0 ≤ strictness (decide t risk e).0
  unfolding decide
  decide_antitone t u risk e h = ground arith

  -- The only challenge for privileged access is the manager's approval, and for an identity in
  -- doubt (recovery, onboarding) it is video KYC.
  pub sensitive_method :
      (trust : ℤ) (risk : W) (e : IdentityEvent W)
      → fail_closed e.event_type ≡ true
      → (decide trust risk e).2 ≡ (
          if is_step_up (decide trust risk e).0
          then some (
              if is_privileged e.event_type
              then StepUpMethod.manager_approval
              else StepUpMethod.video_kyc)
          else none)
  unfolding decide
  sensitive_method trust risk e h = ground arith

  -- On a degraded engine a privileged access, an account recovery or an onboarding is never
  -- allowed, and no decision of the policy gets milder.
  pub degraded_fails_closed :
      (trust : ℤ) (risk : W) (e : IdentityEvent W)
      → fail_closed e.event_type ≡ true
      → let decided = decide trust risk e in
        ((apply_degraded decided e).0 ≢ Decision.allow)
        × (strictness decided.0 ≤ strictness (apply_degraded decided e).0)
        × (is_some (apply_degraded decided e).2 ≡ is_step_up (apply_degraded decided e).0)
  unfolding apply_degraded decide
  degraded_fails_closed trust risk e h = ground arith
