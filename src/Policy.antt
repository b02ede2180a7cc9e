-- ===== src/Policy.antt =====
-- backend/app/policy.py and backend/app/resilience.py: from trust score and event risk to a
-- decision, and what becomes of the decision when the model could not be asked.
pub mod Laws
use bank_of_baroda_iit_gn.Common.{Bool, true, false, ◌&&◌, Option, none, some, if◌then◌else◌}
use bank_of_baroda_iit_gn.Common.Int.{ℤ, pos, leb_ℤ}
use bank_of_baroda_iit_gn.Float.{Float}
use bank_of_baroda_iit_gn.Schemas.{EventType, Decision, StepUpMethod, Band, IdentityEvent, is_allow}

-- What `decide` and `apply` return.
abbrev pub Verdict : Type 0
Verdict = Decision × Band × Option StepUpMethod

abbrev pub is_privileged : EventType → Bool
is_privileged EventType.privileged_access = true
is_privileged _ = false

-- `e.event_type in (EventType.ACCOUNT_RECOVERY, EventType.ONBOARDING)`
abbrev pub in_doubt : EventType → Bool
in_doubt EventType.account_recovery = true
in_doubt EventType.onboarding = true
in_doubt _ = false

-- `_cheapest_sufficient`
unfoldable pub cheapest_sufficient : EventType → Bool → StepUpMethod
cheapest_sufficient event_type strong =
    if in_doubt event_type
    then StepUpMethod.video_kyc
    else if strong
    then StepUpMethod.otp_sms
    else StepUpMethod.device_biometric

module _ {W : Type 0} ⦃f : Float W⦄ where
  open f use {lit, lt}

  -- The risk banding of `decide`.
  unfoldable pub band_of : ℤ → W → Band
  band_of trust_score event_risk =
      if leb_ℤ (pos 650) trust_score && lt event_risk (lit 45 2)
      then Band.low
      else if leb_ℤ (pos 400) trust_score && lt event_risk (lit 65 2)
      then Band.elevated
      else if leb_ℤ (pos 150) trust_score
      then Band.high
      else Band.critical

-- The branch for privileged access: least privilege.
unfoldable pub decide_privileged : Band → Verdict
decide_privileged Band.low = (Decision.allow, Band.low, none)
decide_privileged Band.elevated =
    (Decision.step_up, Band.elevated, some StepUpMethod.manager_approval)
decide_privileged Band.high = (Decision.step_up, Band.high, some StepUpMethod.manager_approval)
decide_privileged band = (Decision.block, band, none)

-- The branch for customers.
unfoldable pub decide_customer : EventType → Band → Verdict
unfolding cheapest_sufficient
decide_customer event_type Band.low = (Decision.allow, Band.low, none)
decide_customer event_type Band.elevated =
    (Decision.step_up, Band.elevated, some (cheapest_sufficient event_type false))
decide_customer event_type Band.high =
    (Decision.step_up, Band.high, some (cheapest_sufficient event_type true))
decide_customer event_type band = (Decision.block, band, none)

-- `PolicyOrchestrator.decide`
unfoldable pub decide : {W : Type 0} ⦃f : Float W⦄ → ℤ → W → IdentityEvent W → Verdict
unfolding band_of decide_privileged decide_customer
decide trust_score event_risk e =
    let band = band_of trust_score event_risk in
    if is_privileged e.event_type then decide_privileged band else decide_customer e.event_type band

-- `e.event_type in FAIL_CLOSED_EVENTS`
abbrev pub fail_closed : EventType → Bool
fail_closed EventType.privileged_access = true
fail_closed EventType.account_recovery = true
fail_closed EventType.onboarding = true
fail_closed _ = false

-- `ResiliencePolicy.apply`
unfoldable pub apply_degraded : {W : Type 0} → Verdict → IdentityEvent W → Verdict
apply_degraded (decision, band, step_up) e =
    if fail_closed e.event_type
    then (if is_allow decision
        then (
          Decision.step_up,
          Band.degraded_failclosed,
          some (
              if is_privileged e.event_type
              then StepUpMethod.manager_approval
              else StepUpMethod.video_kyc),
        )
        else (decision, Band.degraded_failclosed, step_up))
    else (decision, Band.degraded_failopen, step_up)
