-- ===== src/Features/Capped.antt =====
-- The features are capped at 1.
use bank_of_baroda_iit_gn.Common.{
  ℕ, ◌≤◌, ◌≡◌, Bool, true, false, Option, none, some, List, [], ◌∷◌, All, arith, last_n, length,
  ltb, inl, inr, Bool-cases, if◌then◌else◌, ◌==◌,
}
use bank_of_baroda_iit_gn.Common.Int.{ℤ}
use bank_of_baroda_iit_gn.Common.Dict.{contains}
use bank_of_baroda_iit_gn.Float.{Float, IsFloat, min_float, one_float}
use bank_of_baroda_iit_gn.Schemas.{EventType, Channel, IdentityEvent}
use bank_of_baroda_iit_gn.State.{IdentityState}
use bank_of_baroda_iit_gn.Features.{
  compute_features, count_attempt, closest_hour, hour_deviation, amount_zscore, behavior_or_neutral,
  event_criticality, channel_risk, flag,
}

module _ {W : Type 0} ⦃f : Float W⦄ (laws : IsFloat W) where
  open f use {lt, lit}
  open laws use {lt_asymm, lit_mono}

  abbrev pub Capped : W → Type 0
  Capped x = lt one_float x ≡ false

  one-Capped : Capped one_float
  one-Capped = ground (arith, lt_asymm one_float one_float)

  min-Capped : (x : W) → Capped (min_float x one_float)
  min-Capped x = ground (arith, one-Capped)

  tenths-Capped : (n : ℕ) → n ≤ 10 → Capped (lit n 1)
  tenths-Capped n h = lit_mono n 1 1 0 (omega arith)

  closest_hour-Capped : (ds : List ℤ) → Capped (closest_hour ds)
  closest_hour-Capped [] = tenths-Capped 5 (omega arith)
  closest_hour-Capped (d ∷ ds) = min-Capped _

  amount_zscore-Capped : (state : IdentityState W) (a : Option W) → Capped (amount_zscore state a)
  unfolding amount_zscore
  amount_zscore-Capped state none = lit_mono 0 0 1 0 (omega arith)
  amount_zscore-Capped state (some a) =
      elim (Bool-cases (ltb (length (last_n 200 state.amounts)) 5)) [
        | inl few ↦ rw few (min-Capped _)
        | inr enough ↦ rw enough (min-Capped _)
      ]

  event_criticality-Capped : (t : EventType) → Capped (event_criticality t)
  unfolding event_criticality
  event_criticality-Capped EventType.login = tenths-Capped 2 (omega arith)
  event_criticality-Capped EventType.transaction = tenths-Capped 4 (omega arith)
  event_criticality-Capped EventType.profile_change = tenths-Capped 5 (omega arith)
  event_criticality-Capped EventType.onboarding = tenths-Capped 6 (omega arith)
  event_criticality-Capped EventType.account_recovery = tenths-Capped 8 (omega arith)
  event_criticality-Capped EventType.privileged_access = tenths-Capped 9 (omega arith)

  channel_risk-Capped : (c : Channel) → Capped (channel_risk c)
  unfolding channel_risk
  channel_risk-Capped Channel.branch = tenths-Capped 1 (omega arith)
  channel_risk-Capped Channel.mobile_app = tenths-Capped 3 (omega arith)
  channel_risk-Capped Channel.internet_banking = tenths-Capped 4 (omega arith)
  channel_risk-Capped Channel.api = tenths-Capped 5 (omega arith)
  channel_risk-Capped Channel.admin_console = tenths-Capped 7 (omega arith)

  if-Capped : (b : Bool) (x y : W) → Capped x → Capped y → Capped (if b then x else y)
  if-Capped true x y h k = h
  if-Capped false x y h k = k

  flag-Capped : (b : Bool) → Capped (flag b)
  flag-Capped b = if-Capped b _ _ one-Capped (lit_mono 0 0 1 0 (omega arith))

  -- No feature of the serving vector is above 1, whatever the event, the amounts and the profile,
  -- provided that the behaviour anomaly that comes in is not.
  pub features-Capped :
      (e : IdentityEvent W) (state : IdentityState W) (share : ℕ) (anomaly : Option W)
      → lt one_float (behavior_or_neutral anomaly) ≡ false
      → All Capped (compute_features e state share anomaly).0
  unfolding compute_features hour_deviation
  features-Capped e state share anomaly h =
      let new_or_known =
        λ (b : Bool). if-Capped b _ _ (lit_mono 0 0 1 0 (omega arith)) one-Capped in
      let cold = state.event_count == 0 in
      (
        if-Capped cold _ _ (tenths-Capped 4 (omega arith))
            (new_or_known (contains e.device_id state.devices)),
        (
          if-Capped cold _ _ (tenths-Capped 5 (omega arith))
              (new_or_known (contains e.geo state.geos)),
          (
            closest_hour-Capped _,
            (
              amount_zscore-Capped (count_attempt state) e.amount,
              (
                h,
                (
                  event_criticality-Capped e.event_type,
                  (
                    channel_risk-Capped e.channel,
                    (
                      flag-Capped e.is_new_beneficiary,
                      (flag-Capped e.recovery_contact_changed, (min-Capped _, (min-Capped _, tt))),
                    ),
                  ),
                ),
              ),
            ),
          ),
        ),
      )
