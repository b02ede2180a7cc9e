-- ===== src/Engine/Trust/Bounds.antt =====
-- The trust score stays in range and moves in the direction of the risk.
use bank_of_baroda_iit_gn.Common.{
  ◌≡◌, false, some, arith, Bool-cases, Option-cases, inl, inr, if◌then◌else◌,
}
use bank_of_baroda_iit_gn.Common.Int.{ℤ, pos, ◌+ℤ◌, ◌-ℤ◌, ◌≤ℤ◌, ltb_ℤ, +ℤ_parts, -ℤ_parts}
use bank_of_baroda_iit_gn.Float.{Float, IsFloat, Libs, IsClip, zero_float}
use bank_of_baroda_iit_gn.State.{IdentityState}
use bank_of_baroda_iit_gn.Engine.Trust.{TrustEngine, roll_window, allowed_gain, update_trust}

module _ {W : Type 0} ⦃f : Float W⦄ (libs : Libs W) (clips : IsClip libs) where
  open clips use {clip_int-below, clip_int-above, clip_int-within}

  pub clip_int_lem :
      (x lo hi : ℤ)
      → lo ≤ℤ hi
      → libs.clip_int x lo hi ≡ (if ltb_ℤ x lo then lo else if ltb_ℤ hi x then hi else x)
  clip_int_lem x lo hi h =
      ground (arith, clip_int-below x lo hi h, clip_int-above x lo hi h, clip_int-within x lo hi)

-- A trust score in its range.
abbrev pub InRange : ℤ → Type 0
InRange t = (pos 0 ≤ℤ t) × (t ≤ℤ pos 1000)

module _ {W : Type 0} ⦃f : Float W⦄ (engine : TrustEngine W) (clips : IsClip engine.libs) where
  open f use {lit, lt, sub, mul, trunc}

  clipped : (prev x t : ℤ) → engine.libs.clip_int x (pos 0) (pos 1000) ≡ t → InRange t
  clipped prev x t e = ground (arith, clip_int_lem engine.libs clips x (pos 0) (pos 1000))

  -- Whatever the risk and the previous score, the new trust score is between 0 and 1000.
  pub update_trust-InRange :
      (state after : IdentityState W) (risk now : W) (t : ℤ)
      → update_trust engine state risk now ≡ some (t, after)
      → InRange t
  unfolding update_trust
  update_trust-InRange state after risk now t h = elim (Bool-cases (lt (lit 45 2) risk)) [
    | inl high ↦ elim (Option-cases (trunc (mul (sub risk (lit 45 2)) (lit 900 0)))) [
      | inl raised ↦ absurd (ground arith)
      | inr (n, e) ↦ clipped state.trust (state.trust -ℤ n) t (ground arith)
    ]
    | inr low ↦ elim (Option-cases (trunc (mul (sub (lit 45 2) risk) (lit 60 0)))) [
      | inl raised ↦ absurd (ground arith)
      | inr (n, e) ↦
          let granted = allowed_gain engine.recovery_cap n (roll_window state now) in
          clipped state.trust (state.trust +ℤ granted) t (ground arith)
    ]
  ]

  fell :
      (prev loss t : ℤ)
      → InRange prev
      → pos 0 ≤ℤ loss
      → engine.libs.clip_int (prev -ℤ loss) (pos 0) (pos 1000) ≡ t
      → t ≤ℤ prev
  fell prev loss t range h e =
      ground (
        arith,
        clip_int_lem engine.libs clips (prev -ℤ loss) (pos 0) (pos 1000),
        -ℤ_parts prev loss,
      )

  rose :
      (prev spent granted spent' t : ℤ)
      → InRange prev
      → pos 0 ≤ℤ granted
      → engine.libs.clip_int (prev +ℤ granted) (pos 0) (pos 1000) ≡ t
      → spent +ℤ granted ≡ spent'
      → (prev ≤ℤ t) × (t +ℤ spent ≤ℤ prev +ℤ spent')
  rose prev spent granted spent' t range h e e' = ground (
    arith,
    clip_int_lem engine.libs clips (prev +ℤ granted) (pos 0) (pos 1000),
    +ℤ_parts prev granted,
    +ℤ_parts spent granted,
    +ℤ_parts t spent,
    +ℤ_parts prev spent',
  )

  granted_nonneg :
      (cap gain : ℤ) (s : IdentityState W) → pos 0 ≤ℤ gain → pos 0 ≤ℤ allowed_gain cap gain s
  granted_nonneg cap gain s h = ground arith

  module _ (laws : IsFloat W) where
    open laws use {lt_asymm, trunc_nonneg, sub_nonneg, mul_nonneg, lit_mono}

    step_nonneg :
        (a b k : W) {n : ℤ}
        → lt b a ≡ false
        → lt k zero_float ≡ false
        → trunc (mul (sub b a) k) ≡ some n
        → pos 0 ≤ℤ n
    step_nonneg a b k h hk e =
        trunc_nonneg (mul (sub b a) k) (mul_nonneg (sub b a) k (sub_nonneg a b h) hk) e

    -- From a score in range, a risk above 0.45 never raises the score and spends no budget; any
    -- other never lowers it, and raises it by what it takes from the budget at most.
    pub update_trust_direction :
        (state after : IdentityState W) (risk now : W) (t : ℤ)
        → InRange state.trust
        → update_trust engine state risk now ≡ some (t, after)
        → (if lt (lit 45 2) risk
            then (t ≤ℤ state.trust) × (after ≡ state)
            else (state.trust ≤ℤ t)
              × (t +ℤ (roll_window state now).recovered_in_window
                  ≤ℤ state.trust +ℤ after.recovered_in_window))
    unfolding update_trust
    update_trust_direction state after risk now t range h =
        let rolled = roll_window state now in
        elim (Bool-cases (lt (lit 45 2) risk)) [
          | inl high ↦ elim (Option-cases (trunc (mul (sub risk (lit 45 2)) (lit 900 0)))) [
            | inl raised ↦ absurd (ground arith)
            | inr (n, e) ↦
                let loss =
                  step_nonneg (lit 45 2) risk (lit 900 0) (lt_asymm (lit 45 2) risk high)
                    (lit_mono 0 0 900 0 (omega arith)) e in
                rw high (fell state.trust n t range loss (ground arith), ground arith)
          ]
          | inr low ↦ elim (Option-cases (trunc (mul (sub (lit 45 2) risk) (lit 60 0)))) [
            | inl raised ↦ absurd (ground arith)
            | inr (n, e) ↦
                let gain =
                  step_nonneg risk (lit 45 2) (lit 60 0) low (lit_mono 0 0 60 0 (omega arith)) e in
                rw low (
                  rose state.trust rolled.recovered_in_window
                    (allowed_gain engine.recovery_cap n rolled) after.recovered_in_window t range
                    (granted_nonneg engine.recovery_cap n rolled gain) (ground arith)
                    (ground arith))
          ]
        ]
