-- ===== src/Explain.antt =====
-- backend/app/explain.py and `_explain` of risk_engine.py: ranked contributions for the SOC plane.
-- Python's `sorted` is an insertion sort here; at NaN, which compares with nothing, its order is
-- that of the sort and not modelled.
use Prim.Native.Char.{code}
use bank_of_baroda_iit_gn.Common.{
  String, Bool, true, false, ◌&&◌, ◌||◌, not, Option, none, some, List, [], ◌∷◌, take, is_empty,
  ltb, ◌==◌, str_eq, if◌then◌else◌,
}
use bank_of_baroda_iit_gn.Common.Int.{ℤ}
use bank_of_baroda_iit_gn.Common.Dict.{Dict, lookup}
use bank_of_baroda_iit_gn.Float.{Float, le, zero_float}
use bank_of_baroda_iit_gn.Schemas.{Counterfactual}
use bank_of_baroda_iit_gn.Features.{feature_names}

-- A sort by insertion, in descending order of what `before` compares; equal elements keep their
-- order, as under Python's `reverse=True`.
unfoldable pub insert_desc : {A : Type 0} → (A → A → Bool) → A → List A → List A
insert_desc less x [] = x ∷ []
insert_desc less x (y ∷ ys) = if less x y then y ∷ insert_desc less x ys else x ∷ y ∷ ys

unfoldable pub sort_desc : {A : Type 0} → (A → A → Bool) → List A → List A
unfolding insert_desc
sort_desc less [] = []
sort_desc less (x ∷ xs) = insert_desc less x (sort_desc less xs)

-- The order of Python's `str`, by code points.
unfoldable pub text_lt : String → String → Bool
text_lt String.[] String.[] = false
text_lt String.[] (String.◌∷◌ d t) = true
text_lt (String.◌∷◌ c s) String.[] = false
text_lt (String.◌∷◌ c s) (String.◌∷◌ d t) =
    ltb (code c) (code d) || (code c == code d && text_lt s t)

-- `REASON_TEXT`
abbrev pub reason_text : Dict String
reason_text =
    ("new_device", "NEW_DEVICE: first time this device is used for this identity")
    ∷ ("new_geo", "GEO_ANOMALY: activity from an unseen location bucket")
    ∷ ("hour_deviation", "TIME_ANOMALY: activity far outside usual hours")
    ∷ ("amount_zscore", "AMOUNT_ANOMALY: amount deviates strongly from history")
    ∷ ("behavior_anomaly", "BEHAVIOUR_MISMATCH: typing/swipe pattern does not match owner")
    ∷ ("event_criticality", "SENSITIVE_ACTION: inherently high-risk operation")
    ∷ ("channel_risk", "CHANNEL_RISK: elevated-risk channel")
    ∷ ("new_beneficiary", "NEW_BENEFICIARY: payment to a never-seen payee")
    ∷ ("recovery_change", "RECOVERY_CHANGE: recovery contact being modified")
    ∷ ("velocity", "VELOCITY: unusually rapid activity burst")
    ∷ ("device_sharing", "DEVICE_SHARING: device linked to multiple identities (mule-farm pattern)")
    ∷ []

abbrev pub normal_reason : String
normal_reason = "NORMAL: behaviour consistent with identity baseline"

-- `_CF_TEMPLATE`
abbrev pub cf_template : Dict String
cf_template =
    ("new_device", "the device were already recognised for this identity")
    ∷ ("new_geo", "the login came from a known location")
    ∷ ("hour_deviation", "the activity were within the usual hours")
    ∷ ("amount_zscore", "the amount were closer to this identity's normal range")
    ∷ ("behavior_anomaly", "the behavioural-biometric match were stronger")
    ∷ ("event_criticality", "the action were lower-risk")
    ∷ ("channel_risk", "the channel were lower-risk")
    ∷ ("new_beneficiary", "the payee were already known")
    ∷ ("recovery_change", "the recovery contact were not being changed")
    ∷ ("velocity", "the activity were less rapid")
    ∷ ("device_sharing", "the device were not shared across identities")
    ∷ []

-- The text for a feature, `otherwise` where the table has none.
abbrev text_or : String → Option String → String
text_or otherwise none = otherwise
text_or otherwise (some t) = t

abbrev reasons_or_normal : List String → List String
reasons_or_normal reasons = if is_empty reasons then normal_reason ∷ [] else reasons

-- The sentence about an amount that `int` gave; `none` where `int` raised.
abbrev near : Option ℤ → Option Counterfactual
near none = none
near (some n) = some (Counterfactual.near_amount n)

module _ {W : Type 0} ⦃f : Float W⦄ where
  open f use {lit, lt, eq, sub, mul, abs, round4, trunc}

  -- `WEIGHTS` of risk_engine.py.
  abbrev pub weights : List W
  weights =
      lit 14 2
      ∷ lit 10 2
      ∷ lit 5 2
      ∷ lit 11 2
      ∷ lit 15 2
      ∷ lit 7 2
      ∷ lit 4 2
      ∷ lit 8 2
      ∷ lit 12 2
      ∷ lit 4 2
      ∷ lit 10 2
      ∷ []

  -- `BASELINE`
  abbrev pub baseline : List W
  baseline =
      lit 0 1
      ∷ lit 0 1
      ∷ lit 0 1
      ∷ lit 0 1
      ∷ lit 1 1
      ∷ lit 2 1
      ∷ lit 3 1
      ∷ lit 0 1
      ∷ lit 0 1
      ∷ lit 0 1
      ∷ lit 0 1
      ∷ []

  -- `w * f for w, f in zip(WEIGHTS, vec)`
  unfoldable pub products : List W → List W → List W
  products (w ∷ ws) (x ∷ xs) = mul w x ∷ products ws xs
  products _ _ = []

  unfoldable pub contributions_of : List W → List W → List String → List (W × String)
  contributions_of (w ∷ ws) (x ∷ xs) (n ∷ ns) = (mul w x, n) ∷ contributions_of ws xs ns
  contributions_of _ _ _ = []

  -- `(round(w * (f - b), 4), name)` over the four lists.
  unfoldable pub phis_of : List W → List W → List W → List String → List (W × String)
  phis_of (w ∷ ws) (x ∷ xs) (b ∷ bs) (n ∷ ns) = (round4 (mul w (sub x b)), n) ∷ phis_of ws xs bs ns
  phis_of _ _ _ _ = []

  -- The order of Python's pairs: by the first component unless these are equal.
  abbrev pair_lt : W × String → W × String → Bool
  unfolding text_lt
  pair_lt (c, m) (d, n) = if eq c d then text_lt m n else lt c d

  abbrev magnitude_lt : W × String → W × String → Bool
  magnitude_lt (c, m) (d, n) = lt (abs c) (abs d)

  -- The reasons among the contributions that are above 0.05.
  abbrev reasons_of : List (W × String) → List String
  unfolding lookup
  reasons_of [] = []
  reasons_of ((c, n) ∷ rest) =
      let more = reasons_of rest in
      if lt (lit 5 2) c then text_or n (lookup n reason_text) ∷ more else more

  -- `TrustEngine._explain`
  unfoldable pub explain : List W → List String × List (W × String)
  unfolding contributions_of sort_desc text_lt lookup
  explain vec =
      let contributions = sort_desc pair_lt (contributions_of weights vec feature_names) in
      (reasons_or_normal (reasons_of (take 3 contributions)), take 5 contributions)

  -- `shap_values`
  unfoldable pub shap_values : List W → List W → List (W × String)
  unfolding phis_of sort_desc
  shap_values vec ws = sort_desc magnitude_lt (phis_of ws vec baseline feature_names)

  -- The truth value of an optional amount: present, and not 0.
  abbrev truthy : Option W → Bool
  truthy none = false
  truthy (some a) = not (eq a zero_float)

  -- The sentence with `int(amount_ref)`; `none` where `int` raises.
  abbrev amount_sentence : Option W → Option Counterfactual
  amount_sentence none = some Counterfactual.usual_amount
  amount_sentence (some r) =
      if not (eq r zero_float) && lt zero_float r
      then near (trunc r)
      else some Counterfactual.usual_amount

  abbrev top_sentence : Option W → Option W → List (W × String) → Option Counterfactual
  unfolding lookup
  top_sentence amount amount_ref [] = none
  top_sentence amount amount_ref ((top_phi, top_name) ∷ phis) =
      if le top_phi zero_float
      then some Counterfactual.no_factor
      else if str_eq top_name "amount_zscore" && truthy amount
      then amount_sentence amount_ref
      else some (
          Counterfactual.other_factor
            (text_or "this factor were normal" (lookup top_name cf_template)))

  -- `counterfactual`; `none` where it raises: `phis[0]` of no values, `int` of an infinity.
  unfoldable pub counterfactual : List W → List W → Option W → Option W → Option Counterfactual
  unfolding shap_values lookup
  counterfactual vec ws amount amount_ref = top_sentence amount amount_ref (shap_values vec ws)
