-- ===== src/Simulator.antt =====
-- simulator/attack_low_and_slow.py: a hijacked session that raises its amounts step by step. The clock
-- readings, nonces and identifiers of the calls are arguments, as is Python's rounding; writing the
-- results and plotting them are left out.
pub mod Creep
use bank_of_baroda_iit_gn.Common.{
  ℕ, zero, suc, ◌+◌, ◌*◌, ◌%◌, String, Bool, true, false, not, Option, none, some, List, [], ◌∷◌,
  leb, if◌then◌else◌,
}
use bank_of_baroda_iit_gn.Common.Int.{ℤ, pos}
use bank_of_baroda_iit_gn.Float.{Float}
use bank_of_baroda_iit_gn.Schemas.{
  Channel, Decision, EventType, IdentityEvent, SocAssessment, is_allow,
}
use bank_of_baroda_iit_gn.Verifier.{Signer}
use bank_of_baroda_iit_gn.Attestation.{integrity_pass, issue_attestation, issue_behavior}
use bank_of_baroda_iit_gn.Engine.Trust.{TrustEngine}
use bank_of_baroda_iit_gn.Engine.Assess.{EngineState, Surroundings, assess}

abbrev pub n_creep : ℕ
n_creep = 20

abbrev owner_device : String
owner_device = "dev_owner_phone"

-- What the calls of one run take from outside, by the number of the call.
pub record Day (W : Type 0) : Type 0 where
  pub around : ℕ → Surroundings W
  pub attest_nonce : ℕ → String
  pub attested_at : ℕ → W
  pub behavior_nonce : ℕ → String
  pub observed_at : ℕ → W
  -- `round(x)`, which raises at NaN and the infinities, and `round(x, 3)`.
  pub round_int : W → Option ℤ
  pub round3 : W → W

-- One entry of the trajectory.
pub record Session (W : Type 0) : Type 0 where
  pub session : ℕ
  pub amount : ℤ
  pub trust : ℤ
  pub event_risk : W
  pub decision : Decision
  pub caught : Bool

module _ {W : Type 0} ⦃f : Float W⦄ (engine : TrustEngine W) (day : Day W) (identity : String) where
  open f use {lit, add, mul, of_int}

  -- What both kinds of event have in common.
  abbrev transaction : Channel → W → IdentityEvent W
  transaction channel amount = record {
    identity_id = identity;
    event_type = EventType.transaction;
    channel = channel;
    device_id = owner_device;
    geo = "IN-GJ";
    hour_of_day = 12;
    amount = some amount;
    is_new_beneficiary = false;
    recovery_contact_changed = false;
    privileged_scope = none;
    device_attestation = none;
    behavior_assertion = none;
    idempotency_key = none;
  }

  -- An attested transaction of the owner; `attest` and `behave` are the providers' keys.
  unfoldable pub owner_event : Signer → Signer → ℕ → IdentityEvent W
  unfolding issue_attestation issue_behavior
  owner_event attest behave i =
      record (transaction Channel.mobile_app (add (lit 2000 0) (of_int (pos ((i % 3) * 100))))) {
        device_attestation = some (
            issue_attestation engine.codec attest owner_device integrity_pass (lit 300 0)
              (day.attest_nonce i) (day.attested_at i));
        behavior_assertion = some (
            issue_behavior engine.codec behave owner_device identity (lit 95 2) (lit 120 0)
              (day.behavior_nonce i) (day.observed_at i));
      }

  abbrev if_returned : {A : Type 0} → Option (SocAssessment W) → Option A → Option A
  if_returned none rest = none
  if_returned (some soc) rest = rest

  -- The first loop, with `n` turns left: `none` where it raises.
  unfoldable pub warm_up : Signer → Signer → ℕ → ℕ → EngineState W → Option (EngineState W)
  unfolding owner_event
  warm_up attest behave zero i s = some s
  warm_up attest behave (suc n) i s =
      let (soc, after) = assess engine (day.around i) (owner_event attest behave i) s in
      let rest = warm_up attest behave n (suc i) after in if_returned soc rest

  unfoldable pub creep_event : ℕ → W → IdentityEvent W
  creep_event i amount = record (transaction Channel.internet_banking amount) {
    is_new_beneficiary = leb 19 i;
  }

  abbrev pub session_with : ℕ → SocAssessment W → Option ℤ → Option (Session W)
  session_with i soc none = none
  session_with i soc (some rounded) = some (record {
    session = i;
    amount = rounded;
    trust = soc.trust_score;
    event_risk = day.round3 soc.event_risk;
    decision = soc.decision;
    caught = not (is_allow soc.decision);
  })

  abbrev pub session_of : ℕ → W → Option (SocAssessment W) → Option (Session W)
  session_of i amount none = none
  session_of i amount (some soc) = session_with i soc (day.round_int amount)

  abbrev pub before_rest :
      Option (Session W)
      → Option (List (Session W) × EngineState W)
      → Option (List (Session W) × EngineState W)
  before_rest (some t) (some (trajectory, s)) = some (t ∷ trajectory, s)
  before_rest _ _ = none

  -- The second loop, from session `i` with `n` turns left and this amount.
  unfoldable pub creep : ℕ → ℕ → W → EngineState W → Option (List (Session W) × EngineState W)
  unfolding creep_event
  creep zero i amount s = some ([], s)
  creep (suc n) i amount s =
      let (soc, after) = assess engine (day.around (10 + i)) (creep_event i amount) s in
      let rest = creep n (suc i) (mul amount (lit 125 2)) after in
      before_rest (session_of i amount soc) rest

  abbrev creep_from : Option (EngineState W) → Option (List (Session W) × EngineState W)
  creep_from none = none
  creep_from (some s) = creep n_creep 0 (lit 2500 0) s

  -- `run`: the trajectory, and what the engine is left with.
  unfoldable pub run_attack :
      Signer → Signer → EngineState W → Option (List (Session W) × EngineState W)
  unfolding warm_up creep
  run_attack attest behave s = creep_from (warm_up attest behave 10 0 s)

-- `next((t["session"] for t in traj if t["caught"]), None)`
unfoldable pub first_caught : {W : Type 0} → List (Session W) → Option ℕ
first_caught [] = none
first_caught (t ∷ ts) = let rest = first_caught ts in if t.caught then some t.session else rest
