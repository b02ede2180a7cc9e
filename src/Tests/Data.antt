-- ===== src/Tests/Data.antt =====
-- A customer, a profile, an engine and a model answer, over the fixed-point numbers.
use bank_of_baroda_iit_gn.Common.{
  Result, ok, err, is_ok, String, ◌≡◌, true, false, Option, none, some, [], ◌∷◌, is_some,
  false≢true, refl, length, ◌==◌, str_eq, if◌then◌else◌,
}
use bank_of_baroda_iit_gn.Float.Fixed.{Fixed, fixed_float}
use bank_of_baroda_iit_gn.Float.Fixed.Laws.{fixed_libs}
use bank_of_baroda_iit_gn.Schemas.{EventType, Channel, IdentityEvent}
use bank_of_baroda_iit_gn.State.{IdentityState, new_state}
use bank_of_baroda_iit_gn.Verifier.{Codec, Json, SignatureVerifier, Payload}
use bank_of_baroda_iit_gn.Engine.Trust.{TrustEngine, new_engine}

abbrev pub get : {A : Type 0} (o : Option A) → is_some o ≡ true → A
get none h = absurd (false≢true h)
get (some a) h = a

pub get_lem : {A : Type 0} (o : Option A) (h : is_some o ≡ true) → o ≡ some (get o h)
get_lem none h = absurd (false≢true h)
get_lem (some a) h = refl

abbrev pub get_ok : {E A : Type 0} (r : Result E A) → is_ok r ≡ true → A
get_ok (ok a) h = a
get_ok (err e) h = absurd (false≢true h)

pub get_ok_lem : {E A : Type 0} (r : Result E A) (h : is_ok r ≡ true) → r ≡ ok (get_ok r h)
get_ok_lem (ok a) h = refl
get_ok_lem (err e) h = absurd (false≢true h)

abbrev pub login : IdentityEvent Fixed
login = record {
  identity_id = "asha";
  event_type = EventType.login;
  channel = Channel.mobile_app;
  device_id = "d1";
  geo = "IN-GJ";
  hour_of_day = 10;
  amount = none;
  is_new_beneficiary = false;
  recovery_contact_changed = false;
  privileged_scope = none;
  device_attestation = none;
  behavior_assertion = none;
  idempotency_key = none;
}

-- A recovery of the account from an unknown device abroad, with a new contact.
abbrev pub takeover : IdentityEvent Fixed
takeover = record login {
  event_type = EventType.account_recovery;
  channel = Channel.api;
  device_id = "d9";
  geo = "RU-MOW";
  hour_of_day = 3;
  recovery_contact_changed = true;
}

abbrev pub known_state : IdentityState Fixed
known_state = record new_state {
  devices = "d1" ∷ [];
  geos = "IN-GJ" ∷ [];
  hours = 10 ∷ 11 ∷ [];
  event_count = 2;
  last_event_ts = fixed_float.lit 1000 0;
  last_geo = "IN-GJ";
  last_geo_ts = fixed_float.lit 1000 0;
  version = 2;
}

-- A codec with two known segments, and a key whose signatures are one byte long.
abbrev pub payload : Payload Fixed
payload =
    ("challenge_id", Json.text "c1")
    ∷ ("identity_id", Json.text "asha")
    ∷ ("method", Json.text "otp_sms")
    ∷ ("result", Json.text "pass")
    ∷ ("issued_at", Json.number (fixed_float.lit 1500 0))
    ∷ ("nonce", Json.text "n1")
    ∷ ("exp", Json.number (fixed_float.lit 1800 0))
    ∷ []

abbrev float_of : Json Fixed → Option Fixed
float_of (Json.number x) = some x
float_of _ = none

abbrev key_of : Json Fixed → Option String
key_of (Json.text t) = some t
key_of _ = none

abbrev pub codec : Codec Fixed
codec = record {
  b64e = λ bytes. "P";
  b64d =
      λ s. if str_eq s "P" then some (1 ∷ 2 ∷ []) else if str_eq s "S" then some (7 ∷ []) else none;
  encode = λ s. 3 ∷ [];
  json_dumps = λ p. 1 ∷ 2 ∷ [];
  json_loads = λ bytes. some payload;
  to_float = float_of;
  hash_key = key_of;
  truth = λ j. true;
  format = λ j. "";
}

abbrev pub key : SignatureVerifier
key = record { verify = λ message signature. length signature == 1 }

abbrev pub engine : TrustEngine Fixed
engine =
    new_engine
      (record { decision_function = λ vec. some (fixed_float.lit 1 1); provenance = "PROD" }) none
      fixed_libs codec
