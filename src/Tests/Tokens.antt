-- ===== src/Tests/Tokens.antt =====
-- The theorems on step-up tokens at a signed token.
use bank_of_baroda_iit_gn.Common.{
  ◌≡◌, ◌≢◌, refl, [], ◌∷◌, ok, err, none, some, false, length, ◌==◌, if◌then◌else◌,
}
use bank_of_baroda_iit_gn.Common.Int.{◌+ℤ◌, ◌-ℤ◌, ◌*ℤ◌}
use bank_of_baroda_iit_gn.Common.Dict.{lookup, insert}
use bank_of_baroda_iit_gn.Float.Fixed.{Fixed, fixed_float}
use bank_of_baroda_iit_gn.Float.Fixed.Laws.{Fixed-IsFloat}
use bank_of_baroda_iit_gn.Verifier.{
  NonceCache, Rejection, validate, check_assertion, open_token, split_dot, has_dot, prune, seen,
  remember, assertion_of, Codec, Payload, Signer, number, text,
}
use bank_of_baroda_iit_gn.Verifier.Service.{IssueRequest, default_request, issue_assertion}
use bank_of_baroda_iit_gn.Verifier.Service.Accepted.{IsCarried, issued, validate-issue_assertion}
use bank_of_baroda_iit_gn.Verifier.Validation.{IsAccepted, validate-IsAccepted}
use bank_of_baroda_iit_gn.Verifier.Replay.{Request, attempt, serve, no_replay}
use bank_of_baroda_iit_gn.Tests.Data.{codec, key, payload}

abbrev now : Fixed
now = fixed_float.lit 1600 0

abbrev skew : Fixed
skew = fixed_float.lit 120 0

abbrev fresh_cache : NonceCache Fixed
fresh_cache = ("old", fixed_float.lit 100 0) ∷ []

abbrev spent_cache : NonceCache Fixed
spent_cache = ("n1", fixed_float.lit 1800 0) ∷ []

accepted :
    validate codec key skew now "P.S" "asha" now fresh_cache
    ≡ (ok (assertion_of payload), spent_cache)
unfolding validate check_assertion open_token split_dot has_dot prune seen remember lookup insert
    ◌+ℤ◌ ◌-ℤ◌ ◌*ℤ◌
accepted = refl

replayed :
    validate codec key skew now "P.S" "asha" now spent_cache
    ≡ (err Rejection.replayed_nonce, spent_cache)
unfolding validate check_assertion open_token split_dot has_dot prune seen remember lookup insert
    ◌+ℤ◌ ◌-ℤ◌ ◌*ℤ◌
replayed = refl

validate-IsAccepted_example :
    IsAccepted codec key skew now "P.S" "asha" now fresh_cache (assertion_of payload) spent_cache
validate-IsAccepted_example =
    validate-IsAccepted codec key skew now "P.S" "asha" now fresh_cache (assertion_of payload)
      spent_cache accepted

abbrev request : Request Fixed
request = record { token = "P.S"; who = "asha"; now = now; clock = now }

abbrev garbage : Request Fixed
garbage = record { token = "nothing"; who = "asha"; now = now; clock = now }

first_accepted :
    (attempt Fixed-IsFloat codec key skew request fresh_cache).0 ≡ ok (assertion_of payload)
unfolding validate check_assertion open_token split_dot has_dot prune seen remember lookup insert
    ◌+ℤ◌ ◌-ℤ◌ ◌*ℤ◌
first_accepted = refl

expires : codec.to_float (assertion_of payload).exp ≡ some (fixed_float.lit 1800 0)
unfolding lookup ◌+ℤ◌ ◌-ℤ◌ ◌*ℤ◌
expires = refl

no_replay_example :
    (attempt Fixed-IsFloat codec key skew request (
      serve Fixed-IsFloat codec key skew
        (garbage ∷ [])
        (attempt Fixed-IsFloat codec key skew request fresh_cache).1)).0
    ≢ ok (assertion_of payload)
no_replay_example =
    no_replay Fixed-IsFloat codec key skew request (garbage ∷ []) request fresh_cache
      (assertion_of payload) (assertion_of payload) (fixed_float.lit 1800 0) refl (refl, tt) expires
      refl first_accepted

abbrev pub asked : IssueRequest
asked = default_request "c1" "asha"

abbrev pub provider : Signer
provider = record { alg = "ed25519"; sign = λ message. 7 ∷ [] }

abbrev pub issue_time : Fixed
issue_time = fixed_float.lit 1500 0

abbrev pub service_codec : Codec Fixed
service_codec = record codec {
  b64e = λ bytes. if length bytes == 1 then "S" else "P";
  json_loads = λ bytes. some (issued codec provider "n1" issue_time asked);
}

abbrev pub sent : Payload Fixed
sent = issued service_codec provider "n1" issue_time asked

pub sent-IsCarried : IsCarried service_codec provider key sent sent
unfolding has_dot
sent-IsCarried = record {
  plain = refl;
  plain_signature = refl;
  decodes = refl;
  decodes_signature = refl;
  parses = refl;
  items = λ k. refl;
  verifies = refl;
}

in_time :
    fixed_float.lt (fixed_float.add issue_time (fixed_float.lit 120 0)) (fixed_float.lit 1600 0)
    ≡ false
unfolding ◌+ℤ◌ ◌-ℤ◌ ◌*ℤ◌
in_time = refl

not_early : fixed_float.lt (fixed_float.add now skew) issue_time ≡ false
unfolding ◌+ℤ◌ ◌-ℤ◌ ◌*ℤ◌
not_early = refl

unused : lookup "n1" (prune now fresh_cache) ≡ none
unfolding lookup prune ◌+ℤ◌ ◌-ℤ◌ ◌*ℤ◌
unused = refl

validate-issue_assertion_example :
    validate service_codec key skew now
      (issue_assertion service_codec provider "n1" issue_time asked)
      "asha"
      now
      fresh_cache
    ≡ (
      ok (record {
        challenge_id = text "c1";
        identity_id = text "asha";
        method = text "otp_sms";
        result = text "pass";
        issued_at = number issue_time;
        nonce = text "n1";
        exp = number (fixed_float.add issue_time (fixed_float.lit 120 0));
      }),
      remember "n1" (fixed_float.add issue_time (fixed_float.lit 120 0)) (prune now fresh_cache),
    )
validate-issue_assertion_example =
    validate-issue_assertion service_codec provider key skew now "n1" issue_time now fresh_cache
      asked sent sent-IsCarried (λ x. refl) refl in_time not_early unused
