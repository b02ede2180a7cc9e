-- ===== src/Tests/StepUps.antt =====
-- A whole step-up at a concrete service.
use bank_of_baroda_iit_gn.Common.{◌≡◌, ◌+◌, refl, false, none, ok, str_eq, leb, if◌then◌else◌}
use bank_of_baroda_iit_gn.Common.Int.{◌+ℤ◌, ◌-ℤ◌, ◌*ℤ◌}
use bank_of_baroda_iit_gn.Common.Dict.{lookup}
use bank_of_baroda_iit_gn.Float.Fixed.{Fixed, fixed_float}
use bank_of_baroda_iit_gn.Schemas.{Decision}
use bank_of_baroda_iit_gn.State.{load}
use bank_of_baroda_iit_gn.Verifier.{prune, remember, text}
use bank_of_baroda_iit_gn.Verifier.Service.{issue_assertion}
use bank_of_baroda_iit_gn.Audit.{append}
use bank_of_baroda_iit_gn.Engine.StepUp.{stepped}
use bank_of_baroda_iit_gn.Api.{AuditEntry, Config}
use bank_of_baroda_iit_gn.Api.Cache.{rate_count}
use bank_of_baroda_iit_gn.Api.StepUps.{StepUpRequest, step_up_message, step_up_outcome}
use bank_of_baroda_iit_gn.Api.Verified.{verified_step_up}
use bank_of_baroda_iit_gn.Tests.Service.{config, service}
use bank_of_baroda_iit_gn.Tests.Tokens.{
  asked, issue_time, provider, sent, sent-IsCarried, service_codec,
}

abbrev step_up_config : Config Fixed
step_up_config = record config { engine = record config.engine { codec = service_codec } }

abbrev request : StepUpRequest Fixed
request = record {
  assertion = issue_assertion service_codec provider "n1" issue_time asked;
  now = fixed_float.lit 1600 0;
  validated_at = fixed_float.lit 1600 0;
  clock = fixed_float.lit 1600 0;
  logged_at = fixed_float.lit 1601 0;
  rivals = λ k store. store;
}

in_time :
    fixed_float.lt (fixed_float.add issue_time (fixed_float.lit 120 0)) request.validated_at ≡ false
unfolding ◌+ℤ◌ ◌-ℤ◌ ◌*ℤ◌
in_time = refl

not_early :
    fixed_float.lt (fixed_float.add request.validated_at step_up_config.max_skew) issue_time ≡ false
unfolding ◌+ℤ◌ ◌-ℤ◌ ◌*ℤ◌
not_early = refl

unused : lookup "n1" (prune request.clock service.stepup_nonces) ≡ none
unfolding lookup prune
unused = refl

few_failures : leb 20 (rate_count service.stepup_failures "asha" request.now).0 ≡ false
unfolding rate_count lookup
few_failures = refl

few_accepted : leb 5 (rate_count service.stepup_accepted "asha" request.now).0 ≡ false
unfolding rate_count lookup
few_accepted = refl

verified_step_up_example :
    let (response, after) = step_up_outcome step_up_config request "asha" service in
    let state = load service.engine.store "asha" in
    (response
      ≡ ok (record {
        challenge_id = "c1";
        decision = if str_eq "pass" "pass" then Decision.allow else Decision.block;
        message = step_up_message (str_eq "pass" "pass");
      }))
    × (load after.engine.store "asha"
        ≡ record (stepped state (str_eq "pass" "pass")) { version = state.version + 1 })
    × (after.stepup_nonces
        ≡ remember "n1"
            (fixed_float.add issue_time (fixed_float.lit 120 0))
            (prune request.clock service.stepup_nonces))
    × (after.audit
        ≡ (append step_up_config.crypto service.audit
            (AuditEntry.stepped_up "asha"
              (text "otp_sms")
              (text "pass")
              (text "c1")
              (load after.engine.store "asha").trust)
            request.logged_at).1)
verified_step_up_example =
    verified_step_up step_up_config provider "n1" issue_time asked sent request service
      sent-IsCarried (λ x. refl) refl refl in_time not_early unused few_failures few_accepted refl
