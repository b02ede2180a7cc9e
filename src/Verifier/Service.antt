-- ===== src/Verifier/Service.antt =====
-- backend/app/verifier_service.py: the service that holds the private key. The key pair is a
-- parameter: a signer and the text of its public key.
pub mod Accepted
use bank_of_baroda_iit_gn.Common.{String, Option, none}
use bank_of_baroda_iit_gn.Float.{Float}
use bank_of_baroda_iit_gn.Verifier.{Codec, Signer}
use bank_of_baroda_iit_gn.Verifier.Backends.{issue}

pub record IssueRequest : Type 0 where
  pub challenge_id : String
  pub identity_id : String
  pub method : String
  pub result : String

-- A request without the optional fields.
abbrev pub default_request : String → String → IssueRequest
default_request challenge_id identity_id = record {
  challenge_id = challenge_id;
  identity_id = identity_id;
  method = "otp_sms";
  result = "pass";
}

pub record VerifierHealth : Type 0 where
  pub status : String
  pub service : String
  pub public_key : String

-- `health`: the public key only.
unfoldable pub health : String → VerifierHealth
health public_key_b64 = record { status = "ok"; service = "verifier"; public_key = public_key_b64 }

-- `issue` of the service, with the default life of 120 seconds: the assertion of the response.
unfoldable pub issue_assertion :
    {W : Type 0} ⦃f : Float W⦄ → Codec W → Signer → String → W → IssueRequest → String
issue_assertion ⦃f⦄ codec signer drawn now req =
    issue codec signer req.challenge_id req.identity_id req.method req.result (f.lit 120 0) none
      drawn now
