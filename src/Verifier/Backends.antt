-- ===== src/Verifier/Backends.antt =====
-- The signature backends of backend/app/verifier.py over the calls of `hmac` and of `cryptography`,
-- and the issuing side of step-up assertions.
use bank_of_baroda_iit_gn.Common.{
  String, Bool, true, false, ◌&&◌, Option, none, some, [], ◌∷◌, ◌==◌, str_eq, if◌then◌else◌,
}
use bank_of_baroda_iit_gn.Float.{Float}
use bank_of_baroda_iit_gn.Verifier.{
  Bytes, Codec, Signer, SignatureVerifier, number, sign_token, text,
}

-- HMAC-SHA256 under a key, and the Ed25519 calls on raw keys; whether the package is there.
pub record KeyLibrary : Type 0 where
  pub hmac_digest : Bytes → Bytes → Bytes
  pub has_ed25519 : Bool
  pub ed25519_sign : Bytes → Bytes → Bytes
  -- Whether `from_public_bytes` returns, and whether `verify` of a signature returns.
  pub ed25519_is_public : Bytes → Bool
  pub ed25519_verify : Bytes → Bytes → Bytes → Bool

abbrev same_bytes : Bytes → Bytes → Bool
same_bytes [] [] = true
same_bytes (a ∷ s) (b ∷ t) = (a == b) && same_bytes s t
same_bytes _ _ = false

module _ (lib : KeyLibrary) where
  abbrev pub ed25519_signer : Bytes → Signer
  ed25519_signer key = record { alg = "ed25519"; sign = lib.ed25519_sign key }

  abbrev pub ed25519_verifier : Bytes → SignatureVerifier
  ed25519_verifier key = record { verify = λ message sig. lib.ed25519_verify key sig message }

  abbrev pub hmac_signer : Bytes → Signer
  hmac_signer key = record { alg = "hmac-sha256"; sign = lib.hmac_digest key }

  abbrev pub hmac_verifier : Bytes → SignatureVerifier
  hmac_verifier key = record {
    verify = λ message sig. same_bytes (lib.hmac_digest key message) sig;
  }

  abbrev pick_backend : Option Bytes → Option SignatureVerifier
  pick_backend none = none
  pick_backend (some key) = some (
      if lib.has_ed25519 && lib.ed25519_is_public key
      then ed25519_verifier key
      else hmac_verifier key)

  -- `build_verifier`; `none` where the text is no base64.
  unfoldable pub build_verifier : {W : Type 0} → Codec W → String → Option SignatureVerifier
  build_verifier codec public_key_b64 = pick_backend (codec.b64d public_key_b64)

abbrev nonce_or : Option String → String → String
nonce_or none drawn = drawn
nonce_or (some n) drawn = if str_eq n "" then drawn else n

-- `TrustedVerifier.issue` at the time `now`; `drawn` is the random nonce.
unfoldable pub issue :
    {W : Type 0} ⦃f : Float W⦄
    → Codec W
    → Signer
    → String
    → String
    → String
    → String
    → W
    → Option String
    → String
    → W
    → String
issue ⦃f⦄ codec signer challenge_id identity_id method result ttl_seconds nonce drawn now =
    sign_token codec signer (
      ("challenge_id", text challenge_id)
      ∷ ("identity_id", text identity_id)
      ∷ ("method", text method)
      ∷ ("result", text result)
      ∷ ("issued_at", number now)
      ∷ ("nonce", text (nonce_or nonce drawn))
      ∷ ("exp", number (f.add now ttl_seconds))
      ∷ ("alg", text signer.alg)
      ∷ [])
