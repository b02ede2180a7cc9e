-- ===== src/Attestation/Trust.antt =====
-- A similarity that is believed comes from two signed, bound and fresh tokens.
use bank_of_baroda_iit_gn.Common.{
  String, ◌≡◌, true, Option, none, some, arith, str_eq_iff, Bool-cases, Option-cases, Result-cases,
  false, inl, inr,
}
use bank_of_baroda_iit_gn.Common.Dict.{lookup}
use bank_of_baroda_iit_gn.Float.{Float}
use bank_of_baroda_iit_gn.Verifier.{Codec, Json, NonceCache, Payload, SignatureVerifier, open_token}
use bank_of_baroda_iit_gn.Verifier.Validation.{IsSigned, open_token-IsSigned}
use bank_of_baroda_iit_gn.Attestation.{bound, float_at, fresh, present_is, resolve, token_or_empty}

-- A value that equals a text is that text.
present_text :
    {W : Type 0} (s : String) (o : Option (Json W)) → present_is s o ≡ true → o ≡ some (Json.text s)
present_text s none h = cc (h)
present_text s (some (Json.text t)) h = ground (arith, h, str_eq_iff t s)
present_text s (some (Json.number x)) h = cc (h)
present_text s (some Json.other) h = cc (h)

module _ {W : Type 0} ⦃f : Float W⦄ (codec : Codec W) where
  open f use {lt, add}

  -- A payload that has not expired at `now`, and was not issued after it by more than the skew.
  pub record IsFresh (skew now : W) (payload : Payload W) : Type 0 where
    pub exp : W
    pub issued : W
    pub expiry : float_at codec (lookup "exp" payload) ≡ some exp
    pub not_expired : lt exp now ≡ false
    pub issue_time : float_at codec (lookup "issued_at" payload) ≡ some issued
    pub not_future : lt (add now skew) issued ≡ false

  -- An attestation and a behaviour payload, each signed by the key of its kind, that agree with the
  -- event.
  pub record IsTrusted (attest behavior : SignatureVerifier) (skew now : W)
      (attestation_token behavior_token : Option String) (identity device : String) : Type 0 where
    pub att : Payload W
    pub beh : Payload W
    pub att_signed : IsSigned codec attest (token_or_empty attestation_token) att
    pub beh_signed : IsSigned codec behavior (token_or_empty behavior_token) beh
    pub att_kind : lookup "kind" att ≡ some (Json.text "device_attestation")
    pub beh_kind : lookup "kind" beh ≡ some (Json.text "behavior_similarity")
    pub att_fresh : IsFresh skew now att
    pub beh_fresh : IsFresh skew now beh
    pub verdict : lookup "verdict" att ≡ some (Json.text "MEETS_DEVICE_INTEGRITY")
    pub att_device : lookup "device_id" att ≡ some (Json.text device)
    pub beh_device : lookup "device_id" beh ≡ some (Json.text device)
    pub beh_identity : lookup "identity_id" beh ≡ some (Json.text identity)

  fresh-IsFresh :
      (skew now : W) (payload : Payload W)
      → fresh codec skew payload now ≡ true
      → IsFresh skew now payload
  unfolding fresh
  fresh-IsFresh skew now payload h = elim (Option-cases (float_at codec (lookup "exp" payload))) [
    | inl missing ↦ absurd (ground (arith, missing, h))
    | inr (exp, expiry) ↦ elim (Option-cases (float_at codec (lookup "issued_at" payload))) [
      | inl missing ↦ absurd (ground (arith, expiry, missing, h))
      | inr (issued, issue_time) ↦ record {
        exp = exp;
        issued = issued;
        expiry = expiry;
        not_expired = ground (arith, expiry, issue_time, h);
        issue_time = issue_time;
        not_future = ground (arith, expiry, issue_time, h);
      }
    ]
  ]

  bound-IsTrusted :
      (attest behavior : SignatureVerifier) (skew now : W)
      (attestation_token behavior_token : Option String) (identity device : String)
      (att beh : Payload W)
      → IsSigned codec attest (token_or_empty attestation_token) att
      → IsSigned codec behavior (token_or_empty behavior_token) beh
      → bound codec skew now att beh identity device ≡ true
      → IsTrusted attest behavior skew now attestation_token behavior_token identity device
  unfolding bound
  bound-IsTrusted attest behavior skew now attestation_token behavior_token identity device att beh
        att_signed beh_signed h =
      record {
        att = att;
        beh = beh;
        att_signed = att_signed;
        beh_signed = beh_signed;
        att_kind = present_text "device_attestation" (lookup "kind" att) (ground (arith, h));
        beh_kind = present_text "behavior_similarity" (lookup "kind" beh) (ground (arith, h));
        att_fresh = fresh-IsFresh skew now att (ground (arith, h));
        beh_fresh = fresh-IsFresh skew now beh (ground (arith, h));
        verdict = present_text "MEETS_DEVICE_INTEGRITY" (lookup "verdict" att) (ground (arith, h));
        att_device = present_text device (lookup "device_id" att) (ground (arith, h));
        beh_device = present_text device (lookup "device_id" beh) (ground (arith, h));
        beh_identity = present_text identity (lookup "identity_id" beh) (ground (arith, h));
      }

  -- `resolve` believes a similarity only if both tokens are signed by the key of their kind, of
  -- that kind, fresh, of a device that passed the integrity check, and bound to the event's device
  -- and identity.
  pub resolve-IsTrusted :
      (attest behavior : SignatureVerifier) (skew clock : W)
      (attestation_token behavior_token : Option String) (identity device : String) (now : W)
      (cache : NonceCache W) (sim : W)
      → (resolve codec attest behavior skew clock attestation_token behavior_token identity device
          now cache).0
        ≡ some sim
      → IsTrusted attest behavior skew now attestation_token behavior_token identity device
  unfolding resolve
  resolve-IsTrusted attest behavior skew clock attestation_token behavior_token identity device now
        cache sim h =
      elim (Result-cases (open_token codec attest (token_or_empty attestation_token))) [
        | inl (e, failed) ↦ absurd (ground (arith, failed, h))
        | inr (att, opened) ↦
            elim (Result-cases (open_token codec behavior (token_or_empty behavior_token))) [
              | inl (e, failed) ↦ absurd (ground (arith, opened, failed, h))
              | inr (beh, opened') ↦
                  elim (Bool-cases (bound codec skew now att beh identity device)) [
                    | inl agreed ↦
                        bound-IsTrusted attest behavior skew now attestation_token behavior_token
                          identity device att beh
                          (open_token-IsSigned codec attest (token_or_empty attestation_token) att
                            opened)
                          (open_token-IsSigned codec behavior (token_or_empty behavior_token) beh
                            opened')
                          agreed
                    | inr apart ↦ absurd (ground (arith, opened, opened', apart, h))
                  ]
            ]
      ]
