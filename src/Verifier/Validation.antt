-- ===== src/Verifier/Validation.antt =====
-- What an accepted assertion proves of its token.
use bank_of_baroda_iit_gn.Common.{
  String, ◌≡◌, true, false, none, some, ok, err, inl, inr, ◌⊎◌, Option-cases, Result-cases, arith,
}
use bank_of_baroda_iit_gn.Common.Dict.{lookup}
use bank_of_baroda_iit_gn.Float.{Float}
use bank_of_baroda_iit_gn.Verifier.{
  Payload, Bytes, Codec, SignatureVerifier, Rejection, StepUpAssertion, NonceCache, fields, has_all,
  field, is_text, split_dot, open_token, check_assertion, validate, assertion_of, prune, remember,
}

module _ {W : Type 0} (codec : Codec W) where
  open codec use {b64d, encode, json_loads}

  -- The token is two segments around one dot, the second the signature of the first by the trusted
  -- key, the first the encoding of the payload.
  pub record IsSigned (v : SignatureVerifier) (token : String) (payload : Payload W) : Type 0 where
    pub segment : String
    pub signature_text : String
    pub signature : Bytes
    pub raw : Bytes
    pub split : split_dot token ≡ some (segment, signature_text)
    pub decoded : b64d signature_text ≡ some signature
    pub parsed_raw : b64d segment ≡ some raw
    pub parsed : json_loads raw ≡ some payload
    pub verified : v.verify (encode segment) signature ≡ true

  pub open_token-IsSigned :
      (v : SignatureVerifier) (token : String) (payload : Payload W)
      → open_token codec v token ≡ ok payload
      → IsSigned v token payload
  unfolding open_token
  open_token-IsSigned v token payload h = elim (Option-cases (split_dot token)) [
    | inl unsplit ↦ absurd (ground arith)
    | inr (parts, e) ↦ elim (Option-cases (b64d parts.1)) [
      | inl no_sig ↦ absurd (ground arith)
      | inr (sig, e1) ↦ elim (Option-cases (b64d parts.0)) [
        | inl no_raw ↦ absurd (ground arith)
        | inr (raw, e2) ↦ record {
          segment = parts.0;
          signature_text = parts.1;
          signature = sig;
          raw = raw;
          split = e;
          decoded = e1;
          parsed_raw = e2;
          parsed = ground arith;
          verified = ground arith;
        }
      ]
    ]
  ]

module _ {W : Type 0} ⦃f : Float W⦄ (codec : Codec W) where
  open f use {lt, add}
  open codec use {to_float, hash_key}

  -- The payload is complete, names the expected identity, has not expired and is not from the
  -- future.
  pub record IsCurrent (skew : W) (who : String) (now : W) (payload : Payload W) (exp : W)
      : Type 0 where
    pub complete : has_all fields payload ≡ true
    pub bound : is_text who (field "identity_id" payload) ≡ true
    pub expiry : to_float (field "exp" payload) ≡ some exp
    pub not_expired : lt exp now ≡ false
    pub issued : W
    pub issue_time : to_float (field "issued_at" payload) ≡ some issued
    pub not_future : lt (add now skew) issued ≡ false

  pub check_assertion-IsCurrent :
      (v : SignatureVerifier) (skew : W) (token who : String) (now : W) (payload : Payload W)
      (exp : W)
      → check_assertion codec v skew token who now ≡ ok (payload, exp)
      → (open_token codec v token ≡ ok payload) × IsCurrent skew who now payload exp
  unfolding check_assertion
  check_assertion-IsCurrent v skew token who now payload exp h =
      elim (Result-cases (open_token codec v token)) [
        | inl (e, failed) ↦ absurd (ground arith)
        | inr (p, opened) ↦ elim (Option-cases (to_float (field "exp" p))) [
          | inl no_exp ↦ absurd (ground arith)
          | inr (x, at_exp) ↦ elim (Option-cases (to_float (field "issued_at" p))) [
            | inl no_issue ↦ absurd (ground arith)
            | inr (i, at_issue) ↦ (
              ground arith,
              record {
                complete = ground arith;
                bound = ground arith;
                expiry = ground arith;
                not_expired = ground arith;
                issued = i;
                issue_time = ground arith;
                not_future = ground arith;
              },
            )
          ]
        ]
      ]

  -- What an accepted token is: signed by the trusted key, current, bound to the identity, and of a
  -- nonce that the pruned cache did not hold and that the new cache holds until the expiry.
  pub record IsAccepted (v : SignatureVerifier) (skew clock : W) (token who : String) (now : W)
      (cache : NonceCache W) (a : StepUpAssertion W) (cache' : NonceCache W) : Type 0 where
    pub payload : Payload W
    pub exp : W
    pub nonce : String
    pub signed : IsSigned codec v token payload
    pub current : IsCurrent skew who now payload exp
    pub read : a ≡ assertion_of payload
    pub keyed : hash_key (field "nonce" payload) ≡ some nonce
    pub unused : lookup nonce (prune clock cache) ≡ none
    pub used : cache' ≡ remember nonce exp (prune clock cache)

  -- `validate` accepts a token only if it is signed, current, bound to the identity and unused.
  pub validate-IsAccepted :
      (v : SignatureVerifier) (skew clock : W) (token who : String) (now : W) (cache : NonceCache W)
      → (a : StepUpAssertion W) (cache' : NonceCache W)
      → validate codec v skew clock token who now cache ≡ (ok a, cache')
      → IsAccepted v skew clock token who now cache a cache'
  unfolding validate
  validate-IsAccepted v skew clock token who now cache a cache' h =
      elim (Result-cases (check_assertion codec v skew token who now)) [
        | inl (e, failed) ↦ absurd (ground arith)
        | inr ((p, x), checked) ↦ elim (Option-cases (hash_key (field "nonce" p))) [
          | inl unhashable ↦ absurd (ground arith)
          | inr (n, keyed) ↦
              let (opened, current) = check_assertion-IsCurrent v skew token who now p x checked in
              record {
                payload = p;
                exp = x;
                nonce = n;
                signed = open_token-IsSigned codec v token p opened;
                current = current;
                read = ground arith;
                keyed = keyed;
                unused = ground arith;
                used = ground arith;
              }
        ]
      ]

  -- A rejected token consumes no nonce: the cache is left alone or only pruned.
  pub rejected_keeps_cache :
      (v : SignatureVerifier) (skew clock : W) (token who : String) (now : W) (cache : NonceCache W)
      → (e : Rejection) (cache' : NonceCache W)
      → validate codec v skew clock token who now cache ≡ (err e, cache')
      → (cache' ≡ cache) ⊎ (cache' ≡ prune clock cache)
  unfolding validate
  rejected_keeps_cache v skew clock token who now cache e cache' h =
      elim (Result-cases (check_assertion codec v skew token who now)) [
        | inl (x, failed) ↦ inl (ground arith)
        | inr ((p, x), checked) ↦ inr (ground arith)
      ]
