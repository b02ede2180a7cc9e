-- ===== src/Verifier/Service/Accepted.antt =====
-- What the service issues, the engine's validator accepts.
use bank_of_baroda_iit_gn.Common.{
  String, ◌≡◌, refl, true, false, none, some, ok, arith, str_eq_iff, ◌∷◌, [],
}
use bank_of_baroda_iit_gn.Common.Dict.{lookup}
use bank_of_baroda_iit_gn.Float.{Float}
use bank_of_baroda_iit_gn.Verifier.{
  Codec, NonceCache, Payload, Signer, SignatureVerifier, check_assertion, has_dot, join_dot, number,
  open_token, prune, remember, seen, sign_token, split_dot, text, validate,
}
use bank_of_baroda_iit_gn.Verifier.Backends.{issue}
use bank_of_baroda_iit_gn.Verifier.Service.{IssueRequest, issue_assertion}

split_dot-join_dot :
    (s t : String) → has_dot s ≡ false → has_dot t ≡ false → split_dot (join_dot s t) ≡ some (s, t)
unfolding split_dot join_dot has_dot
split_dot-join_dot String.[] t hs ht = ground (arith, ht)
split_dot-join_dot (String.◌∷◌ c s) t hs ht = ground (arith, hs, split_dot-join_dot s t _ ht)

module _ {W : Type 0} (codec : Codec W) where
  open codec use {b64d, b64e, encode, json_dumps, json_loads}

  -- Base64 and JSON carry a payload to the reader, which gets the same items, and the reader's key
  -- verifies what the signer signs.
  pub record IsCarried (signer : Signer) (v : SignatureVerifier) (sent received : Payload W)
      : Type 0 where
    pub plain : has_dot (b64e (json_dumps sent)) ≡ false
    pub plain_signature : has_dot (b64e (signer.sign (encode (b64e (json_dumps sent))))) ≡ false
    pub decodes : b64d (b64e (json_dumps sent)) ≡ some (json_dumps sent)
    pub decodes_signature :
        b64d (b64e (signer.sign (encode (b64e (json_dumps sent)))))
        ≡ some (signer.sign (encode (b64e (json_dumps sent))))
    pub parses : json_loads (json_dumps sent) ≡ some received
    pub items : (k : String) → lookup k received ≡ lookup k sent
    pub verifies :
        v.verify (encode (b64e (json_dumps sent))) (signer.sign (encode (b64e (json_dumps sent))))
        ≡ true

  -- Opening a signed token gives the payload that was signed.
  pub open_token-sign_token :
      (signer : Signer) (v : SignatureVerifier) (sent received : Payload W)
      → IsCarried signer v sent received
      → open_token codec v (sign_token codec signer sent) ≡ ok received
  unfolding open_token sign_token
  open_token-sign_token signer v sent received c =
      let seg = b64e (json_dumps sent) in
      rw (split_dot-join_dot seg (b64e (signer.sign (encode seg))) c.plain c.plain_signature)
        (ground (arith, c.decodes, c.decodes_signature, c.parses, c.verifies))

module _ {W : Type 0} ⦃f : Float W⦄ (codec : Codec W) where
  open f use {add, lit, lt}

  -- The payload of an issued assertion.
  abbrev pub issued : Signer → String → W → IssueRequest → Payload W
  issued signer drawn at req =
      ("challenge_id", text req.challenge_id)
      ∷ ("identity_id", text req.identity_id)
      ∷ ("method", text req.method)
      ∷ ("result", text req.result)
      ∷ ("issued_at", number at)
      ∷ ("nonce", text drawn)
      ∷ ("exp", number (add at (lit 120 0)))
      ∷ ("alg", text signer.alg)
      ∷ []

  check_assertion-issue_assertion :
      (signer : Signer) (v : SignatureVerifier) (skew : W) (drawn : String) (at now : W)
      → (req : IssueRequest) (received : Payload W)
      → IsCarried codec signer v (issued signer drawn at req) received
      → ((x : W) → codec.to_float (number x) ≡ some x)
      → lt (add at (lit 120 0)) now ≡ false
      → lt (add now skew) at ≡ false
      → check_assertion codec v skew (issue_assertion codec signer drawn at req) req.identity_id now
        ≡ ok (received, add at (lit 120 0))
  unfolding check_assertion issue_assertion issue lookup
  check_assertion-issue_assertion signer v skew drawn at now req received c floats live past =
      rw (open_token-sign_token codec signer v (issued signer drawn at req) received c) (
        rw
          (
            c.items "challenge_id",
            c.items "identity_id",
            c.items "method",
            c.items "result",
            c.items "issued_at",
            c.items "nonce",
            c.items "exp",
          )
          (ground (
            arith,
            floats at,
            floats (add at (lit 120 0)),
            live,
            past,
            str_eq_iff req.identity_id req.identity_id,
          )))

  -- An assertion that the service issues, carried unchanged to a validator whose key verifies what
  -- the service signs, is accepted for its identity within 120 seconds, unless it seems to come from
  -- the future or its nonce is in use: the validator returns the challenge, the method and the result
  -- of the request, and keeps the nonce until the expiry.
  pub validate-issue_assertion :
      (signer : Signer) (v : SignatureVerifier) (skew clock : W) (drawn : String) (at now : W)
      → (cache : NonceCache W) (req : IssueRequest) (received : Payload W)
      → IsCarried codec signer v (issued signer drawn at req) received
      → ((x : W) → codec.to_float (number x) ≡ some x)
      → codec.hash_key (text drawn) ≡ some drawn
      → lt (add at (lit 120 0)) now ≡ false
      → lt (add now skew) at ≡ false
      → lookup drawn (prune clock cache) ≡ none
      → validate codec v skew clock
          (issue_assertion codec signer drawn at req)
          req.identity_id
          now
          cache
        ≡ (
          ok (record {
            challenge_id = text req.challenge_id;
            identity_id = text req.identity_id;
            method = text req.method;
            result = text req.result;
            issued_at = number at;
            nonce = text drawn;
            exp = number (add at (lit 120 0));
          }),
          remember drawn (add at (lit 120 0)) (prune clock cache),
        )
  unfolding validate lookup seen
  validate-issue_assertion signer v skew clock drawn at now cache req received c floats key live
        past unused =
      rw
        (check_assertion-issue_assertion signer v skew drawn at now req received c floats live past)
        (rw (c.items "nonce", key, unused)
          (rw
            (
              c.items "challenge_id",
              c.items "identity_id",
              c.items "method",
              c.items "result",
              c.items "issued_at",
              c.items "nonce",
              c.items "exp",
            )
            refl))
