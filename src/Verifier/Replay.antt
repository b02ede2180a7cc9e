-- ===== src/Verifier/Replay.antt =====
-- A token that was accepted once is not accepted again, whatever is validated in between.
use bank_of_baroda_iit_gn.Common.{
  String, ◌≡◌, ◌≢◌, ◌⊎◌, inl, inr, true, false, some, none, List, [], ◌∷◌, Result, ok, All, arith,
  str_eq_iff, Bool-cases, Result-cases, ap, sym, ◌∙◌,
}
use bank_of_baroda_iit_gn.Common.Dict.{lookup, lookup-insert}
use bank_of_baroda_iit_gn.Float.{Float, IsFloat, le}
use bank_of_baroda_iit_gn.Verifier.{
  Codec, SignatureVerifier, StepUpAssertion, Rejection, NonceCache, Payload, field, validate, prune,
  remember,
}
use bank_of_baroda_iit_gn.Verifier.Validation.{IsSigned, validate-IsAccepted, rejected_keeps_cache}

-- A request to validate a token for an identity: the time that `validate` reads at its start, and the
-- one that `seen` reads for the pruning of the nonces.
pub record Request (W : Type 0) : Type 0 where
  pub token : String
  pub who : String
  pub now : W
  pub clock : W

module _ {W : Type 0} ⦃f : Float W⦄ (laws : IsFloat W) (codec : Codec W) (v : SignatureVerifier)
    (skew : W) where
  open f use {lt}
  open laws use {lt-le_trans}

  abbrev pub attempt :
      Request W → NonceCache W → Result Rejection (StepUpAssertion W) × NonceCache W
  attempt r cache = validate codec v skew r.clock r.token r.who r.now cache

  -- The cache after a sequence of requests.
  pub serve : List (Request W) → NonceCache W → NonceCache W
  serve [] cache = cache
  serve (r ∷ rs) cache = serve rs (attempt r cache).1

  -- At a later time `t`, the nonce is still held with its expiry, or that has passed.
  abbrev Held : String → W → W → NonceCache W → Type 0
  Held nonce exp t cache = (lookup nonce cache ≡ some exp) ⊎ (lt exp t ≡ true)

  lookup-prune :
      (nonce : String) (exp now : W) (cache : NonceCache W)
      → lookup nonce cache ≡ some exp
      → lt exp now ≡ false
      → lookup nonce (prune now cache) ≡ some exp
  unfolding lookup prune
  lookup-prune nonce exp now [] h k = cc
  lookup-prune nonce exp now ((n, e) ∷ cache) h k =
      ground (arith, str_eq_iff n nonce, lookup-prune nonce exp now cache)

  prune-Held :
      (nonce : String) (exp now t : W) (cache : NonceCache W)
      → le now t ≡ true
      → Held nonce exp t cache
      → Held nonce exp t (prune now cache)
  prune-Held nonce exp now t cache before (inr gone) = inr gone
  prune-Held nonce exp now t cache before (inl held) = elim (Bool-cases (lt exp now)) [
    | inl past ↦ inr (lt-le_trans exp now t past before)
    | inr live ↦ inl (lookup-prune nonce exp now cache held live)
  ]

  remember-Held :
      (nonce n : String) (exp e t : W) (cache : NonceCache W)
      → lookup n cache ≡ none
      → Held nonce exp t cache
      → Held nonce exp t (remember n e cache)
  remember-Held nonce n exp e t cache unused (inr gone) = inr gone
  remember-Held nonce n exp e t cache unused (inl held) =
      inl (unfold remember in ground (arith, lookup-insert n nonce e cache, str_eq_iff n nonce))

  attempt-Held :
      (nonce : String) (exp t : W) (r : Request W) (cache : NonceCache W)
      → le r.clock t ≡ true
      → Held nonce exp t cache
      → Held nonce exp t (attempt r cache).1
  attempt-Held nonce exp t r cache before h =
      let pruned = prune-Held nonce exp r.clock t cache before h in
      elim (Result-cases (attempt r cache).0) [
        | inl (e, rejected) ↦
            elim (rejected_keeps_cache codec v skew r.clock r.token r.who r.now cache e
              (attempt r cache).1 (λ i. (rejected i, (attempt r cache).1))) [
                | inl same ↦ rw same h
                | inr cut ↦ rw cut pruned
              ]
        | inr (a, accepted) ↦
            let won =
              validate-IsAccepted codec v skew r.clock r.token r.who r.now cache a
                (attempt r cache).1 (λ i. (accepted i, (attempt r cache).1)) in
            rw won.used (remember-Held nonce won.nonce exp won.exp t _ won.unused pruned)
      ]

  serve-Held :
      (nonce : String) (exp t : W) (rs : List (Request W)) (cache : NonceCache W)
      → All (λ r. le r.clock t ≡ true) rs
      → Held nonce exp t cache
      → Held nonce exp t (serve rs cache)
  unfolding serve
  serve-Held nonce exp t [] cache before h = h
  serve-Held nonce exp t (r ∷ rs) cache before h =
      serve-Held nonce exp t rs (attempt r cache).1 before.1
        (attempt-Held nonce exp t r cache before.0 h)

  -- A token determines its payload.
  payload_unique :
      (token other : String) (p q : Payload W)
      → other ≡ token
      → IsSigned codec v token p
      → IsSigned codec v other q
      → q ≡ p
  payload_unique token other p q same a b =
      ground (arith, a.split, b.split, a.parsed_raw, b.parsed_raw, a.parsed, b.parsed)

  Held-remember :
      (nonce : String) (exp t : W) (cache : NonceCache W)
      → Held nonce exp t (remember nonce exp cache)
  unfolding remember
  Held-remember nonce exp t cache =
      inl (ground (arith, lookup-insert nonce nonce exp cache, str_eq_iff nonce nonce))

  -- A held nonce stops every current token that carries it.
  Held-lookup :
      (nonce : String) (exp t : W) (cache : NonceCache W)
      → Held nonce exp t cache
      → lt exp t ≡ false
      → lookup nonce (prune t cache) ≢ none
  Held-lookup nonce exp t cache (inl held) live unused =
      cc (lookup-prune nonce exp t cache held live)
  Held-lookup nonce exp t cache (inr gone) live unused = cc

  -- Once a token was accepted, no later request with it is accepted, for any identity, after any
  -- requests in between whose clocks are not after the later one's, unless the token expires between
  -- the two times that the later request reads.
  pub no_replay :
      (r : Request W) (rs : List (Request W)) (again : Request W) (cache : NonceCache W)
      → (a b : StepUpAssertion W) (exp : W) → again.token ≡ r.token
      → All (λ m. le m.clock again.clock ≡ true) rs
      → codec.to_float a.exp ≡ some exp
      → lt exp again.clock ≡ lt exp again.now
      → (attempt r cache).0 ≡ ok a
      → (attempt again (serve rs (attempt r cache).1)).0 ≢ ok b
  no_replay r rs again cache a b exp same between expires steady first second =
      let won =
        validate-IsAccepted codec v skew r.clock r.token r.who r.now cache a (attempt r cache).1
          (λ i. (first i, (attempt r cache).1)) in
      let middle = serve rs (attempt r cache).1 in
      let twice =
        validate-IsAccepted codec v skew again.clock again.token again.who again.now middle b
          (attempt again middle).1 (λ i. (second i, (attempt again middle).1)) in
      let payload =
        payload_unique r.token again.token won.payload twice.payload same won.signed twice.signed in
      let start : Held won.nonce won.exp again.clock (attempt r cache).1 =
        rw won.used (Held-remember won.nonce won.exp again.clock _) in
      let held = serve-Held won.nonce won.exp again.clock rs (attempt r cache).1 between start in
      let first_exp : exp ≡ won.exp =
        cc (expires, ap (λ x. codec.to_float x.exp) won.read, won.current.expiry) in
      let second_exp : twice.exp ≡ won.exp =
        ground (arith, ap (field "exp") payload, won.current.expiry, twice.current.expiry) in
      let nonce : twice.nonce ≡ won.nonce =
        ground (arith, ap (field "nonce") payload, won.keyed, twice.keyed) in
      let live : lt won.exp again.clock ≡ false =
        ap (λ x. lt x again.clock) (sym first_exp)
        ∙ steady
        ∙ ap (λ x. lt x again.now) (first_exp ∙ sym second_exp)
        ∙ twice.current.not_expired in
      Held-lookup won.nonce won.exp again.clock middle held live (rw nonce at twice.unused)
