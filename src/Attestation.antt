-- ===== src/Attestation.antt =====
-- backend/app/attestation.py: the behavioural signal is believed only from two signed tokens that
-- are bound to the event. `none` is a missing signal.
pub mod Trust
use Prim.Native.String.{◌++◌}
use bank_of_baroda_iit_gn.Common.{
  String, Bool, true, false, ◌&&◌, ◌||◌, not, Option, none, some, List, [], ◌∷◌, Result, ok,
  is_empty, length, map, str_eq, ◌==◌, if◌then◌else◌,
}
use bank_of_baroda_iit_gn.Common.Dict.{lookup}
use bank_of_baroda_iit_gn.Float.{Float, min_float, max_float, zero_float, one_float}
use bank_of_baroda_iit_gn.Verifier.{
  Json, text, number, Payload, Codec, Signer, SignatureVerifier, NonceCache, sign_token, open_token,
  is_text, seen, remember,
}

abbrev pub integrity_pass : String
integrity_pass = "MEETS_DEVICE_INTEGRITY"

abbrev pub present_is : {W : Type 0} → String → Option (Json W) → Bool
present_is s none = false
present_is s (some j) = is_text s j

-- `payload.get(k) == s`
abbrev pub get_is : {W : Type 0} → String → String → Payload W → Bool
unfolding lookup
get_is k s payload = present_is s (lookup k payload)

-- `not token`
abbrev is_missing : Option String → Bool
is_missing none = true
is_missing (some t) = str_eq t ""

abbrev token_or_empty : Option String → String
token_or_empty none = ""
token_or_empty (some t) = t

module _ {W : Type 0} ⦃f : Float W⦄ (codec : Codec W) where
  open f use {lt, add, is_finite}
  open codec use {to_float, truth, format}

  -- `DeviceAttestationProvider.issue`, with the time and the nonce that it draws.
  unfoldable pub issue_attestation : Signer → String → String → W → String → W → String
  issue_attestation signer device_id verdict ttl_seconds nonce now = sign_token codec signer (
      ("kind", text "device_attestation")
      ∷ ("device_id", text device_id)
      ∷ ("verdict", text verdict)
      ∷ ("issued_at", number now)
      ∷ ("nonce", text nonce)
      ∷ ("exp", number (add now ttl_seconds))
      ∷ [])

  -- `BehaviorProvider.issue`
  unfoldable pub issue_behavior : Signer → String → String → W → W → String → W → String
  issue_behavior signer device_id identity_id similarity ttl_seconds nonce now =
      sign_token codec signer (
        ("kind", text "behavior_similarity")
        ∷ ("device_id", text device_id)
        ∷ ("identity_id", text identity_id)
        ∷ ("similarity", number similarity)
        ∷ ("issued_at", number now)
        ∷ ("nonce", text nonce)
        ∷ ("exp", number (add now ttl_seconds))
        ∷ [])

  -- `float(payload[k])`; `none` where the key is missing or `float` raises.
  abbrev pub float_at : Option (Json W) → Option W
  float_at none = none
  float_at (some j) = to_float j

  abbrev in_window : W → W → Option W → Option W → Bool
  in_window skew now (some exp) (some issued_at) =
      not (lt exp now) && not (lt (add now skew) issued_at)
  in_window skew now _ _ = false

  -- `_fresh`
  unfoldable pub fresh : W → Payload W → W → Bool
  unfolding lookup
  fresh skew payload now =
      in_window skew now (float_at (lookup "exp" payload)) (float_at (lookup "issued_at" payload))

  -- Kinds, freshness, verdict and binding of the two payloads.
  unfoldable pub bound : W → W → Payload W → Payload W → String → String → Bool
  unfolding lookup
  bound skew now att beh expected_identity_id expected_device_id =
      get_is "kind" "device_attestation" att
      && get_is "kind" "behavior_similarity" beh
      && fresh skew att now
      && fresh skew beh now
      && get_is "verdict" integrity_pass att
      && get_is "device_id" expected_device_id att
      && get_is "device_id" expected_device_id beh
      && get_is "identity_id" expected_identity_id beh

  -- A nonce that is there and not empty, as the key of its kind.
  abbrev nonce_key : String → Option (Json W) → Option String
  nonce_key prefix none = none
  nonce_key prefix (some j) = if truth j then some (prefix ++ format j) else none

  -- The similarity, where it is a finite number.
  abbrev finite_or_none : Option W → Option W
  finite_or_none none = none
  finite_or_none (some sim) = if is_finite sim then some sim else none

  abbrev exp_or_zero : Option W → W
  exp_or_zero none = zero_float
  exp_or_zero (some exp) = exp

  -- The end of `resolve`: the similarity clamped to [0, 1], with both nonces remembered.
  abbrev believe :
      Payload W → Payload W → String → String → Option W → NonceCache W → Option W × NonceCache W
  unfolding lookup remember
  believe att beh att_key beh_key none cache = (none, cache)
  believe att beh att_key beh_key (some sim) cache = (
    some (max_float zero_float (min_float one_float sim)),
    remember beh_key (exp_or_zero (float_at (lookup "exp" beh)))
        (remember att_key (exp_or_zero (float_at (lookup "exp" att))) cache),
  )

  -- `seen(…) or seen(…)`: the second is asked only if the first is false.
  abbrev unused :
      W
      → Payload W
      → Payload W
      → Option String
      → Option String
      → NonceCache W
      → Option W × NonceCache W
  unfolding lookup remember seen
  unused clock att beh (some att_key) (some beh_key) cache =
      let (used, pruned) = seen clock att_key cache in
      let (used', pruned') = seen clock beh_key pruned in
      if used
      then (none, pruned)
      else if used'
      then (none, pruned')
      else believe att beh att_key beh_key (finite_or_none (float_at (lookup "similarity" beh)))
          pruned'
  unused clock att beh _ _ cache = (none, cache)

  abbrev checked :
      W
      → W
      → W
      → {E : Type 0} → Result E (Payload W)
      → Result E (Payload W)
      → String
      → String
      → NonceCache W
      → Option W × NonceCache W
  unfolding lookup remember seen bound
  checked skew clock now (ok att) (ok beh) identity device cache =
      if bound skew now att beh identity device
      then unused clock att beh (nonce_key "att:" (lookup "nonce" att))
          (nonce_key "beh:" (lookup "nonce" beh)) cache
      else (none, cache)
  checked skew clock now _ _ identity device cache = (none, cache)

  -- `BehaviorResolver.resolve`; `now` is its argument and `clock` the time that `seen` reads.
  unfoldable pub resolve :
      SignatureVerifier
      → SignatureVerifier
      → W
      → W
      → Option String
      → Option String
      → String
      → String
      → W
      → NonceCache W
      → Option W × NonceCache W
  unfolding lookup remember seen bound
  resolve attest behavior skew clock attestation_token behavior_token identity device now cache =
      if is_missing attestation_token || is_missing behavior_token
      then (none, cache)
      else checked skew clock now (open_token codec attest (token_or_empty attestation_token))
          (open_token codec behavior (token_or_empty behavior_token)) identity device cache

  open f use {sub, div, abs, sum, eq}

  abbrev distances : List W → List W → List W
  distances (t ∷ ts) (o ∷ os) = abs (sub t o) ∷ distances ts os
  distances _ _ = []

  -- `recompute_behavior_from_telemetry`; a sum of 0 counts as 1.
  unfoldable pub recompute_behavior : List W → List W → W
  recompute_behavior template observed =
      let total = sum (map abs template) in
      let denom = if eq total zero_float then one_float else total in
      if is_empty template || not (length template == length observed)
      then zero_float
      else max_float zero_float (sub one_float (div (sum (distances template observed)) denom))
