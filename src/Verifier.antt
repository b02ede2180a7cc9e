-- ===== src/Verifier.antt =====
-- backend/app/verifier.py: signed tokens, the nonce cache and the validation of a step-up
-- assertion. Codecs and keys come from outside: base64, JSON, `float()` and the signatures are
-- parameters. A payload is a JSON object with values of the kinds below.
pub mod Validation
pub mod Replay
pub mod Backends
pub mod Base64
pub mod Service
use Prim.Native.Char.{code}
use bank_of_baroda_iit_gn.Common.{
  ℕ, String, Bool, true, false, ◌&&◌, ◌||◌, not, Option, none, some, List, [], ◌∷◌, Result, ok, err,
  ◌>>=◌, ◌>>◌, guard, or_raise, is_some, ◌==◌, str_eq, if◌then◌else◌,
}
use bank_of_baroda_iit_gn.Common.Dict.{Dict, lookup, insert}
use bank_of_baroda_iit_gn.Float.{Float}

pub data Json (W : Type 0) : Type 0 where
  text : String → Json W
  number : W → Json W
  other : Json W

abbrev pub Payload : Type 0 → Type 0
Payload W = Dict (Json W)

abbrev pub Bytes : Type 0
Bytes = List ℕ

-- What the module takes from `base64`, `json`, `str.encode`, `float` and `hash`.
pub record Codec (W : Type 0) : Type 0 where
  pub b64e : Bytes → String
  -- `none` where `urlsafe_b64decode` raises.
  pub b64d : String → Option Bytes
  pub encode : String → Bytes
  -- `json.dumps(payload, sort_keys=True, …).encode()`
  pub json_dumps : Payload W → Bytes
  pub json_loads : Bytes → Option (Payload W)
  -- `float(x)`; `none` where it raises.
  pub to_float : Json W → Option W
  -- The text that a value is as the key of a dictionary; `none` where it cannot be hashed.
  pub hash_key : Json W → Option String
  -- `bool(x)`, and the text that an f-string makes of a value.
  pub truth : Json W → Bool
  pub format : Json W → String

pub record Signer : Type 0 where
  pub alg : String
  pub sign : Bytes → Bytes

pub record SignatureVerifier : Type 0 where
  pub verify : Bytes → Bytes → Bool

-- The exceptions: the subclasses of `AssertionRejected`, and `crash` for any other.
pub data Rejection : Type 0 where
  malformed bad_signature expired replayed_nonce identity_mismatch crash : Rejection

abbrev pub field_or_other : {W : Type 0} → Option (Json W) → Json W
field_or_other none = other
field_or_other (some j) = j

-- `token.split(".")`, where it has exactly two parts.
abbrev pub prepend : Prim.Native.Char.Char → Option (String × String) → Option (String × String)
prepend c none = none
prepend c (some (s, t)) = some (String.◌∷◌ c s, t)

unfoldable pub has_dot : String → Bool
has_dot String.[] = false
has_dot (String.◌∷◌ c s) = code c == b'.' || has_dot s

unfoldable pub split_dot : String → Option (String × String)
unfolding has_dot
split_dot String.[] = none
split_dot (String.◌∷◌ c s) =
    let rest = split_dot s in
    if code c == b'.' then (if has_dot s then none else some (String.[], s)) else prepend c rest

-- `f"{seg}.{sig}"`
unfoldable pub join_dot : String → String → String
join_dot String.[] t = String.◌∷◌ "." t
join_dot (String.◌∷◌ c s) t = String.◌∷◌ c (join_dot s t)

module _ {W : Type 0} (codec : Codec W) where
  open codec use {b64e, b64d, encode, json_dumps, json_loads}

  unfoldable pub sign_token : Signer → Payload W → String
  unfolding join_dot
  sign_token signer payload =
      let seg = b64e (json_dumps payload) in join_dot seg (b64e (signer.sign (encode seg)))

  -- `open_token`: nothing of a payload is returned unless its signature verifies.
  unfoldable pub open_token : SignatureVerifier → String → Result Rejection (Payload W)
  unfolding split_dot
  open_token verifier token = do
    parts ← or_raise (split_dot token) malformed
    sig ← or_raise (b64d parts.1) malformed
    raw ← or_raise (b64d parts.0) malformed
    payload ← or_raise (json_loads raw) malformed
    guard (verifier.verify (encode parts.0) sig) bad_signature
    ok payload

-- `_FIELDS`
abbrev pub fields : List String
fields = "challenge_id" ∷ "identity_id" ∷ "method" ∷ "result" ∷ "issued_at" ∷ "nonce" ∷ "exp" ∷ []

-- `all(f in payload for f in …)`
abbrev pub has_all : {W : Type 0} → List String → Payload W → Bool
unfolding lookup
has_all [] payload = true
has_all (k ∷ ks) payload = is_some (lookup k payload) && has_all ks payload

-- `payload[k]` where the key is known to be there.
abbrev pub field : {W : Type 0} → String → Payload W → Json W
unfolding lookup
field k payload = field_or_other (lookup k payload)

-- Whether a value is the given text.
abbrev pub is_text : {W : Type 0} → String → Json W → Bool
is_text s (text t) = str_eq t s
is_text s _ = false

-- `StepUpAssertion`
pub record StepUpAssertion (W : Type 0) : Type 0 where
  pub challenge_id : Json W
  pub identity_id : Json W
  pub method : Json W
  pub result : Json W
  pub issued_at : Json W
  pub nonce : Json W
  pub exp : Json W

abbrev pub passed : {W : Type 0} → StepUpAssertion W → Bool
passed a = is_text "pass" a.result

abbrev pub assertion_of : {W : Type 0} → Payload W → StepUpAssertion W
assertion_of payload = record {
  challenge_id = field "challenge_id" payload;
  identity_id = field "identity_id" payload;
  method = field "method" payload;
  result = field "result" payload;
  issued_at = field "issued_at" payload;
  nonce = field "nonce" payload;
  exp = field "exp" payload;
}

-- `InMemoryNonceCache._seen`: each nonce with its expiry.
abbrev pub NonceCache : Type 0 → Type 0
NonceCache W = Dict W

module _ {W : Type 0} ⦃f : Float W⦄ where
  open f use {lt, add}

  unfoldable pub prune : W → NonceCache W → NonceCache W
  prune now [] = []
  prune now ((n, exp) ∷ cache) =
      let rest = prune now cache in if lt exp now then rest else (n, exp) ∷ rest

  -- `seen`, at the time `clock`: the answer and the pruned cache.
  unfoldable pub seen : W → String → NonceCache W → Bool × NonceCache W
  unfolding prune lookup
  seen clock nonce cache = let pruned = prune clock cache in (is_some (lookup nonce pruned), pruned)

  -- `add` of the cache.
  unfoldable pub remember : String → W → NonceCache W → NonceCache W
  unfolding insert
  remember nonce exp cache = insert nonce exp cache

  module _ (codec : Codec W) where
    open codec use {to_float, hash_key}

    -- Steps 1 to 5 of `validate`: the payload, and the `float` of its expiry.
    unfoldable pub check_assertion :
        SignatureVerifier → W → String → String → W → Result Rejection (Payload W × W)
    unfolding lookup
    check_assertion verifier max_skew token expected_identity_id now = do
      payload ← open_token codec verifier token
      guard (has_all fields payload) malformed
      guard (is_text expected_identity_id (field "identity_id" payload)) identity_mismatch
      exp ← or_raise (to_float (field "exp" payload)) crash
      guard (not (lt exp now)) expired
      issued_at ← or_raise (to_float (field "issued_at" payload)) crash
      guard (not (lt (add now max_skew) issued_at)) expired
      ok (payload, exp)

    -- Step 6, anti-replay. The pruning stays when the nonce cannot be hashed.
    abbrev consume :
        W
        → Payload W
        → W
        → Option String
        → NonceCache W
        → Result Rejection (StepUpAssertion W) × NonceCache W
    unfolding prune remember seen
    consume clock payload exp none cache = (err crash, prune clock cache)
    consume clock payload exp (some nonce) cache =
        let (replayed, pruned) = seen clock nonce cache in
        if replayed
        then (err replayed_nonce, pruned)
        else (ok (assertion_of payload), remember nonce exp pruned)

    abbrev consume_checked :
        W
        → Result Rejection (Payload W × W)
        → NonceCache W
        → Result Rejection (StepUpAssertion W) × NonceCache W
    unfolding prune remember seen lookup
    consume_checked clock (err e) cache = (err e, cache)
    consume_checked clock (ok (payload, exp)) cache =
        consume clock payload exp (hash_key (field "nonce" payload)) cache

    -- `AssertionValidator.validate`; `now` is its argument and `clock` the time that `seen` reads.
    unfoldable pub validate :
        SignatureVerifier
        → W
        → W
        → String
        → String
        → W
        → NonceCache W
        → Result Rejection (StepUpAssertion W) × NonceCache W
    unfolding prune remember seen lookup
    validate verifier max_skew clock token expected_identity_id now cache =
        consume_checked clock (check_assertion verifier max_skew token expected_identity_id now)
          cache
