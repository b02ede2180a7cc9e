-- ===== src/Tests/Signed.antt =====
-- A behavioural signal with both of its tokens.
use bank_of_baroda_iit_gn.Common.{
  ℕ, ◌≡◌, refl, Option, none, some, [], ◌∷◌, str_eq, ◌==◌, if◌then◌else◌,
}
use bank_of_baroda_iit_gn.Common.Int.{◌+ℤ◌, ◌-ℤ◌, ◌*ℤ◌}
use bank_of_baroda_iit_gn.Common.Dict.{lookup, insert}
use bank_of_baroda_iit_gn.Float.Fixed.{Fixed, fixed_float}
use bank_of_baroda_iit_gn.Verifier.{
  Bytes, Codec, Json, Payload, open_token, split_dot, has_dot, prune, seen, remember,
}
use bank_of_baroda_iit_gn.Attestation.{bound, fresh, resolve}
use bank_of_baroda_iit_gn.Attestation.Trust.{IsTrusted, resolve-IsTrusted}
use bank_of_baroda_iit_gn.Tests.Data.{codec, key}

abbrev seconds : ℕ → Json Fixed
seconds n = Json.number (fixed_float.lit n 0)

abbrev attestation : Payload Fixed
attestation =
    ("kind", Json.text "device_attestation")
    ∷ ("device_id", Json.text "d1")
    ∷ ("verdict", Json.text "MEETS_DEVICE_INTEGRITY")
    ∷ ("issued_at", seconds 1500)
    ∷ ("nonce", Json.text "n1")
    ∷ ("exp", seconds 1800)
    ∷ []

abbrev behavior : Payload Fixed
behavior =
    ("kind", Json.text "behavior_similarity")
    ∷ ("device_id", Json.text "d1")
    ∷ ("identity_id", Json.text "asha")
    ∷ ("similarity", Json.number (fixed_float.lit 97 2))
    ∷ ("issued_at", seconds 1500)
    ∷ ("nonce", Json.text "n2")
    ∷ ("exp", seconds 1700)
    ∷ []

abbrev read_payload : Bytes → Option (Payload Fixed)
read_payload [] = none
read_payload (b ∷ bytes) = if b == 1 then some attestation else some behavior

abbrev two_tokens : Codec Fixed
two_tokens = record codec {
  b64d = λ s.
      if str_eq s "A"
      then some (1 ∷ [])
      else if str_eq s "B"
      then some (2 ∷ [])
      else if str_eq s "S"
      then some (7 ∷ [])
      else none;
  json_loads = read_payload;
}

abbrev now : Fixed
now = fixed_float.lit 1600 0

abbrev skew : Fixed
skew = fixed_float.lit 5 0

believed :
    (resolve two_tokens key key skew now (some "A.S") (some "B.S") "asha" "d1" now []).0
    ≡ some (fixed_float.lit 97 2)
unfolding resolve bound fresh open_token split_dot has_dot prune seen remember lookup insert ◌+ℤ◌
    ◌-ℤ◌ ◌*ℤ◌
believed = refl

resolve-IsTrusted_example :
    IsTrusted two_tokens key key skew now (some "A.S") (some "B.S") "asha" "d1"
resolve-IsTrusted_example =
    resolve-IsTrusted two_tokens key key skew now (some "A.S") (some "B.S") "asha" "d1" now []
      (fixed_float.lit 97 2) believed
