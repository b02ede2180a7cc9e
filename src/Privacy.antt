-- ===== src/Privacy.antt =====
-- backend/app/privacy.py: tokens for identifiers, coarse places, and the Laplace mechanism.
-- HMAC-SHA256, UTF-8, the logarithm and the random numbers are parameters and arguments; the one
-- global variable, the secret of a demonstration run, is passed through.
pub mod Secrets
use Prim.Native.String.{◌++◌}
use bank_of_baroda_iit_gn.Common.{
  ℕ, zero, suc, String, Bool, true, false, ◌||◌, Option, none, some, Result, ok, err, str_eq,
  if◌then◌else◌,
}
use bank_of_baroda_iit_gn.Common.Int.{pos}
use bank_of_baroda_iit_gn.Common.Dict.{Dict, lookup}
use bank_of_baroda_iit_gn.Float.{Float, zero_float, one_float}
use bank_of_baroda_iit_gn.Verifier.{Bytes}

-- `ConfigError`
pub data NoSecret : Type 0 where
  no_secret : NoSecret

pub record Hashing : Type 0 where
  pub hmac_sha256 : Bytes → Bytes → String
  pub encode : String → Bytes

-- `s[:n]`
unfoldable pub prefix : ℕ → String → String
prefix zero s = ""
prefix (suc n) String.[] = ""
prefix (suc n) (String.◌∷◌ c s) = String.◌∷◌ c (prefix n s)

-- `if env_secret`
abbrev pub secret_in : Dict String → Option String
secret_in env = elim (lookup "PRAMAAN_EDGE_SECRET" env) [
  | none ↦ none
  | some s ↦ if str_eq s "" then none else some s
]

-- `os.environ.get("PRAMAAN_MODE", "prod")`
abbrev pub mode_in : Dict String → String
mode_in env = elim (lookup "PRAMAAN_MODE" env) [ none ↦ "prod" | some m ↦ m ]

abbrev or_fresh : Option Bytes → Bytes → Bytes
or_fresh none fresh = fresh
or_fresh (some k) fresh = k

module _ (hashing : Hashing) where
  open hashing use {hmac_sha256, encode}

  abbrev from_mode : Dict String → Bytes → Option Bytes → Result NoSecret Bytes × Option Bytes
  from_mode env fresh ephemeral =
      if str_eq (mode_in env) "demo_synthetic"
      then (ok (or_fresh ephemeral fresh), some (or_fresh ephemeral fresh))
      else (err no_secret, ephemeral)

  abbrev from_env :
      Option String → Dict String → Bytes → Option Bytes → Result NoSecret Bytes × Option Bytes
  from_env (some s) env fresh ephemeral = (ok (encode s), ephemeral)
  from_env none env fresh ephemeral = from_mode env fresh ephemeral

  -- `_resolve_secret`; `fresh` is what `token_bytes` would give, `ephemeral` the global variable.
  unfoldable pub resolve_secret :
      Option Bytes → Dict String → Bytes → Option Bytes → Result NoSecret Bytes × Option Bytes
  resolve_secret (some secret) env fresh ephemeral = (ok secret, ephemeral)
  resolve_secret none env fresh ephemeral = from_env (secret_in env) env fresh ephemeral

  abbrev token_under : String → Result NoSecret Bytes → Result NoSecret String
  unfolding prefix
  token_under raw_identifier (err e) = err e
  token_under raw_identifier (ok key) = ok (prefix 24 (hmac_sha256 key (encode raw_identifier)))

  unfoldable pub pseudonymize :
      String
      → Option Bytes
      → Dict String
      → Bytes
      → Option Bytes
      → Result NoSecret String × Option Bytes
  unfolding resolve_secret prefix
  pseudonymize raw_identifier secret env fresh ephemeral =
      let (key, after) = resolve_secret secret env fresh ephemeral in
      (token_under raw_identifier key, after)

unfoldable pub coarsen_geo : {W : Type 0} → W → W → String → String
coarsen_geo lat lon state_code = "IN-" ++ state_code

-- `dp_noise`: `random` is the number drawn from [0, 1), `log` the natural logarithm.
unfoldable pub dp_noise : {W : Type 0} ⦃f : Float W⦄ → (W → W) → W → W → W → W → W
dp_noise ⦃f⦄ log random value epsilon sensitivity =
    let u = f.sub random (f.lit 5 1) in
    let scale = f.div sensitivity epsilon in
    let sign = if f.lt u zero_float then f.sub zero_float one_float else one_float in
    let tail = log (f.sub one_float (f.mul (f.lit 2 0) (f.abs u))) in
    f.add value (f.mul (f.mul (f.sub zero_float scale) sign) tail)
