-- ===== src/Privacy/Secrets.antt =====
-- When an identifier gets a token, and that the token does not change within a process.
use bank_of_baroda_iit_gn.Common.{
  String, ◌≡◌, Option, is_ok, arith, str_eq, is_some, ◌||◌, if◌then◌else◌,
}
use bank_of_baroda_iit_gn.Common.Dict.{Dict}
use bank_of_baroda_iit_gn.Verifier.{Bytes}
use bank_of_baroda_iit_gn.Privacy.{Hashing, mode_in, pseudonymize, resolve_secret, secret_in}

module _ (hashing : Hashing) where
  -- pseudonymize succeeds exactly with a secret that is given, or set and not empty in the
  -- environment, or in an explicit demonstration run; a failure draws no secret.
  pub tokenizes_exactly :
      (raw : String) (secret : Option Bytes) (env : Dict String) (fresh : Bytes)
      → (ephemeral : Option Bytes)
      → let (token, after) = pseudonymize hashing raw secret env fresh ephemeral in
        (is_ok token
          ≡ (is_some secret || is_some (secret_in env) || str_eq (mode_in env) "demo_synthetic"))
        × ((if is_ok token then ephemeral else after) ≡ ephemeral)
  unfolding pseudonymize resolve_secret
  tokenizes_exactly raw secret env fresh ephemeral = ground arith

  -- Two calls with the same arguments and environment in one process give the same result, also
  -- where the first one draws the secret of a demonstration run.
  pub token_is_stable :
      (raw : String) (secret : Option Bytes) (env : Dict String) (fresh later : Bytes)
      → (ephemeral : Option Bytes)
      → let (token, after) = pseudonymize hashing raw secret env fresh ephemeral in
        pseudonymize hashing raw secret env later after ≡ (token, after)
  unfolding pseudonymize resolve_secret
  token_is_stable raw secret env fresh later ephemeral = ground arith
