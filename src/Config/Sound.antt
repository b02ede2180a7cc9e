-- ===== src/Config/Sound.antt =====
-- What settings that were accepted guarantee.
use bank_of_baroda_iit_gn.Common.{
  String, ◌≡◌, refl, true, false, ◌||◌, not, ◌&&◌, List, [], ◌∷◌, All, ok, err, arith, is_empty,
  str_eq, Result-cases, Bool-cases, inl, inr,
}
use bank_of_baroda_iit_gn.Common.Dict.{Dict, lookup, contains}
use bank_of_baroda_iit_gn.Config.{
  all_valid, valid_scopes, ConfigError, Drawn, Env, Outside, Registry, Settings, from_env, keys_of,
  keys_valid, missing, origins_of, prepared, public_keys, text_or_default, registry_valid,
  required_prod, settings_of, split_comma, value,
}

-- Every scope of every key is one of the five.
abbrev pub HasValidScopes : String × List String → Type 0
HasValidScopes (key, scopes) = All (λ s. contains s valid_scopes ≡ true) scopes

all_valid-All :
    (scopes : List String)
    → all_valid scopes ≡ true
    → All (λ s. contains s valid_scopes ≡ true) scopes
unfolding all_valid
all_valid-All [] h = tt
all_valid-All (s ∷ scopes) h = (ground (arith, h), all_valid-All scopes (ground (arith, h)))

registry_valid-All :
    (keys : Dict (List String)) → registry_valid keys ≡ true → All HasValidScopes keys
unfolding registry_valid
registry_valid-All [] h = tt
registry_valid-All ((key, scopes) ∷ keys) h =
    (all_valid-All scopes (ground (arith, h)), registry_valid-All keys (ground (arith, h)))

module _ (outside : Outside) (drawn : Drawn) where
  open outside use {is_space, has_ed25519, is_public_key, json_loads}

  -- How accepted settings came about.
  record Accepted (given : Env) (s : Settings) : Type 0 where
    pub mode : String
    pub env : Env
    pub api_keys : Dict (List String)
    pub cors : List String
    pub mode_read : mode ≡ text_or_default "prod" (lookup "PRAMAAN_MODE" given)
    pub mode_known : (str_eq mode "prod" || str_eq mode "demo_synthetic") ≡ true
    pub ready : prepared outside drawn mode given ≡ ok env
    pub scopes : registry_valid api_keys ≡ true
    pub no_wildcard : contains "*" cors ≡ false
    pub keys_checked : (not has_ed25519 || keys_valid is_public_key public_keys env) ≡ true
    pub read : s ≡ settings_of outside drawn mode env api_keys cors

  keys_of-valid :
      (registry : Registry) (keys : Dict (List String))
      → keys_of registry ≡ ok keys
      → registry_valid keys ≡ true
  keys_of-valid Registry.broken keys h = cc h
  keys_of-valid Registry.no_table keys h = cc h
  keys_of-valid (Registry.table found) keys h = elim (Bool-cases (registry_valid found)) [
    | inl valid ↦ ground (arith, valid, h)
    | inr wrong ↦ absurd (ground (arith, wrong, h))
  ]

  from_env-Accepted :
      (given : Env) (s : Settings) → from_env outside drawn given ≡ ok s → Accepted given s
  unfolding from_env
  from_env-Accepted given s h =
      let mode = text_or_default "prod" (lookup "PRAMAAN_MODE" given) in
      elim (Result-cases (prepared outside drawn mode given)) [
        | inl (e, failed) ↦ absurd (ground arith)
        | inr (env, ready) ↦
            elim (Result-cases (keys_of (json_loads (value "PRAMAAN_API_KEYS" env)))) [
              | inl (e, failed) ↦ absurd (ground arith)
              | inr (keys, parsed) ↦ record {
                mode = mode;
                env = env;
                api_keys = keys;
                cors = origins_of is_space (split_comma (value "PRAMAAN_CORS_ORIGINS" env));
                mode_read = refl;
                mode_known = ground arith;
                ready = ready;
                scopes = keys_of-valid _ keys parsed;
                no_wildcard = ground arith;
                keys_checked = ground arith;
                read = ground arith;
              }
            ]
      ]

  -- Accepted settings have a known mode, only valid scopes, no wildcard among the origins, and,
  -- where Ed25519 is at hand, three valid public keys.
  pub from_env_sound :
      (given : Env) (s : Settings)
      → from_env outside drawn given ≡ ok s
      → ((str_eq s.mode "prod" || str_eq s.mode "demo_synthetic") ≡ true)
        × All HasValidScopes s.api_keys
        × (contains "*" s.cors_origins ≡ false)
        × ((not has_ed25519
              || (is_public_key s.stepup_pubkey
                  && is_public_key s.attest_pubkey
                  && is_public_key s.behavior_pubkey))
            ≡ true)
  unfolding settings_of keys_valid
  from_env_sound given s h =
      let a = from_env-Accepted given s h in
      rw a.read (
        a.mode_known,
        registry_valid-All a.api_keys a.scopes,
        a.no_wildcard,
        ground (arith, a.keys_checked),
      )

  -- In production, which is the mode of an environment that names none, the settings are refused
  -- with the names of all required values that are missing or empty, if there are any.
  pub prod_fails_loud :
      (given : Env)
      → str_eq (text_or_default "prod" (lookup "PRAMAAN_MODE" given)) "prod" ≡ true
      → is_empty (missing required_prod given) ≡ false
      → from_env outside drawn given
        ≡ err (ConfigError.missing_secrets (missing required_prod given))
  unfolding from_env prepared
  prod_fails_loud given prod short = ground (arith, prod, short)

  -- Accepted settings in production are not synthetic, and none of the secrets and keys is empty.
  pub prod_is_complete :
      (given : Env) (s : Settings)
      → from_env outside drawn given ≡ ok s
      → str_eq s.mode "prod" ≡ true
      → (s.is_synthetic ≡ false)
        × (str_eq s.edge_secret "" ≡ false)
        × (str_eq s.audit_signing_key "" ≡ false)
        × (str_eq s.stepup_pubkey "" ≡ false)
        × (str_eq s.attest_pubkey "" ≡ false)
        × (str_eq s.behavior_pubkey "" ≡ false)
  unfolding settings_of prepared missing
  prod_is_complete given s h prod =
      let a = from_env-Accepted given s h in
      let in_prod : str_eq a.mode "prod" ≡ true = rw a.read at prod in
      rw a.read (ground (arith, in_prod, a.ready))
