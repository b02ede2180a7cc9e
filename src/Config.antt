-- ===== src/Config.antt =====
-- backend/app/config.py: the settings of a process from its environment. `json.loads`, Python's
-- white space and the check of an Ed25519 key are parameters; the secrets and keys that a
-- demonstration run draws are arguments.
pub mod Sound
use Prim.Native.Char.{Char, code}
use bank_of_baroda_iit_gn.Common.{
  String, Bool, true, false, ◌&&◌, ◌||◌, not, Option, none, some, List, [], ◌∷◌, Result, ok, err,
  ◌>>=◌, ◌>>◌, guard, or_raise, is_empty, ◌==◌, str_eq, if◌then◌else◌,
}
use bank_of_baroda_iit_gn.Common.Dict.{Dict, lookup, insert, contains}

-- The causes of a `ConfigError`, and of any other exception.
pub data ConfigError : Type 0 where
  bad_mode no_json unknown_scope wildcard bad_key crash : ConfigError
  missing_secrets : List String → ConfigError

-- What `json.loads` makes of the key registry: no JSON, no object, or an object of scope lists.
pub data Registry : Type 0 where
  broken no_table : Registry
  table : Dict (List String) → Registry

pub record Outside : Type 0 where
  pub json_loads : String → Registry
  pub is_space : Char → Bool
  -- `_HAS_ED25519`, and whether `Ed25519Verifier.from_b64` returns.
  pub has_ed25519 : Bool
  pub is_public_key : String → Bool
  pub default_model_dir : String

-- What a demonstration run draws.
pub record Drawn : Type 0 where
  pub edge_secret : String
  pub audit_key : String
  pub public_key : String → String
  -- `json.dumps({"demo-key": sorted(VALID_SCOPES)})`
  pub demo_registry : String

pub record Settings : Type 0 where
  pub mode : String
  pub edge_secret : String
  pub audit_signing_key : String
  pub stepup_pubkey : String
  pub attest_pubkey : String
  pub behavior_pubkey : String
  pub api_keys : Dict (List String)
  pub cors_origins : List String
  pub model_dir : String
  pub redis_url : Option String
  pub is_synthetic : Bool
  pub model_sha256 : Option String

-- The names of `REQUIRED_PROD`, and the three of the public keys.
abbrev pub required_prod : List String
required_prod =
    "PRAMAAN_EDGE_SECRET" ∷ "PRAMAAN_AUDIT_KEY" ∷ "PRAMAAN_STEPUP_PUBKEY" ∷ "PRAMAAN_ATTEST_PUBKEY"
    ∷ "PRAMAAN_BEHAVIOR_PUBKEY" ∷ "PRAMAAN_API_KEYS" ∷ "PRAMAAN_CORS_ORIGINS" ∷ []

abbrev pub public_keys : List String
public_keys = "PRAMAAN_STEPUP_PUBKEY" ∷ "PRAMAAN_ATTEST_PUBKEY" ∷ "PRAMAAN_BEHAVIOR_PUBKEY" ∷ []

abbrev pub valid_scopes : List String
valid_scopes =
    "events:write" ∷ "audit:read" ∷ "identity:read" ∷ "stepup:write" ∷ "identity:erase" ∷ []

abbrev pub Env : Type 0
Env = Dict String

abbrev pub text_or_default : String → Option String → String
text_or_default d none = d
text_or_default d (some s) = s

-- `env[k]` where it is there, and `env.get(k)` as a text.
abbrev pub value : String → Env → String
unfolding lookup
value k env = text_or_default "" (lookup k env)

-- `not env.get(k)`
abbrev pub is_unset : String → Env → Bool
unfolding lookup
is_unset k env = str_eq (value k env) ""

-- `env.get(k) or None`
abbrev set_or_none : String → Env → Option String
unfolding lookup
set_or_none k env = if is_unset k env then none else some (value k env)

unfoldable pub missing : List String → Env → List String
unfolding lookup
missing [] env = []
missing (k ∷ ks) env = let rest = missing ks env in if is_unset k env then k ∷ rest else rest

abbrev set_default : String → String → Option String → Env → Env
unfolding insert
set_default k d none env = insert k d env
set_default k d (some s) env = env

-- `env.setdefault(k, d)`
abbrev setdefault : String → String → Env → Env
unfolding lookup insert
setdefault k d env = set_default k d (lookup k env) env

unfoldable pub fill_keys : (String → String) → List String → Env → Env
unfolding lookup insert
fill_keys draw [] env = env
fill_keys draw (k ∷ ks) env =
    fill_keys draw ks (if is_unset k env then insert k (draw k) env else env)

-- The defaults of a demonstration run.
unfoldable pub demo_defaults : Drawn → Env → Env
unfolding fill_keys lookup insert
demo_defaults drawn env = setdefault "PRAMAAN_CORS_ORIGINS" "http://localhost:8000" (
    setdefault "PRAMAAN_API_KEYS" drawn.demo_registry (
      fill_keys drawn.public_key public_keys (
        setdefault "PRAMAAN_AUDIT_KEY" drawn.audit_key
          (setdefault "PRAMAAN_EDGE_SECRET" drawn.edge_secret env))))

-- The scopes that are not valid, and the check of all keys.
unfoldable pub all_valid : List String → Bool
all_valid [] = true
all_valid (s ∷ scopes) = contains s valid_scopes && all_valid scopes

unfoldable pub registry_valid : Dict (List String) → Bool
unfolding all_valid
registry_valid [] = true
registry_valid ((k, scopes) ∷ rest) = all_valid scopes && registry_valid rest

abbrev pub keys_of : Registry → Result ConfigError (Dict (List String))
keys_of broken = err ConfigError.no_json
keys_of no_table = err ConfigError.crash
keys_of (table keys) = if registry_valid keys then ok keys else err ConfigError.unknown_scope

-- `s.strip()`
unfoldable pub strip_left : (Char → Bool) → String → String
strip_left space String.[] = String.[]
strip_left space (String.◌∷◌ c s) =
    let rest = strip_left space s in if space c then rest else String.◌∷◌ c s

unfoldable pub strip_right : (Char → Bool) → String → String
strip_right space String.[] = String.[]
strip_right space (String.◌∷◌ c s) =
    let rest = strip_right space s in
    if space c && str_eq rest "" then String.[] else String.◌∷◌ c rest

abbrev pub strip : (Char → Bool) → String → String
unfolding strip_left strip_right
strip space s = strip_right space (strip_left space s)

abbrev push : Char → List String → List String
push c [] = String.◌∷◌ c String.[] ∷ []
push c (s ∷ parts) = String.◌∷◌ c s ∷ parts

-- `s.split(",")`
unfoldable pub split_comma : String → List String
split_comma String.[] = "" ∷ []
split_comma (String.◌∷◌ c s) =
    let rest = split_comma s in if code c == b',' then "" ∷ rest else push c rest

-- `[o.strip() for o in … if o.strip()]`
unfoldable pub origins_of : (Char → Bool) → List String → List String
unfolding strip_left strip_right
origins_of space [] = []
origins_of space (o ∷ parts) =
    let rest = origins_of space parts in
    if str_eq (strip space o) "" then rest else strip space o ∷ rest

unfoldable pub keys_valid : (String → Bool) → List String → Env → Bool
unfolding lookup
keys_valid valid [] env = true
keys_valid valid (k ∷ ks) env = valid (value k env) && keys_valid valid ks env

abbrev pub is_mode : String → Bool
is_mode mode = str_eq mode "prod" || str_eq mode "demo_synthetic"

module _ (outside : Outside) (drawn : Drawn) where
  open outside use {json_loads, is_space, has_ed25519, is_public_key, default_model_dir}

  -- The environment after the branch on the mode.
  unfoldable pub prepared : String → Env → Result ConfigError Env
  prepared mode env =
      if str_eq mode "prod"
      then (if is_empty (missing required_prod env)
          then ok env
          else err (ConfigError.missing_secrets (missing required_prod env)))
      else ok (demo_defaults drawn env)

  unfoldable pub settings_of : String → Env → Dict (List String) → List String → Settings
  unfolding lookup
  settings_of mode env api_keys cors = record {
    mode = mode;
    edge_secret = value "PRAMAAN_EDGE_SECRET" env;
    audit_signing_key = value "PRAMAAN_AUDIT_KEY" env;
    stepup_pubkey = value "PRAMAAN_STEPUP_PUBKEY" env;
    attest_pubkey = value "PRAMAAN_ATTEST_PUBKEY" env;
    behavior_pubkey = value "PRAMAAN_BEHAVIOR_PUBKEY" env;
    api_keys = api_keys;
    cors_origins = cors;
    model_dir = text_or_default default_model_dir (lookup "PRAMAAN_MODEL_DIR" env);
    redis_url = set_or_none "PRAMAAN_REDIS_URL" env;
    is_synthetic = not (str_eq mode "prod");
    model_sha256 = set_or_none "PRAMAAN_MODEL_SHA256" env;
  }

  -- `Settings.from_env`
  unfoldable pub from_env : Env → Result ConfigError Settings
  unfolding lookup
  from_env given = do
    let mode = text_or_default "prod" (lookup "PRAMAAN_MODE" given)
    guard (is_mode mode) ConfigError.bad_mode
    env ← prepared mode given
    api_keys ← keys_of (json_loads (value "PRAMAAN_API_KEYS" env))
    let cors = origins_of is_space (split_comma (value "PRAMAAN_CORS_ORIGINS" env))
    guard (not (contains "*" cors)) ConfigError.wildcard
    guard (not has_ed25519 || keys_valid is_public_key public_keys env) ConfigError.bad_key
    ok (settings_of mode env api_keys cors)
