-- ===== src/Tests/Startup.antt =====
-- The theorems on the settings at concrete environments.
use bank_of_baroda_iit_gn.Common.{
  All, none, ok, ℕ, if◌then◌else◌, some, ◌≡◌, refl, true, false, ◌&&◌, ◌||◌, not, [], ◌∷◌, err,
  is_ok, str_eq,
}
use bank_of_baroda_iit_gn.Common.Dict.{lookup, insert, contains}
use bank_of_baroda_iit_gn.Config.{
  Drawn, Env, Outside, Registry, Settings, all_valid, from_env, keys_valid, missing, origins_of,
  prepared, registry_valid, settings_of, split_comma, strip_left, strip_right,
}
use bank_of_baroda_iit_gn.Config.Sound.{HasValidScopes, from_env_sound}
use bank_of_baroda_iit_gn.Engine.Trust.{ServingModel}
use bank_of_baroda_iit_gn.Artifact.{
  Bundle, Card, LoadError, Reader, Writer, load_serving_model, same_names, save_artifact,
}
use bank_of_baroda_iit_gn.Artifact.Saved.{admits, is_comparable, load_serving_model-save_artifact}
use bank_of_baroda_iit_gn.Tests.Data.{get_ok, get_ok_lem}

abbrev outside : Outside
outside = record {
  json_loads = λ s. Registry.table (("k1", "audit:read" ∷ []) ∷ []);
  is_space = λ c. false;
  has_ed25519 = true;
  is_public_key = λ s. str_eq s "pk";
  default_model_dir = "results/models";
}

abbrev drawn : Drawn
drawn = record {
  edge_secret = "DEMO-1";
  audit_key = "DEMO-2";
  public_key = λ k. "pk";
  demo_registry = "{}";
}

abbrev prod_env : Env
prod_env =
    ("PRAMAAN_EDGE_SECRET", "s")
    ∷ ("PRAMAAN_AUDIT_KEY", "a")
    ∷ ("PRAMAAN_STEPUP_PUBKEY", "pk")
    ∷ ("PRAMAAN_ATTEST_PUBKEY", "pk")
    ∷ ("PRAMAAN_BEHAVIOR_PUBKEY", "pk")
    ∷ ("PRAMAAN_API_KEYS", "{}")
    ∷ ("PRAMAAN_CORS_ORIGINS", "https://bank,https://soc")
    ∷ []

starts : is_ok (from_env outside drawn prod_env) ≡ true
unfolding from_env prepared settings_of missing origins_of split_comma strip_left strip_right
    keys_valid registry_valid all_valid contains lookup insert
starts = refl

abbrev settings : Settings
settings = get_ok (from_env outside drawn prod_env) starts

in_prod : str_eq settings.mode "prod" ≡ true
unfolding from_env prepared settings_of missing origins_of split_comma strip_left strip_right
    keys_valid registry_valid all_valid contains lookup insert
in_prod = refl

from_env_sound_example :
    ((str_eq settings.mode "prod" || str_eq settings.mode "demo_synthetic") ≡ true)
    × All HasValidScopes settings.api_keys
    × (contains "*" settings.cors_origins ≡ false)
    × ((not true
          || (str_eq settings.stepup_pubkey "pk"
              && str_eq settings.attest_pubkey "pk"
              && str_eq settings.behavior_pubkey "pk"))
        ≡ true)
from_env_sound_example =
    from_env_sound outside drawn prod_env settings
      (get_ok_lem (from_env outside drawn prod_env) starts)

abbrev model : ServingModel ℕ
model = record { decision_function = λ vec. some 1; provenance = "PROD" }

abbrev bundle : Bundle ℕ
bundle = record { names = "new_device" ∷ []; decision_function = λ vec. some 1 }

abbrev card : Card
card = record { artifact_sha256 = none; provenance = none; name = some "forest" }

abbrev writer : Writer ℕ
writer = record { pickle = λ b. 1 ∷ []; print_card = λ c. 2 ∷ [] }

abbrev written : Card
written = record { artifact_sha256 = some "d1"; provenance = some "forest"; name = some "forest" }

abbrev reads_back : Reader ℕ
reads_back = record {
  parse_card = λ t. some written;
  sha256 = λ bytes. "d1";
  unpickle = λ bytes. some bundle;
}

load_serving_model-save_artifact_example :
    load_serving_model reads_back "prod"
      (save_artifact reads_back writer bundle card)
      (some "d1")
      ("new_device" ∷ [])
      model
    ≡ (if not (is_comparable (some "d1") "d1")
        then err LoadError.crash
        else if admits (some "d1") "d1" && same_names bundle.names ("new_device" ∷ [])
        then ok (record { decision_function = bundle.decision_function; provenance = "forest" })
        else err LoadError.artifact_invalid)
load_serving_model-save_artifact_example =
    load_serving_model-save_artifact reads_back writer "prod" bundle card (some "d1")
      ("new_device" ∷ []) model refl refl refl
