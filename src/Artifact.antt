-- ===== src/Artifact.antt =====
-- backend/app/model_loader.py: which model a process serves. Reading JSON, hashing and unpickling
-- are parameters, and so is what writes them; the synthetic model of a demonstration run, trained on random data, is an
-- argument.
pub mod Pinned
pub mod Saved
use bank_of_baroda_iit_gn.Common.{
  String, Bool, true, false, ◌&&◌, Option, none, some, List, [], ◌∷◌, Result, ok, err, ◌>>=◌, ◌>>◌,
  guard, or_raise, str_eq, if◌then◌else◌,
}
use bank_of_baroda_iit_gn.Verifier.{Bytes}
use bank_of_baroda_iit_gn.Auth.{Refusal, compare_digest}
use bank_of_baroda_iit_gn.Engine.Trust.{ServingModel}

-- The keys of the model card that are read.
pub record Card : Type 0 where
  pub artifact_sha256 : Option String
  pub provenance : Option String
  pub name : Option String

pub record Bundle (W : Type 0) : Type 0 where
  pub names : List String
  pub decision_function : List W → Option W

pub record Reader (W : Type 0) : Type 0 where
  pub parse_card : Bytes → Option Card
  pub sha256 : Bytes → String
  pub unpickle : Bytes → Option (Bundle W)

-- `joblib.dump` of a bundle, and `json.dumps` of a card.
pub record Writer (W : Type 0) : Type 0 where
  pub pickle : Bundle W → Bytes
  pub print_card : Card → Bytes

-- The model directory: each file where it exists.
pub record ModelDir : Type 0 where
  pub artifact : Option Bytes
  pub card : Option Bytes

-- `ModelArtifactMissing`, `ModelArtifactInvalid`, and any other exception.
pub data LoadError : Type 0 where
  artifact_missing artifact_invalid crash : LoadError

abbrev equals_some : String → Option String → Bool
equals_some s none = false
equals_some s (some t) = str_eq t s

-- `if pinned`
abbrev pub pin_of : Option String → Option String
pin_of none = none
pin_of (some p) = if str_eq p "" then none else some p

abbrev or_crash : Result Refusal Bool → Result LoadError Bool
or_crash (ok equal) = ok equal
or_crash (err e) = err LoadError.crash

-- The integrity gate: the pin where there is one, else the card's own hash. `hmac.compare_digest`
-- raises at a pin that is not ASCII.
unfoldable pub gate : Option String → Card → String → Result LoadError (Unit {0})
unfolding compare_digest
gate none card digest = guard (equals_some digest card.artifact_sha256) LoadError.artifact_invalid
gate (some pin) card digest = do
  equal ← or_crash (compare_digest digest pin)
  guard equal LoadError.artifact_invalid

abbrev pub same_names : List String → List String → Bool
same_names [] [] = true
same_names (a ∷ s) (b ∷ t) = str_eq a b && same_names s t
same_names _ _ = false

-- `card.get("provenance", card.get("name", "unknown"))`
abbrev name_or_unknown : Option String → String
name_or_unknown none = "unknown"
name_or_unknown (some n) = n

abbrev pub provenance_of : Option String → Option String → String
provenance_of none name = name_or_unknown name
provenance_of (some p) name = p

module _ {W : Type 0} (reader : Reader W) where
  open reader use {parse_card, sha256, unpickle}

  -- `save_artifact`: the files that it leaves in the directory.
  unfoldable pub save_artifact : Writer W → Bundle W → Card → ModelDir
  save_artifact writer bundle card =
      let artifact = writer.pickle bundle in
      record {
        artifact = some artifact;
        card = some (
            writer.print_card (record card {
              artifact_sha256 = some (sha256 artifact);
              provenance = some (provenance_of card.provenance card.name);
            }));
      }

  -- The production branch of `load_serving_model`.
  unfoldable pub load_artifact :
      ModelDir → Option String → List String → Result LoadError (ServingModel W)
  unfolding gate
  load_artifact dir pinned feature_names = do
    artifact ← or_raise dir.artifact LoadError.artifact_missing
    card_text ← or_raise dir.card LoadError.artifact_missing
    card ← or_raise (parse_card card_text) LoadError.crash
    gate (pin_of pinned) card (sha256 artifact)
    bundle ← or_raise (unpickle artifact) LoadError.crash
    guard (same_names bundle.names feature_names) LoadError.artifact_invalid
    ok (record {
      decision_function = bundle.decision_function;
      provenance = provenance_of card.provenance card.name;
    })

  -- `load_serving_model`
  unfoldable pub load_serving_model :
      String
      → ModelDir
      → Option String
      → List String
      → ServingModel W
      → Result LoadError (ServingModel W)
  unfolding load_artifact
  load_serving_model mode dir pinned feature_names synthetic =
      if str_eq mode "demo_synthetic" then ok synthetic else load_artifact dir pinned feature_names
