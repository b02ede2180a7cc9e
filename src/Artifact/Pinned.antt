-- ===== src/Artifact/Pinned.antt =====
-- A pinned model is the one that is served.
use bank_of_baroda_iit_gn.Common.{
  String, ◌≡◌, false, some, List, ok, arith, str_eq, str_eq_iff, Option-cases, inl, inr,
}
use bank_of_baroda_iit_gn.Verifier.{Bytes}
use bank_of_baroda_iit_gn.Engine.Trust.{ServingModel}
use bank_of_baroda_iit_gn.Auth.{compare_digest}
use bank_of_baroda_iit_gn.Artifact.{ModelDir, Reader, gate, load_artifact, load_serving_model}

module _ {W : Type 0} (reader : Reader W) where
  -- Outside a demonstration run, if a digest is pinned, a model is loaded only from a file with
  -- that digest, whatever the card says.
  pub pinned_digest :
      (mode : String) (dir : ModelDir) (pin : String) (names : List String)
      (synthetic model : ServingModel W)
      → str_eq mode "demo_synthetic" ≡ false
      → str_eq pin "" ≡ false
      → load_serving_model reader mode dir (some pin) names synthetic ≡ ok model
      → (artifact : Bytes) × (dir.artifact ≡ some artifact) × (reader.sha256 artifact ≡ pin)
  unfolding load_serving_model load_artifact gate compare_digest
  pinned_digest mode dir pin names synthetic model prod given h = elim (Option-cases dir.artifact) [
    | inl gone ↦ absurd (ground (arith, gone, prod, h))
    | inr (artifact, found) ↦ elim (Option-cases dir.card) [
      | inl gone ↦ absurd (ground (arith, found, gone, prod, h))
      | inr (card_text, at_card) ↦ elim (Option-cases (reader.parse_card card_text)) [
        | inl broken ↦ absurd (ground (arith, found, at_card, broken, prod, h))
        | inr (card, parsed) ↦ (
          artifact,
          found,
          ground (
            arith,
            found,
            at_card,
            parsed,
            prod,
            given,
            h,
            str_eq_iff (reader.sha256 artifact) pin,
          ),
        )
      ]
    ]
  ]
