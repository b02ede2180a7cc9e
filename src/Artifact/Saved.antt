-- ===== src/Artifact/Saved.antt =====
-- What save_artifact writes, load_serving_model reads.
use bank_of_baroda_iit_gn.Common.{
  String, Bool, ◌≡◌, ◌&&◌, not, true, false, Option, none, some, List, ok, err, arith, str_eq,
  str_eq_iff, if◌then◌else◌,
}
use bank_of_baroda_iit_gn.Auth.{compare_digest, is_ascii}
use bank_of_baroda_iit_gn.Engine.Trust.{ServingModel}
use bank_of_baroda_iit_gn.Artifact.{
  Bundle, Card, LoadError, Reader, Writer, gate, load_artifact, load_serving_model, pin_of,
  provenance_of, same_names, save_artifact,
}

-- Whether a pinned digest, where there is one, is the given one.
abbrev pub admits : Option String → String → Bool
admits none digest = true
admits (some pin) digest = str_eq digest pin

-- Whether the digest can be compared with a pinned one: texts outside ASCII cannot.
abbrev pub is_comparable : Option String → String → Bool
is_comparable none digest = true
is_comparable (some pin) digest = is_ascii digest && is_ascii pin

module _ {W : Type 0} (reader : Reader W) (writer : Writer W) where
  open reader use {sha256}

  abbrev pub saved_card : Bundle W → Card → Card
  saved_card bundle card = record card {
    artifact_sha256 = some (sha256 (writer.pickle bundle));
    provenance = some (provenance_of card.provenance card.name);
  }

  -- Outside a demonstration run, a directory that save_artifact wrote, and that joblib and JSON read
  -- back, gives its model, with the provenance of the card or else its name, exactly if no digest is
  -- pinned or the artifact's own, and the feature names are the ones served; it raises another
  -- exception if a digest is pinned and that or the artifact's own is not ASCII, and is refused as
  -- invalid otherwise.
  pub load_serving_model-save_artifact :
      (mode : String) (bundle : Bundle W) (card : Card) (pinned : Option String)
      (names : List String) (synthetic : ServingModel W)
      → str_eq mode "demo_synthetic" ≡ false
      → reader.unpickle (writer.pickle bundle) ≡ some bundle
      → reader.parse_card (writer.print_card (saved_card bundle card))
        ≡ some (saved_card bundle card)
      → load_serving_model reader mode
          (save_artifact reader writer bundle card)
          pinned
          names
          synthetic
        ≡ (if not (is_comparable (pin_of pinned) (sha256 (writer.pickle bundle)))
            then err LoadError.crash
            else if admits (pin_of pinned) (sha256 (writer.pickle bundle))
                && same_names bundle.names names
            then ok (record {
              decision_function = bundle.decision_function;
              provenance = provenance_of card.provenance card.name;
            })
            else err LoadError.artifact_invalid)
  unfolding load_serving_model load_artifact gate compare_digest save_artifact
  load_serving_model-save_artifact mode bundle card pinned names synthetic prod unpickled parsed =
      ground (
        arith,
        prod,
        unpickled,
        parsed,
        str_eq_iff (sha256 (writer.pickle bundle)) (sha256 (writer.pickle bundle)),
      )
