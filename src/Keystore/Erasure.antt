-- ===== src/Keystore/Erasure.antt =====
-- Erasure lasts until a new consent.
use bank_of_baroda_iit_gn.Common.{
  String, ◌≡◌, Bool, true, false, none, List, [], ◌∷◌, err, All, arith, str_eq, str_eq_iff,
}
use bank_of_baroda_iit_gn.Common.Dict.{
  lookup, contains, lookup-insert, lookup-erase, contains-add, contains-discard,
}
use bank_of_baroda_iit_gn.Verifier.{Bytes}
use bank_of_baroda_iit_gn.Keystore.{
  Vault, Failure, PiiStore, put, get, shred, reconsent, is_erased, key_or,
}

-- A call that changes the vault.
pub data Operation (M : Type 0) : Type 0 where
  gather : String → M → Bytes → Operation M
  forget : String → Operation M
  consent : String → Operation M

-- Whether an operation is a new consent of the identity.
abbrev pub is_consent : {M : Type 0} → String → Operation M → Bool
is_consent id (consent j) = str_eq j id
is_consent id _ = false

module _ {M : Type 0} (vault : Vault M) where
  unfoldable pub perform : Operation M → PiiStore → PiiStore
  perform (gather j material generated) s = (put vault j material generated s).1
  perform (forget j) s = (shred j s).1
  perform (consent j) s = reconsent j s

  unfoldable pub perform_all : List (Operation M) → PiiStore → PiiStore
  perform_all [] s = s
  perform_all (o ∷ os) s = perform_all os (perform o s)

  abbrev Gone : String → PiiStore → Type 0
  Gone id s = (contains id s.tombstoned ≡ true) × (lookup id s.keys ≡ none)

  perform-Gone :
      (id : String) (o : Operation M) (s : PiiStore)
      → is_consent id o ≡ false
      → Gone id s
      → Gone id (perform o s)
  unfolding perform put shred reconsent
  perform-Gone id (gather j material generated) s other gone =
      ground (
        arith,
        gone,
        str_eq_iff j id,
        lookup-insert j id (key_or (lookup j s.keys) generated) s.keys,
      )
  perform-Gone id (forget j) s other gone =
      ground (arith, lookup-erase j id s.keys, contains-add j id s.tombstoned)
  perform-Gone id (consent j) s other gone = ground (arith, contains-discard j id s.tombstoned)

  perform_all-Gone :
      (id : String) (os : List (Operation M)) (s : PiiStore)
      → All (λ o. is_consent id o ≡ false) os
      → Gone id s
      → Gone id (perform_all os s)
  unfolding perform_all
  perform_all-Gone id [] s others gone = gone
  perform_all-Gone id (o ∷ os) s others gone =
      perform_all-Gone id os (perform o s) others.1 (perform-Gone id o s others.0 gone)

  shred-Gone : (id : String) (s : PiiStore) → Gone id (shred id s).1
  unfolding shred
  shred-Gone id s =
      ground (arith, lookup-erase id id s.keys, contains-add id id s.tombstoned, str_eq_iff id id)

  -- After an erasure, whatever is collected, erased or consented to for others, the material of the
  -- identity cannot be read and nothing can be collected for it, until it consents anew.
  pub erasure_is_durable :
      (id : String) (s : PiiStore) (os : List (Operation M)) (material : M) (generated : Bytes)
      → All (λ o. is_consent id o ≡ false) os
      → let after = perform_all os (shred id s).1 in
        (is_erased id after ≡ true)
        × (get vault id after ≡ err Failure.erased)
        × (put vault id material generated after ≡ (err Failure.erased, after))
  unfolding get put is_erased
  erasure_is_durable id s os material generated others =
      let gone = perform_all-Gone id os (shred id s).1 others (shred-Gone id s) in
      ground (arith, gone)
