-- ===== src/Keystore/RoundTrip.antt =====
-- What is put can be read, and no other identity is touched.
use bank_of_baroda_iit_gn.Common.{
  String, ◌≡◌, false, some, ok, arith, str_eq, is_some, if◌then◌else◌,
}
use bank_of_baroda_iit_gn.Common.Dict.{lookup, contains, lookup-insert, lookup-erase}
use bank_of_baroda_iit_gn.Verifier.{Bytes}
use bank_of_baroda_iit_gn.Keystore.{Vault, PiiStore, put, get, shred, key_or}

module _ {M : Type 0} (vault : Vault M) where
  open vault use {encrypt, decrypt, dumps, loads, ref_of}

  -- For an identity that is not erased, `put` succeeds, `get` then returns the material, and `get`
  -- of any other identity is as before, if decryption under a key undoes encryption and `loads`
  -- undoes `dumps`.
  pub get-put :
      (id other : String) (material : M) (generated : Bytes) (s : PiiStore)
      → ((k m : Bytes) → decrypt k (encrypt k m) ≡ some m)
      → ((m : M) → loads (dumps m) ≡ some m)
      → contains id s.tombstoned ≡ false
      → let (answer, after) = put vault id material generated s in
        (answer ≡ ok (ref_of (encrypt (key_or (lookup id s.keys) generated) (dumps material))))
        × (get vault other after ≡ (if str_eq id other then ok material else get vault other s))
  unfolding put get
  get-put id other material generated s undo parse free =
      let key = key_or (lookup id s.keys) generated in
      ground (
        arith,
        free,
        undo key (dumps material),
        parse material,
        lookup-insert id other key s.keys,
        lookup-insert id other (encrypt key (dumps material)) s.ct,
      )

  -- Erasing an identity touches no other: their material is read as before. It tells whether there
  -- was a key, and leaves every ciphertext in place.
  pub erase_is_local :
      (id other : String) (s : PiiStore)
      → str_eq id other ≡ false
      → ((shred id s).0 ≡ is_some (lookup id s.keys))
        × (get vault other (shred id s).1 ≡ get vault other s)
        × ((shred id s).1.ct ≡ s.ct)
  unfolding shred get
  erase_is_local id other s apart = ground (arith, lookup-erase id other s.keys)
