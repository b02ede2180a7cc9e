-- ===== src/Durable/Refines.antt =====
-- The table does what the vault in memory does.
use bank_of_baroda_iit_gn.Common.{
  sym, String, ◌≡◌, true, false, Option, none, some, arith, is_empty, is_some, str_eq_iff,
}
use bank_of_baroda_iit_gn.Common.Dict.{
  Dict, lookup, contains, lookup-insert, lookup-erase, contains-add,
}
use bank_of_baroda_iit_gn.Verifier.{Bytes}
use bank_of_baroda_iit_gn.Keystore.{PiiStore, Vault, get, is_erased, key_or, put, shred}
use bank_of_baroda_iit_gn.Durable.{
  Row, ciphertext_at, erase_row, get_row, has_key, is_erased_row, key_at, or_generated, put_row,
  tombstoned_at,
}

-- A table and a vault that hold the same for an identity, with a key that is not empty.
abbrev pub Agree : PiiStore → Dict Row → String → Type 0
Agree s rows id =
    (lookup id s.keys ≡ key_at (lookup id rows))
    × (contains id s.tombstoned ≡ tombstoned_at (lookup id rows))
    × (lookup id s.ct ≡ ciphertext_at (lookup id rows))
    × (is_some (lookup id s.keys) ≡ has_key (lookup id rows))

used_key :
    (k : Option Bytes) (row : Option Row) (generated : Bytes)
    → is_empty generated ≡ false
    → k ≡ key_at row
    → (or_generated (key_at row) generated ≡ key_or k generated)
      × (is_empty (or_generated (key_at row) generated) ≡ false)
used_key k row generated real e = ground (arith, real, e)

module _ {M : Type 0} (vault : Vault M) where
  put-Agree :
      (id j : String) (material : M) (generated : Bytes) (s : PiiStore) (rows : Dict Row)
      → is_empty generated ≡ false
      → Agree s rows id
      → Agree s rows j
      → ((put_row vault id material generated rows).0 ≡ (put vault id material generated s).0)
        × Agree (put vault id material generated s).1 (put_row vault id material generated rows).1 j
  unfolding put_row put
  put-Agree id j material generated s rows real at_id at_j =
      let key = or_generated (key_at (lookup id rows)) generated in
      let token = vault.encrypt key (vault.dumps material) in
      let (same, full) = used_key (lookup id s.keys) (lookup id rows) generated real at_id.0 in
      rw (sym same) (
        ground (
          arith,
          full,
          at_id,
          at_j,
          str_eq_iff id j,
          lookup-insert id j key s.keys,
          lookup-insert id j token s.ct,
          lookup-insert id j
              (record {
                ciphertext = some token;
                fkey = some key;
                tombstoned = tombstoned_at (lookup id rows);
              })
              rows,
        ))

  erase-Agree :
      (id j : String) (s : PiiStore) (rows : Dict Row)
      → Agree s rows id
      → Agree s rows j
      → ((erase_row id rows).0 ≡ (shred id s).0) × Agree (shred id s).1 (erase_row id rows).1 j
  unfolding erase_row shred
  erase-Agree id j s rows at_id at_j = ground (
    arith,
    at_id,
    at_j,
    str_eq_iff id j,
    lookup-erase id j s.keys,
    contains-add id j s.tombstoned,
    lookup-insert id j
        (record { ciphertext = ciphertext_at (lookup id rows); fkey = none; tombstoned = true })
        rows,
  )

  get-Agree :
      (id : String) (s : PiiStore) (rows : Dict Row)
      → Agree s rows id
      → (get_row vault id rows ≡ get vault id s) × (is_erased_row id rows ≡ is_erased id s)
  unfolding get_row get is_erased_row is_erased
  get-Agree id s rows h = ground (arith, h)

  -- A table that agrees with a vault in memory on every identity answers each call as the vault does
  -- and agrees with it afterwards, provided that generated keys are not empty.
  pub table_refines_vault :
      (id : String) (material : M) (generated : Bytes) (s : PiiStore) (rows : Dict Row)
      → is_empty generated ≡ false
      → ((j : String) → Agree s rows j)
      → (((put_row vault id material generated rows).0 ≡ (put vault id material generated s).0)
          × ((j : String)
              → Agree
                  (put vault id material generated s).1
                  (put_row vault id material generated rows).1
                  j))
        × (((erase_row id rows).0 ≡ (shred id s).0)
            × ((j : String) → Agree (shred id s).1 (erase_row id rows).1 j))
        × (get_row vault id rows ≡ get vault id s)
        × (is_erased_row id rows ≡ is_erased id s)
  table_refines_vault id material generated s rows real agree = (
    (
      (put-Agree id id material generated s rows real (agree id) (agree id)).0,
      λ j. (put-Agree id j material generated s rows real (agree id) (agree j)).1,
    ),
    (
      (erase-Agree id id s rows (agree id) (agree id)).0,
      λ j. (erase-Agree id j s rows (agree id) (agree j)).1,
    ),
    (get-Agree id s rows (agree id)).0,
    (get-Agree id s rows (agree id)).1,
  )
