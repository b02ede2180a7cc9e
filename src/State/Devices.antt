-- ===== src/State/Devices.antt =====
-- The cross-identity device graph: distinct identities are counted once.
use bank_of_baroda_iit_gn.Common.{
  suc, ◌+◌, String, ◌≡◌, Bool, true, List, arith, length, str_eq, str_eq_iff, if◌then◌else◌,
}
use bank_of_baroda_iit_gn.Common.Dict.{add, contains, lookup, lookup-insert, contains-add}
use bank_of_baroda_iit_gn.State.{StateStore, ids_or_empty, device_add, device_count}

length-add :
    (k : String) (s : List String)
    → length (add k s) ≡ (if contains k s then length s else suc (length s))
unfolding add
length-add k s = ground arith

module _ {W : Type 0} where
  -- Whether an identity was seen on a device.
  unfoldable pub seen_on : StateStore W → String → String → Bool
  seen_on store device_id identity_id =
      contains identity_id (ids_or_empty (lookup device_id store.device_ids))

  -- `device_add` records the identity on that device alone, and returns the number of distinct
  -- identities of the device: one more than before if the identity is new there.
  pub device_add_counts :
      (store : StateStore W) (device id : String) (other who : String)
      → let (n, store') = device_add store device id in
        (n ≡ (
          if seen_on store device id
          then device_count store device
          else device_count store device + 1))
        × (n ≡ device_count store' device)
        × (seen_on store' other who ≡ (
            if str_eq device other
            then (if str_eq id who then true else seen_on store other who)
            else seen_on store other who))
  unfolding device_add device_count seen_on
  device_add_counts store device id other who =
      let ids = ids_or_empty (lookup device store.device_ids) in
      ground (
        arith,
        length-add id ids,
        contains-add id who ids,
        lookup-insert device device (add id ids) store.device_ids,
        lookup-insert device other (add id ids) store.device_ids,
        str_eq_iff device device,
        str_eq_iff device other,
      )
