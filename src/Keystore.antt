-- ===== src/Keystore.antt =====
-- backend/app/keystore.py: the vault of encrypted material, one key per identity. Fernet, JSON and
-- SHA-256 are parameters, and the key that `generate_key` returns is an argument.
pub mod Erasure
pub mod RoundTrip
use bank_of_baroda_iit_gn.Common.{
  String, Bool, true, false, Option, none, some, List, [], Result, ok, err, ◌>>=◌, or_raise,
  is_empty, is_some, if◌then◌else◌,
}
use bank_of_baroda_iit_gn.Common.Dict.{Dict, lookup, insert, erase, contains, add, discard}
use bank_of_baroda_iit_gn.Verifier.{Bytes}

-- What the vault takes from outside; `M` is the type of the material.
pub record Vault (M : Type 0) : Type 0 where
  -- `Fernet(key).encrypt` and `decrypt`, which raises `InvalidToken`.
  pub encrypt : Bytes → Bytes → Bytes
  pub decrypt : Bytes → Bytes → Option Bytes
  pub dumps : M → Bytes
  pub loads : Bytes → Option M
  -- `sha256(token).hexdigest()[:16]`
  pub ref_of : Bytes → String

-- The exceptions: `Erased`, `KeyError`, and what decryption or parsing raises.
pub data Failure : Type 0 where
  erased key_error unreadable : Failure

pub record PiiStore : Type 0 where
  pub keys : Dict Bytes
  pub ct : Dict Bytes
  pub tombstoned : List String

abbrev pub empty_vault : PiiStore
empty_vault = record { keys = []; ct = []; tombstoned = [] }

-- `self._keys.get(identity_id) or Fernet.generate_key()`
abbrev pub key_or : Option Bytes → Bytes → Bytes
key_or none generated = generated
key_or (some k) generated = if is_empty k then generated else k

module _ {M : Type 0} (vault : Vault M) where
  open vault use {encrypt, decrypt, dumps, loads, ref_of}

  abbrev stored : String → M → Bytes → PiiStore → Result Failure String × PiiStore
  unfolding insert
  stored identity_id material key s =
      let token = encrypt key (dumps material) in
      (
        ok (ref_of token),
        record s { keys = insert identity_id key s.keys; ct = insert identity_id token s.ct },
      )

  unfoldable pub put : String → M → Bytes → PiiStore → Result Failure String × PiiStore
  unfolding contains lookup insert
  put identity_id material generated s =
      if contains identity_id s.tombstoned
      then (err Failure.erased, s)
      else stored identity_id material (key_or (lookup identity_id s.keys) generated) s

  unfoldable pub get : String → PiiStore → Result Failure M
  unfolding lookup
  get identity_id s = do
    key ← or_raise (lookup identity_id s.keys) Failure.erased
    token ← or_raise (lookup identity_id s.ct) Failure.key_error
    plain ← or_raise (decrypt key token) Failure.unreadable
    or_raise (loads plain) Failure.unreadable

-- `KeyedPiiStore.erase`: whether the identity existed, and the store without its key.
unfoldable pub shred : String → PiiStore → Bool × PiiStore
unfolding lookup erase add
shred identity_id s = (
  is_some (lookup identity_id s.keys),
  record s { keys = erase identity_id s.keys; tombstoned = add identity_id s.tombstoned },
)

unfoldable pub reconsent : String → PiiStore → PiiStore
unfolding discard
reconsent identity_id s = record s { tombstoned = discard identity_id s.tombstoned }

unfoldable pub is_erased : String → PiiStore → Bool
unfolding contains
is_erased identity_id s = contains identity_id s.tombstoned
