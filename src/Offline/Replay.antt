-- ===== src/Offline/Replay.antt =====
-- The replay folds every login into the profile of its user.
use bank_of_baroda_iit_gn.Common.{
  ℕ, suc, ◌+◌, String, ◌≡◌, refl, none, List, [], ◌∷◌, arith, length, str_eq, str_eq_iff,
  if◌then◌else◌,
}
use bank_of_baroda_iit_gn.Float.{Float}
use bank_of_baroda_iit_gn.Schemas.{IdentityEvent}
use bank_of_baroda_iit_gn.State.{IdentityState, StateStore, device_add, load}
use bank_of_baroda_iit_gn.State.Commit.{commit_cas}
use bank_of_baroda_iit_gn.Features.{commit_features, compute_features}
use bank_of_baroda_iit_gn.Offline.{Row, replay, replay_login, row_to_event}

-- The number of rows of a user.
pub logins_of : String → List Row → ℕ
logins_of id [] = 0
logins_of id (r ∷ rows) =
    let rest = logins_of id rows in if str_eq r.user id then suc rest else rest

module _ {W : Type 0} ⦃f : Float W⦄ where
  folded_count :
      (state : IdentityState W) (e : IdentityEvent W) (dev : ℕ)
      → let folded = commit_features (compute_features e state dev none).1 e in
        (folded.event_count ≡ state.event_count + 1) × (folded.version ≡ state.version)
  unfolding commit_features compute_features
  folded_count state e dev = (refl, refl)

  load-device_add :
      (store : StateStore W) (device id j : String)
      → load (device_add store device id).1 j ≡ load store j
  unfolding load device_add
  load-device_add store device id j = refl

  login_counts :
      (store : StateStore W) (r : Row) (id : String)
      → (load (replay_login store r).1 id).event_count
        ≡ (load store id).event_count + (if str_eq r.user id then 1 else 0)
  unfolding replay_login row_to_event
  login_counts store r id =
      let e : IdentityEvent W = row_to_event r in
      let seen = (device_add store e.device_id e.identity_id).1 in
      let dev = (device_add store e.device_id e.identity_id).0 in
      let state = load store e.identity_id in
      let folded = commit_features (compute_features e state dev none).1 e in
      ground (
        arith,
        commit_cas seen r.user folded folded.version id,
        load-device_add store e.device_id r.user id,
        load-device_add store e.device_id r.user r.user,
        folded_count state e dev,
        str_eq_iff r.user id,
      )

  -- The replay gives one vector for each row and loses no login to a stale version: every user's
  -- count of events grows by exactly the number of that user's rows.
  pub replay_counts :
      (rows : List Row) (store : StateStore W) (id : String)
      → let (vectors, after) = replay store rows in
        (length vectors ≡ length rows)
        × ((load after id).event_count ≡ (load store id).event_count + logins_of id rows)
  unfolding replay logins_of
  replay_counts [] store id = (refl, omega arith)
  replay_counts (r ∷ rows) store id =
      ground (arith, login_counts store r id, replay_counts rows (replay_login store r).1 id)
