-- ===== src/Features/Profile.antt =====
-- What a committed event teaches the profile.
use bank_of_baroda_iit_gn.Common.{ℕ, get_elem?, ◌≡◌, Option, some, arith, str_eq_iff}
use bank_of_baroda_iit_gn.Common.Dict.{contains-add}
use bank_of_baroda_iit_gn.Float.{Float}
use bank_of_baroda_iit_gn.Schemas.{IdentityEvent}
use bank_of_baroda_iit_gn.State.{IdentityState}
use bank_of_baroda_iit_gn.Features.{features_of, commit_features}

module _ {W : Type 0} ⦃f : Float W⦄ where
  -- Once an event is committed, its device and its location score 0 for every later event of the
  -- identity that shows them, whatever else that event holds.
  pub known_after_commit :
      (state : IdentityState W) (e later : IdentityEvent W) (share : ℕ) (anomaly : Option W)
      → later.device_id ≡ e.device_id
      → later.geo ≡ e.geo
      → let vec = features_of later (commit_features state e) share anomaly in
        (get_elem? vec 0 ≡ some (f.lit 0 0)) × (get_elem? vec 1 ≡ some (f.lit 0 0))
  unfolding features_of commit_features
  known_after_commit state e later share anomaly d g = ground (
    arith,
    contains-add e.device_id later.device_id state.devices,
    contains-add e.geo later.geo state.geos,
    str_eq_iff e.device_id later.device_id,
    str_eq_iff e.geo later.geo,
  )
