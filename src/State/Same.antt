-- ===== src/State/Same.antt =====
-- States of backend/app/state_store.py up to the order in which their sets are listed.
use bank_of_baroda_iit_gn.Common.{ℕ, String, ◌≡◌, refl, ap, ◌∙◌, [], List, Bool}
use bank_of_baroda_iit_gn.Common.Dict.{contains}
use bank_of_baroda_iit_gn.State.{IdentityState}

-- The set that a list stands for.
abbrev pub members : List String → String → Bool
members xs = λ x. contains x xs

module _ {W : Type 0} where
  -- Two states that differ at most in the order of their devices and locations.
  pub record SameState (s t : IdentityState W) : Type 0 where
    pub rest : record s { devices = []; geos = [] } ≡ record t { devices = []; geos = [] }
    pub devices : members s.devices ≡ members t.devices
    pub geos : members s.geos ≡ members t.geos

  pub SameState-refl : (s : IdentityState W) → SameState s s
  SameState-refl s = record { rest = refl; devices = refl; geos = refl }

  pub SameState-version : (s t : IdentityState W) → SameState s t → s.version ≡ t.version
  SameState-version s t same = ap (λ (u : IdentityState W). u.version) same.rest

  pub SameState-at :
      (s t u : IdentityState W) (v : ℕ)
      → SameState s t
      → SameState (record t { version = v }) u
      → SameState (record s { version = v }) u
  SameState-at s t u v same written = record {
    rest = ap (λ (w : IdentityState W). record w { version = v }) same.rest ∙ written.rest;
    devices = same.devices ∙ written.devices;
    geos = same.geos ∙ written.geos;
  }
