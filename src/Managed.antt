-- ===== src/Managed.antt =====
-- The types of crossplane-runtime's package reconciler/managed that the controllers return, and the
-- frame that their methods share.
use provider_azure.Prelude.{String, Bool, false, Option, none, some}
use provider_azure.Go.Errors.{Err, Result, ok, err}
use provider_azure.Go.Effect.{M, ◌>>=◌, ◌>>◌, pure, get_object, modify, call}

-- `managed.ConnectionDetails`, and the data of a connection secret: a value for each of the keys
-- that the common API names.
pub record ConnectionDetails : Type 0 where
  pub endpoint : Option String
  pub username : Option String
  pub password : Option String
  pub port : Option String

abbrev pub no_details : ConnectionDetails
no_details = record { endpoint = none; username = none; password = none; port = none }

pub record ExternalObservation : Type 0 where
  pub resource_exists : Bool
  pub resource_up_to_date : Bool
  pub resource_late_initialized : Bool
  pub connection_details : ConnectionDetails

-- `managed.ExternalObservation{}`
abbrev pub no_observation : ExternalObservation
no_observation = record {
  resource_exists = false;
  resource_up_to_date = false;
  resource_late_initialized = false;
  connection_details = no_details;
}

-- `(ExternalObservation, error)`; the details of an `ExternalCreation` or an `ExternalUpdate`, and
-- the error.
abbrev pub Observed : Type 0
Observed = ExternalObservation × Option Err

abbrev pub Detailed : Type 0
Detailed = ConnectionDetails × Option Err

module _ {C W : Type 0} where
  -- `cr, ok := mg.(*T)`: the method runs on an object of its kind, and returns `other` on any other.
  abbrev pub of_kind : {R : Type 0} → R → M C W R → M (Option C) W R
  of_kind other m s = elim s.object [
    | none ↦ (other, s)
    | some c ↦
        let (r, s') = m (record { object = c; world = s.world }) in
        (r, record { object = some s'.object; world = s'.world })
  ]

  abbrev replaced : Result C → M C W (Option Err)
  replaced (err e) = pure (some e)
  replaced (ok c) = do modify (λ _. c); pure none

  -- `kube.Update(ctx, cr)`: on success the object holds what the API server answered.
  abbrev pub kube_update : (C → W → Result C × W) → M C W (Option Err)
  kube_update update = do c ← get_object; r ← call (update c); replaced r
