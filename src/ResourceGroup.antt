-- ===== src/ResourceGroup.antt =====
-- Resource groups: apis/v1alpha3, pkg/clients/resourcegroup/resourcegroup.go (NewParameters) and
-- pkg/controller/resourcegroup/resourcegroup.go, what the managed reconciler calls.
pub mod Deletion
pub mod Tests
use provider_azure.Prelude.{
  ℕ, String, Bool, true, Option, none, some, [], ◌==◌, nat_eq, if◌then◌else◌,
}
use provider_azure.Go.Errors.{Err, message, Result, ok, err}
use provider_azure.Go.Effect.{M, ◌>>=◌, ◌>>◌, pure, get_object, modify, call}
use provider_azure.Vendor.{Vendor, Condition, Conditions, creating, deleting, available}
use provider_azure.Azure.Convert.{to_string_ptr}
use provider_azure.Managed.{no_details, no_observation, Observed, Detailed, of_kind}

pub record ResourceGroup : Type 0 where
  pub external_name : String
  pub location : String
  pub provisioning_state : String
  pub conditions : Conditions

abbrev pub provisioning_state_deleting : String
provisioning_state_deleting = "Deleting"

-- The part of a `resources.Group` that the code sends.
pub record GroupParameters : Type 0 where
  pub name : Option String
  pub location : Option String

pub record AzureGroupProperties : Type 0 where
  pub provisioning_state : Option String

pub record AzureGroup : Type 0 where
  pub properties : Option AzureGroupProperties

-- `GroupsClient`: each call takes the name; `check_existence` answers with the status code of the
-- response.
pub record GroupsClient (W : Type 0) : Type 0 where
  pub check_existence : String → W → Result ℕ × W
  pub get : String → W → Result AzureGroup × W
  pub create_or_update : String → GroupParameters → W → Option Err × W
  pub delete : String → W → Option Err × W

abbrev pub err_not_resource_group : Err
err_not_resource_group = message "managed resource is not an ResourceGroup"

module _ ⦃v : Vendor⦄ where
  unfoldable pub new_parameters : ResourceGroup → GroupParameters
  unfolding to_string_ptr
  new_parameters r = record {
    name = to_string_ptr r.external_name [];
    location = to_string_ptr r.location [];
  }

module _ {W : Type 0} (client : GroupsClient W) ⦃v : Vendor⦄ where
  abbrev set_condition : Condition → M ResourceGroup W (Unit {0})
  set_condition c = modify λ r. record r { conditions = v.set_condition c r.conditions }

  abbrev pub with_state : Option AzureGroupProperties → ResourceGroup → ResourceGroup
  with_state none r = r
  with_state (some p) r = record r { provisioning_state = v.string p.provisioning_state }

  abbrev fetched : Result AzureGroup → M ResourceGroup W Observed
  fetched (err x) = pure (no_observation, v.wrap (some x) "cannot get ResourceGroup")
  fetched (ok g) = do
    modify (with_state g.properties)
    set_condition available
    pure (record no_observation { resource_exists = true; resource_up_to_date = true }, none)

  abbrev checked : Result ℕ → M ResourceGroup W Observed
  checked (err x) = pure (no_observation, v.wrap (some x) "cannot check existence of ResourceGroup")
  checked (ok status) =
      if nat_eq status 404
      then pure (no_observation, none)
      else (do r ← get_object; g ← call (client.get r.external_name); fetched g)

  unfoldable pub observe_group : M ResourceGroup W Observed
  observe_group = do
    r ← get_object
    status ← call (client.check_existence r.external_name)
    checked status

  unfoldable pub create_group : M ResourceGroup W Detailed
  create_group = do
    set_condition creating
    r ← get_object
    x ← call (client.create_or_update r.external_name (new_parameters r))
    pure (no_details, v.wrap x "cannot create ResourceGroup")

  -- Update does nothing, whatever the object is.
  unfoldable pub update : M (Option ResourceGroup) W Detailed
  update = pure (no_details, none)

  unfoldable pub delete_group : M ResourceGroup W (Option Err)
  delete_group = do
    r ← get_object
    if r.provisioning_state == provisioning_state_deleting then pure none else (do
      set_condition deleting
      x ← call (client.delete r.external_name)
      pure (v.wrap x "cannot delete ResourceGroup"))

  unfoldable pub observe : M (Option ResourceGroup) W Observed
  unfolding observe_group
  observe = of_kind (no_observation, some err_not_resource_group) observe_group

  unfoldable pub create : M (Option ResourceGroup) W Detailed
  unfolding create_group
  create = of_kind (no_details, some err_not_resource_group) create_group

  unfoldable pub delete : M (Option ResourceGroup) W (Option Err)
  unfolding delete_group
  delete = of_kind (some err_not_resource_group) delete_group
