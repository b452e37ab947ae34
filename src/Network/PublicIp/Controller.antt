-- ===== src/Network/PublicIp/Controller.antt =====
-- pkg/controller/network/publicipaddress/managed.go: what the managed reconciler calls.
use provider_azure.Prelude.{String, true, Option, none, some}
use provider_azure.Go.Errors.{Err, message, Result, ok, err}
use provider_azure.Go.Effect.{M, ◌>>=◌, ◌>>◌, pure, get_object, modify, call}
use provider_azure.Vendor.{Vendor, Condition, available}
use provider_azure.Azure.Convert.{is_not_found, is_not_found_error}
use provider_azure.Managed.{no_details, no_observation, Observed, Detailed, of_kind, kube_update}
use provider_azure.Network.PublicIp.{PublicIpAddress, AzureAddressParameters, AzureAddress}
use provider_azure.Network.PublicIp.Params.{
  new_public_ip_address_parameters, generate_public_ip_address_observation,
  late_initialize_public_ip_address, is_public_ip_address_up_to_date,
}

-- `external`: the Azure client, whose calls take the resource group and the name, and the update of
-- the API server.
pub record External (W : Type 0) : Type 0 where
  pub get : String → String → W → Result AzureAddress × W
  pub create_or_update : String → String → AzureAddressParameters → W → Option Err × W
  pub delete : String → String → W → Option Err × W
  pub update_object : PublicIpAddress → W → Result PublicIpAddress × W

abbrev err_not_public_ip_address : Err
err_not_public_ip_address = message "managed resource is not a PublicIPAddress"

module _ {W : Type 0} (e : External W) ⦃v : Vendor⦄ where
  abbrev set_condition : Condition → M PublicIpAddress W (Unit {0})
  set_condition c = modify λ s. record s { conditions = v.set_condition c s.conditions }

  abbrev updated : AzureAddress → Option Err → M PublicIpAddress W Observed
  updated az (some x) =
      pure (no_observation, v.wrap (some x) "cannot update PublicIPAddress custom resource")
  updated az none = do
    modify λ s. record s { at_provider = generate_public_ip_address_observation az }
    set_condition available
    s ← get_object
    pure (
      record no_observation {
        resource_exists = true;
        resource_up_to_date = is_public_ip_address_up_to_date s.for_provider az;
      },
      none,
    )

  abbrev fetched : Result AzureAddress → M PublicIpAddress W Observed
  fetched (err x) =
      pure
        (no_observation, v.wrap (v.ignore is_not_found_error (some x)) "cannot get PublicIPAddress")
  fetched (ok az) = do
    modify λ s. record s { for_provider = late_initialize_public_ip_address s.for_provider az }
    x ← kube_update e.update_object
    updated az x

  unfoldable pub observe_public_ip_address : M PublicIpAddress W Observed
  unfolding is_not_found
  observe_public_ip_address = do
    s ← get_object
    az ← call (e.get s.for_provider.resource_group_name s.external_name)
    fetched az

  unfoldable pub create_public_ip_address : M PublicIpAddress W Detailed
  create_public_ip_address = do
    s ← get_object
    x ← call (
        e.create_or_update s.for_provider.resource_group_name s.external_name
          (new_public_ip_address_parameters s))
    pure (no_details, v.wrap x "cannot create PublicIPAddress")

  unfoldable pub update_public_ip_address : M PublicIpAddress W Detailed
  update_public_ip_address = do
    s ← get_object
    x ← call (
        e.create_or_update s.for_provider.resource_group_name s.external_name
          (new_public_ip_address_parameters s))
    pure (no_details, v.wrap x "cannot update PublicIPAddress")

  unfoldable pub delete_public_ip_address : M PublicIpAddress W (Option Err)
  unfolding is_not_found
  delete_public_ip_address = do
    s ← get_object
    x ← call (e.delete s.for_provider.resource_group_name s.external_name)
    pure (v.wrap (v.ignore is_not_found_error x) "cannot delete PublicIPAddress")

  unfoldable pub observe : M (Option PublicIpAddress) W Observed
  unfolding observe_public_ip_address
  observe = of_kind (no_observation, some err_not_public_ip_address) observe_public_ip_address

  unfoldable pub create : M (Option PublicIpAddress) W Detailed
  unfolding create_public_ip_address
  create = of_kind (no_details, some err_not_public_ip_address) create_public_ip_address

  unfoldable pub update : M (Option PublicIpAddress) W Detailed
  unfolding update_public_ip_address
  update = of_kind (no_details, some err_not_public_ip_address) update_public_ip_address

  unfoldable pub delete : M (Option PublicIpAddress) W (Option Err)
  unfolding delete_public_ip_address
  delete = of_kind (some err_not_public_ip_address) delete_public_ip_address
