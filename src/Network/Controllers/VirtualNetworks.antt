-- ===== src/Network/Controllers/VirtualNetworks.antt =====
-- pkg/controller/network/virtualnetwork/managed.go: what the managed reconciler calls.
use provider_azure.Prelude.{String, true, Option, none, some, if◌then◌else◌}
use provider_azure.Go.Errors.{Err, message, Result, ok, err}
use provider_azure.Go.Effect.{M, ◌>>=◌, ◌>>◌, pure, get_object, modify, call}
use provider_azure.Vendor.{Vendor, Condition, creating, deleting, available}
use provider_azure.Azure.Convert.{is_not_found, is_not_found_error}
use provider_azure.Managed.{no_details, no_observation, Observed, Detailed, of_kind}
use provider_azure.Network.Types.{VirtualNetwork, AzureNetworkParameters, AzureNetwork}
use provider_azure.Network.Params.{
  new_virtual_network_parameters, virtual_network_needs_update,
  update_virtual_network_status_from_azure,
}

-- `networkapi.VirtualNetworksClientAPI`: each call takes the resource group and the name.
pub record VirtualNetworksClient (W : Type 0) : Type 0 where
  pub get : String → String → W → Result AzureNetwork × W
  pub create_or_update : String → String → AzureNetworkParameters → W → Option Err × W
  pub delete : String → String → W → Option Err × W

abbrev err_not_virtual_network : Err
err_not_virtual_network = message "managed resource is not an VirtualNetwork"

module _ {W : Type 0} (client : VirtualNetworksClient W) ⦃v : Vendor⦄ where
  abbrev set_condition : Condition → M VirtualNetwork W (Unit {0})
  set_condition c = modify λ n. record n { conditions = v.set_condition c n.conditions }

  abbrev finished : String → Option Err → M VirtualNetwork W Detailed
  finished text (some x) = pure (no_details, v.wrap (some x) text)
  finished text none = pure (no_details, none)

  abbrev fetched : Result AzureNetwork → M VirtualNetwork W Observed
  fetched (err x) =
      if is_not_found (some x)
      then pure (no_observation, none)
      else pure (no_observation, v.wrap (some x) "cannot get VirtualNetwork")
  fetched (ok az) = do
    modify λ n. update_virtual_network_status_from_azure n az
    set_condition available
    pure (record no_observation { resource_exists = true }, none)

  unfoldable pub observe_network : M VirtualNetwork W Observed
  unfolding is_not_found
  observe_network = do
    n ← get_object
    az ← call (client.get n.resource_group_name n.external_name)
    fetched az

  unfoldable pub create_network : M VirtualNetwork W Detailed
  create_network = do
    set_condition creating
    n ← get_object
    x ← call (
        client.create_or_update n.resource_group_name n.external_name
          (new_virtual_network_parameters n))
    finished "cannot create VirtualNetwork" x

  abbrev compared : Result AzureNetwork → M VirtualNetwork W Detailed
  compared (err x) = pure (no_details, v.wrap (some x) "cannot get VirtualNetwork")
  compared (ok az) = do
    n ← get_object
    if virtual_network_needs_update n az
        then (do
          x ← call (
              client.create_or_update n.resource_group_name n.external_name
                (new_virtual_network_parameters n))
          finished "cannot update VirtualNetwork" x)
        else pure (no_details, none)

  unfoldable pub update_network : M VirtualNetwork W Detailed
  update_network = do
    n ← get_object
    az ← call (client.get n.resource_group_name n.external_name)
    compared az

  unfoldable pub delete_network : M VirtualNetwork W (Option Err)
  delete_network = do
    set_condition deleting
    n ← get_object
    x ← call (client.delete n.resource_group_name n.external_name)
    pure (v.wrap (v.ignore is_not_found_error x) "cannot delete VirtualNetwork")

  unfoldable pub observe : M (Option VirtualNetwork) W Observed
  unfolding observe_network
  observe = of_kind (no_observation, some err_not_virtual_network) observe_network

  unfoldable pub create : M (Option VirtualNetwork) W Detailed
  unfolding create_network
  create = of_kind (no_details, some err_not_virtual_network) create_network

  unfoldable pub update : M (Option VirtualNetwork) W Detailed
  unfolding update_network
  update = of_kind (no_details, some err_not_virtual_network) update_network

  unfoldable pub delete : M (Option VirtualNetwork) W (Option Err)
  unfolding delete_network
  delete = of_kind (some err_not_virtual_network) delete_network
