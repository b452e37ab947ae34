-- ===== src/Network/Controllers/Subnets.antt =====
-- pkg/controller/network/subnet/managed.go: what the managed reconciler calls.
use provider_azure.Prelude.{String, true, Option, none, some, if◌then◌else◌}
use provider_azure.Go.Errors.{Err, message, Result, ok, err}
use provider_azure.Go.Effect.{M, ◌>>=◌, ◌>>◌, pure, get_object, modify, call}
use provider_azure.Vendor.{Vendor, Condition, creating, deleting, available}
use provider_azure.Azure.Convert.{is_not_found, is_not_found_error}
use provider_azure.Managed.{no_details, no_observation, Observed, Detailed, of_kind}
use provider_azure.Network.Types.{Subnet, AzureSubnetParameters, AzureSubnet}
use provider_azure.Network.Params.{
  new_subnet_parameters, subnet_needs_update, update_subnet_status_from_azure,
}

-- `networkapi.SubnetsClientAPI`: each call takes the resource group, the virtual network and the name.
pub record SubnetsClient (W : Type 0) : Type 0 where
  pub get : String → String → String → W → Result AzureSubnet × W
  pub create_or_update : String → String → String → AzureSubnetParameters → W → Option Err × W
  pub delete : String → String → String → W → Option Err × W

abbrev err_not_subnet : Err
err_not_subnet = message "managed resource is not an Subnet"

module _ {W : Type 0} (client : SubnetsClient W) ⦃v : Vendor⦄ where
  abbrev set_condition : Condition → M Subnet W (Unit {0})
  set_condition c = modify λ sn. record sn { conditions = v.set_condition c sn.conditions }

  abbrev finished : String → Option Err → M Subnet W Detailed
  finished text (some x) = pure (no_details, v.wrap (some x) text)
  finished text none = pure (no_details, none)

  abbrev fetched : Result AzureSubnet → M Subnet W Observed
  fetched (err x) =
      if is_not_found (some x)
      then pure (no_observation, none)
      else pure (no_observation, v.wrap (some x) "cannot get Subnet")
  fetched (ok az) = do
    modify λ sn. update_subnet_status_from_azure sn az
    set_condition available
    pure (record no_observation { resource_exists = true }, none)

  unfoldable pub observe_subnet : M Subnet W Observed
  unfolding is_not_found
  observe_subnet = do
    sn ← get_object
    az ← call (client.get sn.resource_group_name sn.virtual_network_name sn.external_name)
    fetched az

  unfoldable pub create_subnet : M Subnet W Detailed
  create_subnet = do
    set_condition creating
    sn ← get_object
    x ← call (
        client.create_or_update sn.resource_group_name sn.virtual_network_name sn.external_name
          (new_subnet_parameters sn))
    finished "cannot create Subnet" x

  abbrev compared : Result AzureSubnet → M Subnet W Detailed
  compared (err x) = pure (no_details, v.wrap (some x) "cannot get Subnet")
  compared (ok az) = do
    sn ← get_object
    if subnet_needs_update sn az
        then (do
          x ← call (
              client.create_or_update sn.resource_group_name sn.virtual_network_name
                sn.external_name (new_subnet_parameters sn))
          finished "cannot update Subnet" x)
        else pure (no_details, none)

  unfoldable pub update_subnet : M Subnet W Detailed
  update_subnet = do
    sn ← get_object
    az ← call (client.get sn.resource_group_name sn.virtual_network_name sn.external_name)
    compared az

  unfoldable pub delete_subnet : M Subnet W (Option Err)
  delete_subnet = do
    set_condition deleting
    sn ← get_object
    x ← call (client.delete sn.resource_group_name sn.virtual_network_name sn.external_name)
    pure (v.wrap (v.ignore is_not_found_error x) "cannot delete Subnet")

  unfoldable pub observe : M (Option Subnet) W Observed
  unfolding observe_subnet
  observe = of_kind (no_observation, some err_not_subnet) observe_subnet

  unfoldable pub create : M (Option Subnet) W Detailed
  unfolding create_subnet
  create = of_kind (no_details, some err_not_subnet) create_subnet

  unfoldable pub update : M (Option Subnet) W Detailed
  unfolding update_subnet
  update = of_kind (no_details, some err_not_subnet) update_subnet

  unfoldable pub delete : M (Option Subnet) W (Option Err)
  unfolding delete_subnet
  delete = of_kind (some err_not_subnet) delete_subnet
