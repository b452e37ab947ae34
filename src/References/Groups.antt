-- ===== src/References/Groups.antt =====
-- The referencers.go of apis/cache/v1beta1, apis/network/v1alpha3, apis/dns/v1alpha1 and
-- apis/compute/v1alpha3.
use provider_azure.Prelude.{Option, none}
use provider_azure.Go.Errors.{Err}
use provider_azure.Go.Effect.{M, pure}
use provider_azure.Vendor.{Vendor}
use provider_azure.References.{
  Referenced, resource_group, virtual_network, subnet, dns_zone, external_name, subnet_id, Resolver,
}
use provider_azure.References.Resolve.{Field, resolve}
use provider_azure.References.Database.{GroupReference, resolve_group}

pub record SubnetReferences : Type 0 where
  pub resource_group_name : Referenced
  pub virtual_network_name : Referenced

pub record ClusterReferences : Type 0 where
  pub resource_group_name : Referenced
  pub vnet_subnet_id : Referenced

pub record RecordSetReferences : Type 0 where
  pub resource_group_name : Referenced
  pub zone_name : Referenced

abbrev subnet_group : Field SubnetReferences
subnet_group = record {
  path = "spec.resourceGroupName";
  get = λ r. r.resource_group_name;
  set = λ f r. record r { resource_group_name = f };
}

abbrev subnet_network : Field SubnetReferences
subnet_network = record {
  path = "spec.virtualNetworkName";
  get = λ r. r.virtual_network_name;
  set = λ f r. record r { virtual_network_name = f };
}

abbrev cluster_group : Field ClusterReferences
cluster_group = record {
  path = "spec.resourceGroupName";
  get = λ r. r.resource_group_name;
  set = λ f r. record r { resource_group_name = f };
}

abbrev cluster_subnet : Field ClusterReferences
cluster_subnet = record {
  path = "spec.vnetSubnetID";
  get = λ r. r.vnet_subnet_id;
  set = λ f r. record r { vnet_subnet_id = f };
}

abbrev record_set_group : Field RecordSetReferences
record_set_group = record {
  path = "spec.forProvider.resourceGroupName";
  get = λ r. r.resource_group_name;
  set = λ f r. record r { resource_group_name = f };
}

abbrev record_set_zone : Field RecordSetReferences
record_set_zone = record {
  path = "spec.forProvider.zoneName";
  get = λ r. r.zone_name;
  set = λ f r. record r { zone_name = f };
}

module _ {W : Type 0} (resolver : Resolver W) ⦃v : Vendor⦄ where
  unfoldable pub resolve_redis : M GroupReference W (Option Err)
  resolve_redis = resolve_group resolver "spec.forProvider.resourceGroupName"

  unfoldable pub resolve_virtual_network : M GroupReference W (Option Err)
  resolve_virtual_network = resolve_group resolver "spec.resourceGroupName"

  unfoldable pub resolve_public_ip_address : M GroupReference W (Option Err)
  resolve_public_ip_address = resolve_group resolver "spec.forProvider.resourceGroupName"

  unfoldable pub resolve_zone : M GroupReference W (Option Err)
  resolve_zone = resolve_group resolver "spec.forProvider.resourceGroupName"

  unfoldable pub resolve_subnet : M SubnetReferences W (Option Err)
  resolve_subnet =
      resolve resolver subnet_group resource_group external_name
        (resolve resolver subnet_network virtual_network external_name (pure none))

  unfoldable pub resolve_cluster : M ClusterReferences W (Option Err)
  resolve_cluster =
      resolve resolver cluster_group resource_group external_name
        (resolve resolver cluster_subnet subnet subnet_id (pure none))

  unfoldable pub resolve_record_set : M RecordSetReferences W (Option Err)
  resolve_record_set =
      resolve resolver record_set_group resource_group external_name
        (resolve resolver record_set_zone dns_zone external_name (pure none))
