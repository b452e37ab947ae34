-- ===== src/Network/Params.antt =====
-- pkg/clients/network/network.go: parameters, update tests and statuses of virtual networks and
-- subnets.
use provider_azure.Prelude.{
  Bool, true, false, not, Option, some, List, [], ◌∷◌, map, ◌==◌, bool_eq, ptr_eq, list_eq,
  if◌then◌else◌,
}
use provider_azure.Go.Maps.{Slice, entries, map_eq}
use provider_azure.Vendor.{Vendor}
use provider_azure.Azure.Convert.{
  field_required, to_string_ptr, to_string_ptr_map, to_bool_ptr, to_string,
}
use provider_azure.Network.Types.{
  VirtualNetwork, ServiceEndpoint, Subnet, AddressSpace, AzureNetworkParameters, AzureNetwork,
  AzureEndpoint, AzureSubnetParameters, AzureSubnet,
}

-- `reflect.DeepEqual` on two pointers to address spaces.
abbrev pub address_space_eq : Option AddressSpace → Option AddressSpace → Bool
address_space_eq a b =
    ptr_eq
      (λ (x : AddressSpace) (y : AddressSpace).
        ptr_eq (ptr_eq (list_eq ◌==◌)) x.address_prefixes y.address_prefixes)
      a b

module _ ⦃v : Vendor⦄ where
  unfoldable pub new_virtual_network_parameters : VirtualNetwork → AzureNetworkParameters
  unfolding to_string_ptr to_string_ptr_map to_bool_ptr
  new_virtual_network_parameters n = record {
    location = to_string_ptr n.location [];
    tags = to_string_ptr_map n.tags;
    enable_ddos_protection = to_bool_ptr n.enable_ddos_protection (field_required ∷ []);
    enable_vm_protection = to_bool_ptr n.enable_vm_protection [];
    address_space = some (record { address_prefixes = some n.address_prefixes });
  }

  unfoldable pub virtual_network_needs_update : VirtualNetwork → AzureNetwork → Bool
  virtual_network_needs_update kube az =
      let up = new_virtual_network_parameters kube in
      if not (address_space_eq up.address_space az.parameters.address_space)
      then true
      else if not (ptr_eq bool_eq up.enable_ddos_protection az.parameters.enable_ddos_protection)
      then true
      else if not (ptr_eq bool_eq up.enable_vm_protection az.parameters.enable_vm_protection)
      then true
      else if not (map_eq (ptr_eq ◌==◌) up.tags az.parameters.tags)
      then true
      else false

  unfoldable pub update_virtual_network_status_from_azure :
      VirtualNetwork → AzureNetwork → VirtualNetwork
  unfolding to_string
  update_virtual_network_status_from_azure n az = record n {
    status = record {
      state = to_string az.provisioning_state;
      id = to_string az.id;
      etag = to_string az.etag;
      resource_guid = to_string az.resource_guid;
      type = to_string az.type;
    };
  }

  -- An empty slice, never nil, where there are no endpoints.
  unfoldable pub new_service_endpoints : Slice ServiceEndpoint → Option (List AzureEndpoint)
  unfolding to_string_ptr
  new_service_endpoints e =
      some
        (map (λ (x : ServiceEndpoint). record { service = to_string_ptr x.service [] }) (entries e))

  unfoldable pub new_subnet_parameters : Subnet → AzureSubnetParameters
  unfolding to_string_ptr new_service_endpoints
  new_subnet_parameters s = record {
    address_prefix = to_string_ptr s.address_prefix [];
    service_endpoints = new_service_endpoints s.service_endpoints;
  }

  unfoldable pub subnet_needs_update : Subnet → AzureSubnet → Bool
  unfolding new_subnet_parameters
  subnet_needs_update kube az =
      let up = new_subnet_parameters kube in
      not (ptr_eq ◌==◌ up.address_prefix az.parameters.address_prefix)

  unfoldable pub update_subnet_status_from_azure : Subnet → AzureSubnet → Subnet
  unfolding to_string
  update_subnet_status_from_azure s az = record s {
    status = record {
      state = to_string az.provisioning_state;
      etag = to_string az.etag;
      id = to_string az.id;
      purpose = to_string az.purpose;
    };
  }
