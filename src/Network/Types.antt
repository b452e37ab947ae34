-- ===== src/Network/Types.antt =====
-- apis/network/v1alpha3/types.go: virtual networks and subnets, without references and selectors; and
-- the fields of the SDK's package network that the code uses. The properties in an answer of Azure,
-- a pointer that the code reads through without a test, are taken to be there.
use provider_azure.Prelude.{String, Bool, Option, List}
use provider_azure.Go.Maps.{GoMap, Slice}
use provider_azure.Vendor.{Conditions}

pub record VirtualNetworkStatus : Type 0 where
  pub state : String
  pub id : String
  pub etag : String
  pub resource_guid : String
  pub type : String

pub record VirtualNetwork : Type 0 where
  pub external_name : String
  pub resource_group_name : String
  pub address_prefixes : Slice String
  pub enable_ddos_protection : Bool
  pub enable_vm_protection : Bool
  pub location : String
  pub tags : GoMap String
  pub status : VirtualNetworkStatus
  pub conditions : Conditions

pub record ServiceEndpoint : Type 0 where
  pub service : String
  pub locations : Slice String
  pub provisioning_state : String

pub record SubnetStatus : Type 0 where
  pub state : String
  pub etag : String
  pub id : String
  pub purpose : String

pub record Subnet : Type 0 where
  pub external_name : String
  pub resource_group_name : String
  pub virtual_network_name : String
  pub address_prefix : String
  pub service_endpoints : Slice ServiceEndpoint
  pub status : SubnetStatus
  pub conditions : Conditions

-- `networkmgmt.AddressSpace`, of which the field is a pointer to a slice.
pub record AddressSpace : Type 0 where
  pub address_prefixes : Option (Slice String)

-- The part of a `networkmgmt.VirtualNetwork` that the code sends.
pub record AzureNetworkParameters : Type 0 where
  pub location : Option String
  pub tags : GoMap (Option String)
  pub enable_ddos_protection : Option Bool
  pub enable_vm_protection : Option Bool
  pub address_space : Option AddressSpace

-- A `networkmgmt.VirtualNetwork` in an answer.
pub record AzureNetwork : Type 0 where
  pub parameters : AzureNetworkParameters
  pub provisioning_state : Option String
  pub id : Option String
  pub etag : Option String
  pub resource_guid : Option String
  pub type : Option String

-- `networkmgmt.ServiceEndpointPropertiesFormat`, of which the code uses one field.
pub record AzureEndpoint : Type 0 where
  pub service : Option String

pub record AzureSubnetParameters : Type 0 where
  pub address_prefix : Option String
  pub service_endpoints : Option (List AzureEndpoint)

pub record AzureSubnet : Type 0 where
  pub parameters : AzureSubnetParameters
  pub provisioning_state : Option String
  pub etag : Option String
  pub id : Option String
  pub purpose : Option String
