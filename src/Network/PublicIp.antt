-- ===== src/Network/PublicIp.antt =====
-- apis/network/v1alpha3/types.go: public IP addresses, without references and selectors; and the
-- fields of the SDK's PublicIPAddress. The properties in an answer of Azure, a pointer that the code
-- reads through without a test, are taken to be there.
pub mod Params
pub mod Controller
pub mod InSync
pub mod Tests
use provider_azure.Prelude.{ℕ, String, Option, List}
use provider_azure.Go.Maps.{GoMap, Slice}
use provider_azure.Vendor.{Conditions}
use provider_azure.Network.Tags.{IpTag}

pub record DnsSettings : Type 0 where
  pub domain_name_label : String
  pub reverse_fqdn : Option String

pub record Sku : Type 0 where
  pub name : String

pub record PublicIpAddressProperties : Type 0 where
  pub resource_group_name : String
  pub public_ip_allocation_method : String
  pub public_ip_address_version : String
  pub location : String
  pub sku : Option Sku
  pub public_ip_prefix_id : Option String
  pub dns_settings : Option DnsSettings
  pub tcp_idle_timeout_in_minutes : Option ℕ
  pub ip_tags : Slice IpTag
  pub tags : GoMap String

pub record IpConfiguration : Type 0 where
  pub private_ip_address : Option String
  pub private_ip_allocation_method : String
  pub provisioning_state : String

pub record DnsSettingsObservation : Type 0 where
  pub domain_name_label : Option String
  pub reverse_fqdn : Option String
  pub fqdn : Option String

pub record PublicIpAddressObservation : Type 0 where
  pub state : String
  pub message : String
  pub etag : String
  pub id : String
  pub address : String
  pub version : String
  pub dns_settings : Option DnsSettingsObservation
  pub ip_configuration : Option IpConfiguration

pub record PublicIpAddress : Type 0 where
  pub external_name : String
  pub for_provider : PublicIpAddressProperties
  pub at_provider : PublicIpAddressObservation
  pub conditions : Conditions

pub record AzureDnsSettings : Type 0 where
  pub domain_name_label : Option String
  pub fqdn : Option String
  pub reverse_fqdn : Option String

pub record SubResource : Type 0 where
  pub id : Option String

-- The part of a `networkmgmt.PublicIPAddress` that the code sends.
pub record AzureAddressParameters : Type 0 where
  pub sku : Option Sku
  pub public_ip_allocation_method : String
  pub public_ip_address_version : String
  pub dns_settings : Option AzureDnsSettings
  pub public_ip_prefix : Option SubResource
  pub idle_timeout_in_minutes : Option ℕ
  pub ip_tags : Option (List IpTag)
  pub location : Option String
  pub tags : GoMap (Option String)

pub record AzureIpConfigurationProperties : Type 0 where
  pub private_ip_address : Option String
  pub private_ip_allocation_method : String
  pub provisioning_state : Option String

-- An IP configuration has a pointer to its properties.
pub record AzureIpConfiguration : Type 0 where
  pub properties : Option AzureIpConfigurationProperties

-- A `networkmgmt.PublicIPAddress` in an answer.
pub record AzureAddress : Type 0 where
  pub parameters : AzureAddressParameters
  pub provisioning_state : Option String
  pub etag : Option String
  pub id : Option String
  pub ip_address : Option String
  pub ip_configuration : Option AzureIpConfiguration
