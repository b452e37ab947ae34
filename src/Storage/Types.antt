-- ===== src/Storage/Types.antt =====
-- apis/storage/v1alpha3/account.go: the types of the API. The enumerations of the SDK are string
-- types and stay strings; times are kept as their text.
use provider_azure.Prelude.{String, Bool, Option}
use provider_azure.Go.Maps.{GoMap, Slice}

pub record CustomDomain : Type 0 where
  pub name : String
  pub use_sub_domain_name : Bool

pub record EnabledEncryptionServices : Type 0 where
  pub blob : Bool
  pub file : Bool

pub record KeyVaultProperties : Type 0 where
  pub key_name : String
  pub key_version : String
  pub key_vault_uri : String

pub record Encryption : Type 0 where
  pub services : Option EnabledEncryptionServices
  pub key_source : String
  pub key_vault_properties : Option KeyVaultProperties

pub record Endpoints : Type 0 where
  pub blob : String
  pub queue : String
  pub table : String
  pub file : String

pub record Identity : Type 0 where
  pub principal_id : String
  pub tenant_id : String
  pub type : String

pub record IpRule : Type 0 where
  pub ip_address_or_range : String
  pub action : String

pub record VirtualNetworkRule : Type 0 where
  pub virtual_network_resource_id : String
  pub action : String

pub record NetworkRuleSet : Type 0 where
  pub bypass : String
  pub virtual_network_rules : Slice VirtualNetworkRule
  pub ip_rules : Slice IpRule
  pub default_action : String

pub record SkuCapability : Type 0 where
  pub name : String
  pub value : String

pub record Sku : Type 0 where
  pub capabilities : Slice SkuCapability
  pub kind : String
  pub locations : Slice String
  pub name : String
  pub resource_type : String
  pub tier : String

pub record StorageAccountSpecProperties : Type 0 where
  pub access_tier : String
  pub custom_domain : Option CustomDomain
  pub enable_https_traffic_only : Bool
  pub encryption : Option Encryption
  pub network_rule_set : Option NetworkRuleSet

pub record StorageAccountSpec : Type 0 where
  pub identity : Option Identity
  pub kind : String
  pub location : String
  pub sku : Option Sku
  pub properties : Option StorageAccountSpecProperties
  pub tags : GoMap String

pub record StorageAccountStatusProperties : Type 0 where
  pub creation_time : Option String
  pub last_geo_failover_time : Option String
  pub primary_endpoints : Option Endpoints
  pub primary_location : String
  pub provisioning_state : String
  pub secondary_endpoints : Option Endpoints
  pub secondary_location : String
  pub status_of_primary : String
  pub status_of_secondary : String

pub record StorageAccountStatus : Type 0 where
  pub id : String
  pub name : String
  pub type : String
  pub properties : Option StorageAccountStatusProperties
