-- ===== src/Storage/Sdk.antt =====
-- The types of the Azure SDK's package storage that the code converts from and to. A `*[]T` is nil or
-- a list: a pointer to a nil slice is taken as one to an empty slice.
use provider_azure.Prelude.{String, Bool, Option, List}
use provider_azure.Go.Maps.{GoMap}

pub record AzureCustomDomain : Type 0 where
  pub name : Option String
  pub use_sub_domain_name : Option Bool

-- `EncryptionService`, of which the code uses one field.
pub record EncryptionService : Type 0 where
  pub enabled : Option Bool

pub record EncryptionServices : Type 0 where
  pub blob : Option EncryptionService
  pub file : Option EncryptionService

pub record AzureKeyVaultProperties : Type 0 where
  pub key_name : Option String
  pub key_version : Option String
  pub key_vault_uri : Option String

pub record AzureEncryption : Type 0 where
  pub services : Option EncryptionServices
  pub key_source : String
  pub key_vault_properties : Option AzureKeyVaultProperties

pub record AzureEndpoints : Type 0 where
  pub blob : Option String
  pub queue : Option String
  pub table : Option String
  pub file : Option String

pub record AzureIdentity : Type 0 where
  pub principal_id : Option String
  pub tenant_id : Option String
  pub type : Option String

pub record AzureIpRule : Type 0 where
  pub ip_address_or_range : Option String
  pub action : String

pub record AzureVirtualNetworkRule : Type 0 where
  pub virtual_network_resource_id : Option String
  pub action : String

pub record AzureNetworkRuleSet : Type 0 where
  pub bypass : String
  pub virtual_network_rules : Option (List AzureVirtualNetworkRule)
  pub ip_rules : Option (List AzureIpRule)
  pub default_action : String

pub record AzureSkuCapability : Type 0 where
  pub name : Option String
  pub value : Option String

pub record AzureSku : Type 0 where
  pub capabilities : Option (List AzureSkuCapability)
  pub kind : String
  pub locations : Option (List String)
  pub name : String
  pub resource_type : Option String
  pub tier : String

pub record AccountProperties : Type 0 where
  pub access_tier : String
  pub custom_domain : Option AzureCustomDomain
  pub enable_https_traffic_only : Option Bool
  pub encryption : Option AzureEncryption
  pub network_rule_set : Option AzureNetworkRuleSet
  pub creation_time : Option String
  pub last_geo_failover_time : Option String
  pub primary_endpoints : Option AzureEndpoints
  pub primary_location : Option String
  pub provisioning_state : String
  pub secondary_endpoints : Option AzureEndpoints
  pub secondary_location : Option String
  pub status_of_primary : String
  pub status_of_secondary : String

-- `storage.Account`
pub record AzureAccount : Type 0 where
  pub id : Option String
  pub name : Option String
  pub type : Option String
  pub identity : Option AzureIdentity
  pub kind : String
  pub location : Option String
  pub sku : Option AzureSku
  pub properties : Option AccountProperties
  pub tags : GoMap (Option String)

-- `AccountPropertiesCreateParameters` and `AccountPropertiesUpdateParameters` have the same fields.
pub record PropertiesParameters : Type 0 where
  pub access_tier : String
  pub custom_domain : Option AzureCustomDomain
  pub enable_https_traffic_only : Option Bool
  pub encryption : Option AzureEncryption
  pub network_rule_set : Option AzureNetworkRuleSet

pub record AccountCreateParameters : Type 0 where
  pub kind : String
  pub location : Option String
  pub sku : Option AzureSku
  pub tags : GoMap (Option String)
  pub properties : Option PropertiesParameters
  pub identity : Option AzureIdentity

pub record AccountUpdateParameters : Type 0 where
  pub properties : Option PropertiesParameters
  pub identity : Option AzureIdentity
  pub sku : Option AzureSku
  pub tags : GoMap (Option String)
