-- ===== src/Storage/Convert/FromSdk.antt =====
-- apis/storage/v1alpha3/account.go: the conversions from the SDK's types to the API's.
use provider_azure.Prelude.{Bool, false, Option, none, some, map}
use provider_azure.Vendor.{Vendor}
use provider_azure.Storage.Types.{
  CustomDomain, EnabledEncryptionServices, KeyVaultProperties, Encryption, Endpoints, Identity,
  IpRule, VirtualNetworkRule, NetworkRuleSet, SkuCapability, Sku, StorageAccountSpecProperties,
  StorageAccountSpec, StorageAccountStatusProperties, StorageAccountStatus,
}
use provider_azure.Storage.Sdk.{
  AzureCustomDomain, EncryptionService, EncryptionServices, AzureKeyVaultProperties,
  AzureEncryption, AzureEndpoints, AzureIdentity, AzureIpRule, AzureVirtualNetworkRule,
  AzureNetworkRuleSet, AzureSkuCapability, AzureSku, AccountProperties, AzureAccount,
}

-- `if p == nil { return nil }; return &f(*p)`
abbrev pub on_ptr : {A B : Type 0} → (A → B) → Option A → Option B
on_ptr f none = none
on_ptr f (some a) = some (f a)

-- The closure of newEnabledEncryptionServices.
abbrev service_enabled : Option EncryptionService → Bool
service_enabled none = false
service_enabled (some s) = elim s.enabled [ none ↦ false | some b ↦ b ]

unfoldable pub new_enabled_encryption_services :
    Option EncryptionServices → Option EnabledEncryptionServices
new_enabled_encryption_services none = none
new_enabled_encryption_services (some s) =
    some (record { blob = service_enabled s.blob; file = service_enabled s.file })

module _ ⦃v : Vendor⦄ where
  unfoldable pub new_custom_domain : Option AzureCustomDomain → Option CustomDomain
  new_custom_domain d =
      on_ptr
        (λ d. record { name = v.string d.name; use_sub_domain_name = v.bool d.use_sub_domain_name })
        d

  unfoldable pub new_key_vault_properties :
      Option AzureKeyVaultProperties → Option KeyVaultProperties
  new_key_vault_properties p =
      on_ptr
        (λ p. record {
          key_name = v.string p.key_name;
          key_version = v.string p.key_version;
          key_vault_uri = v.string p.key_vault_uri;
        })
        p

  unfoldable pub new_encryption : Option AzureEncryption → Option Encryption
  unfolding new_enabled_encryption_services new_key_vault_properties
  new_encryption s =
      on_ptr
        (λ s. record {
          services = new_enabled_encryption_services s.services;
          key_source = s.key_source;
          key_vault_properties = new_key_vault_properties s.key_vault_properties;
        })
        s

  unfoldable pub new_endpoints : Option AzureEndpoints → Option Endpoints
  new_endpoints ep =
      on_ptr
        (λ ep. record {
          blob = v.string ep.blob;
          queue = v.string ep.queue;
          table = v.string ep.table;
          file = v.string ep.file;
        })
        ep

  unfoldable pub new_identity : Option AzureIdentity → Option Identity
  new_identity s =
      on_ptr
        (λ s. record {
          principal_id = v.string s.principal_id;
          tenant_id = v.string s.tenant_id;
          type = v.string s.type;
        })
        s

  unfoldable pub new_ip_rule : AzureIpRule → IpRule
  new_ip_rule r = record { ip_address_or_range = v.string r.ip_address_or_range; action = r.action }

  unfoldable pub new_virtual_network_rule : AzureVirtualNetworkRule → VirtualNetworkRule
  new_virtual_network_rule s = record {
    virtual_network_resource_id = v.string s.virtual_network_resource_id;
    action = s.action;
  }

  unfoldable pub new_sku_capability : AzureSkuCapability → SkuCapability
  new_sku_capability s = record { name = v.string s.name; value = v.string s.value }

  unfoldable pub new_network_rule_set : Option AzureNetworkRuleSet → Option NetworkRuleSet
  unfolding new_ip_rule new_virtual_network_rule
  new_network_rule_set s =
      on_ptr
        (λ s. record {
          bypass = s.bypass;
          virtual_network_rules = on_ptr (map new_virtual_network_rule) s.virtual_network_rules;
          ip_rules = on_ptr (map new_ip_rule) s.ip_rules;
          default_action = s.default_action;
        })
        s

  unfoldable pub new_sku : Option AzureSku → Option Sku
  unfolding new_sku_capability
  new_sku s =
      on_ptr
        (λ s. record {
          capabilities = on_ptr (map new_sku_capability) s.capabilities;
          kind = s.kind;
          locations = v.string_slice s.locations;
          name = s.name;
          resource_type = v.string s.resource_type;
          tier = s.tier;
        })
        s

  unfoldable pub new_storage_account_spec_properties :
      Option AccountProperties → Option StorageAccountSpecProperties
  new_storage_account_spec_properties p =
      on_ptr
        (λ p. record {
          access_tier = p.access_tier;
          custom_domain = new_custom_domain p.custom_domain;
          enable_https_traffic_only = v.bool p.enable_https_traffic_only;
          encryption = new_encryption p.encryption;
          network_rule_set = new_network_rule_set p.network_rule_set;
        })
        p

  unfoldable pub new_storage_account_spec : Option AzureAccount → Option StorageAccountSpec
  new_storage_account_spec a =
      on_ptr
        (λ a. record {
          identity = new_identity a.identity;
          kind = a.kind;
          location = v.string a.location;
          sku = new_sku a.sku;
          properties = new_storage_account_spec_properties a.properties;
          tags = v.string_map a.tags;
        })
        a

  unfoldable pub new_storage_account_status_properties :
      Option AccountProperties → Option StorageAccountStatusProperties
  unfolding new_endpoints
  new_storage_account_status_properties s =
      on_ptr
        (λ s. record {
          creation_time = s.creation_time;
          last_geo_failover_time = s.last_geo_failover_time;
          primary_endpoints = new_endpoints s.primary_endpoints;
          primary_location = v.string s.primary_location;
          provisioning_state = s.provisioning_state;
          secondary_endpoints = new_endpoints s.secondary_endpoints;
          secondary_location = v.string s.secondary_location;
          status_of_primary = s.status_of_primary;
          status_of_secondary = s.status_of_secondary;
        })
        s

  unfoldable pub new_storage_account_status : Option AzureAccount → Option StorageAccountStatus
  unfolding new_storage_account_status_properties
  new_storage_account_status a =
      on_ptr
        (λ a. record {
          id = v.string a.id;
          name = v.string a.name;
          type = v.string a.type;
          properties = new_storage_account_status_properties a.properties;
        })
        a
