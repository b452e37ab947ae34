-- ===== src/Storage/Convert/ToSdk.antt =====
-- apis/storage/v1alpha3/account.go: the conversions from the API's types to the SDK's.
use provider_azure.Prelude.{String, Option, none, some, List, [], ◌∷◌, map, ◌==◌, if◌then◌else◌}
use provider_azure.Go.Maps.{Slice}
use provider_azure.Go.Panic.{Outcome, returns, panics, map_outcome}
use provider_azure.Vendor.{Vendor}
use provider_azure.Storage.Types.{
  CustomDomain, EnabledEncryptionServices, KeyVaultProperties, Encryption, Identity, IpRule,
  VirtualNetworkRule, NetworkRuleSet, SkuCapability, Sku, StorageAccountSpecProperties,
  StorageAccountSpec,
}
use provider_azure.Storage.Sdk.{
  AzureCustomDomain, EncryptionServices, AzureKeyVaultProperties, AzureEncryption, AzureIdentity,
  AzureIpRule, AzureVirtualNetworkRule, AzureNetworkRuleSet, AzureSkuCapability, AzureSku,
  PropertiesParameters, AccountCreateParameters, AccountUpdateParameters,
}
use provider_azure.Storage.Convert.FromSdk.{on_ptr}

unfoldable pub to_string_ptr : String → Option String
to_string_ptr s = if s == "" then none else some s

-- A nil pointer where the slice is empty, else a pointer to the converted elements.
abbrev pub ptr_if_nonempty : {A B : Type 0} → (A → B) → Slice A → Option (List B)
ptr_if_nonempty f none = none
ptr_if_nonempty f (some []) = none
ptr_if_nonempty f (some (x ∷ xs)) = some (f x ∷ map f xs)

module _ ⦃v : Vendor⦄ where
  unfoldable pub to_storage_custom_domain : Option CustomDomain → Option AzureCustomDomain
  unfolding to_string_ptr
  to_storage_custom_domain c =
      on_ptr
        (λ c. record {
          name = to_string_ptr c.name;
          use_sub_domain_name = v.bool_ptr c.use_sub_domain_name;
        })
        c

  -- It reads through its pointer without a test.
  unfoldable pub to_storage_encrypted_services :
      Option EnabledEncryptionServices → Outcome (Option EncryptionServices)
  to_storage_encrypted_services none = panics
  to_storage_encrypted_services (some s) = returns (
      some (record {
        blob = some (record { enabled = v.bool_ptr s.blob });
        file = some (record { enabled = v.bool_ptr s.file });
      }))

  unfoldable pub to_storage_key_vault_properties :
      Option KeyVaultProperties → Option AzureKeyVaultProperties
  unfolding to_string_ptr
  to_storage_key_vault_properties p =
      on_ptr
        (λ p. record {
          key_name = to_string_ptr p.key_name;
          key_version = to_string_ptr p.key_version;
          key_vault_uri = to_string_ptr p.key_vault_uri;
        })
        p

  unfoldable pub to_storage_encryption : Option Encryption → Outcome (Option AzureEncryption)
  unfolding to_storage_encrypted_services to_storage_key_vault_properties
  to_storage_encryption none = returns none
  to_storage_encryption (some e) =
      map_outcome
        (λ services. some (record {
          services = services;
          key_source = e.key_source;
          key_vault_properties = to_storage_key_vault_properties e.key_vault_properties;
        }))
        (to_storage_encrypted_services e.services)

  unfoldable pub to_storage_identity : Option Identity → Option AzureIdentity
  unfolding to_string_ptr
  to_storage_identity i =
      on_ptr
        (λ i. record {
          principal_id = to_string_ptr i.principal_id;
          tenant_id = to_string_ptr i.tenant_id;
          type = to_string_ptr i.type;
        })
        i

unfoldable pub to_storage_ip_rule : IpRule → AzureIpRule
unfolding to_string_ptr
to_storage_ip_rule r = record {
  ip_address_or_range = to_string_ptr r.ip_address_or_range;
  action = r.action;
}

unfoldable pub to_storage_virtual_network_rule : VirtualNetworkRule → AzureVirtualNetworkRule
unfolding to_string_ptr
to_storage_virtual_network_rule r = record {
  virtual_network_resource_id = to_string_ptr r.virtual_network_resource_id;
  action = r.action;
}

unfoldable pub to_storage_sku_capability : SkuCapability → AzureSkuCapability
unfolding to_string_ptr
to_storage_sku_capability s = record { name = to_string_ptr s.name; value = to_string_ptr s.value }

unfoldable pub to_storage_network_rule_set : Option NetworkRuleSet → Option AzureNetworkRuleSet
unfolding to_storage_ip_rule to_storage_virtual_network_rule
to_storage_network_rule_set n =
    on_ptr
      (λ n. record {
        bypass = n.bypass;
        virtual_network_rules =
            ptr_if_nonempty to_storage_virtual_network_rule n.virtual_network_rules;
        ip_rules = ptr_if_nonempty to_storage_ip_rule n.ip_rules;
        default_action = n.default_action;
      })
      n

module _ ⦃v : Vendor⦄ where
  -- A pointer to nil reads back as nil does.
  abbrev pointed : Option (Slice String) → Option (List String)
  pointed none = none
  pointed (some s) = s

  -- `if len(s.Locations) > 0 { locations = to.StringSlicePtr(s.Locations) }`
  abbrev pub locations_ptr : Slice String → Option (List String)
  locations_ptr none = none
  locations_ptr (some []) = none
  locations_ptr (some (x ∷ xs)) = pointed (v.string_slice_ptr (some (x ∷ xs)))

  unfoldable pub to_storage_sku : Option Sku → Option AzureSku
  unfolding to_string_ptr to_storage_sku_capability
  to_storage_sku s =
      on_ptr
        (λ s. record {
          capabilities = ptr_if_nonempty to_storage_sku_capability s.capabilities;
          kind = s.kind;
          locations = locations_ptr s.locations;
          name = s.name;
          resource_type = to_string_ptr s.resource_type;
          tier = s.tier;
        })
        s

  -- toStorageAccountCreateProperties, of the same body as toStorageAccountUpdateProperties.
  unfoldable pub to_storage_account_create_properties :
      Option StorageAccountSpecProperties → Outcome (Option PropertiesParameters)
  to_storage_account_create_properties none = returns none
  to_storage_account_create_properties (some s) =
      map_outcome
        (λ encryption. some (record {
          access_tier = s.access_tier;
          custom_domain = to_storage_custom_domain s.custom_domain;
          enable_https_traffic_only = v.bool_ptr s.enable_https_traffic_only;
          encryption = encryption;
          network_rule_set = to_storage_network_rule_set s.network_rule_set;
        }))
        (to_storage_encryption s.encryption)

  unfoldable pub to_storage_account_update_properties :
      Option StorageAccountSpecProperties → Outcome (Option PropertiesParameters)
  to_storage_account_update_properties none = returns none
  to_storage_account_update_properties (some s) =
      map_outcome
        (λ encryption. some (record {
          access_tier = s.access_tier;
          custom_domain = to_storage_custom_domain s.custom_domain;
          enable_https_traffic_only = v.bool_ptr s.enable_https_traffic_only;
          encryption = encryption;
          network_rule_set = to_storage_network_rule_set s.network_rule_set;
        }))
        (to_storage_encryption s.encryption)

  unfoldable pub to_storage_account_create :
      Option StorageAccountSpec → Outcome AccountCreateParameters
  to_storage_account_create none = returns (record {
    kind = "";
    location = none;
    sku = none;
    tags = none;
    properties = none;
    identity = none;
  })
  to_storage_account_create (some s) =
      map_outcome
        (λ properties. record {
          kind = s.kind;
          location = to_string_ptr s.location;
          sku = to_storage_sku s.sku;
          tags = v.string_map_ptr s.tags;
          properties = properties;
          identity = to_storage_identity s.identity;
        })
        (to_storage_account_create_properties s.properties)

  unfoldable pub to_storage_account_update :
      Option StorageAccountSpec → Outcome AccountUpdateParameters
  to_storage_account_update none =
      returns (record { properties = none; identity = none; sku = none; tags = none })
  to_storage_account_update (some s) =
      map_outcome
        (λ properties. record {
          properties = properties;
          identity = to_storage_identity s.identity;
          sku = to_storage_sku s.sku;
          tags = v.string_map_ptr s.tags;
        })
        (to_storage_account_update_properties s.properties)
