-- ===== src/Storage/Convert/RoundTrip.antt =====
-- An account that has what a creation asked for reads back as the specification that was created.
use provider_azure.Prelude.{String, ◌≡◌, refl, ap, ◌≢◌, Option, none, some, List, arith}
use provider_azure.Go.Maps.{GoMap}
use provider_azure.Go.Panic.{Outcome, returns, panics, map_outcome}
use provider_azure.Vendor.{Vendor, Documented}
use provider_azure.Vendor.Standard.{standard, Documented-standard}
use provider_azure.Azure.Convert.RoundTrip.{map_values-map_values}
use provider_azure.Storage.Types.{StorageAccountSpecProperties, StorageAccountSpec}
use provider_azure.Storage.Sdk.{
  AzureEncryption, AccountProperties, AzureAccount, PropertiesParameters, AccountCreateParameters,
}
use provider_azure.Storage.Convert.FromSdk.{
  on_ptr, new_storage_account_spec_properties, new_storage_account_spec,
}
use provider_azure.Storage.Convert.ToSdk.{
  to_string_ptr, to_storage_custom_domain, to_storage_encryption, to_storage_identity,
  to_storage_network_rule_set, to_storage_sku, to_storage_account_create_properties,
  to_storage_account_create,
}
use provider_azure.Storage.Convert.Parts.{
  IsNormalSku, IsNormalProperties, string-to_string_ptr, identity_back, sku_back,
  custom_domain_back, encryption_back, network_rule_set_back,
}

-- The part of an account's properties that a creation can ask for.
abbrev pub as_parameters : AccountProperties → PropertiesParameters
as_parameters p = record {
  access_tier = p.access_tier;
  custom_domain = p.custom_domain;
  enable_https_traffic_only = p.enable_https_traffic_only;
  encryption = p.encryption;
  network_rule_set = p.network_rule_set;
}

-- That an account has what a creation asked for.
pub record Stores (p : AccountCreateParameters) (a : AzureAccount) : Type 0 where
  pub identity : a.identity ≡ p.identity
  pub kind : a.kind ≡ p.kind
  pub location : a.location ≡ p.location
  pub sku : a.sku ≡ p.sku
  pub tags : a.tags ≡ p.tags
  pub properties : on_ptr as_parameters a.properties ≡ p.properties

spec_properties_back :
    (p : Option StorageAccountSpecProperties) (q : Option PropertiesParameters)
    (az : Option AccountProperties)
    → to_storage_account_create_properties ⦃v = standard⦄ p ≡ returns q
    → IsNormalProperties p
    → on_ptr as_parameters az ≡ q
    → new_storage_account_spec_properties ⦃v = standard⦄ az ≡ p
unfolding to_storage_account_create_properties new_storage_account_spec_properties
spec_properties_back none q none h n e = refl
spec_properties_back none q (some a) h n e = cc
spec_properties_back (some p) q az h n e =
    go (to_storage_encryption ⦃v = standard⦄ p.encryption) az refl h e
  where
    go :
        (o : Outcome (Option AzureEncryption)) (az : Option AccountProperties)
        → to_storage_encryption ⦃v = standard⦄ p.encryption ≡ o
        → map_outcome
            (λ encryption. some (record {
              access_tier = p.access_tier;
              custom_domain = to_storage_custom_domain ⦃v = standard⦄ p.custom_domain;
              enable_https_traffic_only = some p.enable_https_traffic_only;
              encryption = encryption;
              network_rule_set = to_storage_network_rule_set p.network_rule_set;
            }))
            o
          ≡ returns q
        → on_ptr as_parameters az ≡ q
        → new_storage_account_spec_properties ⦃v = standard⦄ az ≡ some p
    go panics az r h e = cc
    go (returns c) none r h e = cc
    go (returns c) (some a) r h e = ground (
      arith,
      custom_domain_back p.custom_domain,
      encryption_back p.encryption c r,
      network_rule_set_back p.network_rule_set n,
    )

spec_back :
    (s : StorageAccountSpec) (p : AccountCreateParameters) (a : AzureAccount)
    → to_storage_account_create ⦃v = standard⦄ (some s) ≡ returns p
    → s.tags ≢ none
    → IsNormalSku s.sku
    → IsNormalProperties s.properties
    → Stores p a
    → new_storage_account_spec ⦃v = standard⦄ (some a) ≡ some s
unfolding to_storage_account_create new_storage_account_spec
spec_back s p a h t k n r =
    go (to_storage_account_create_properties ⦃v = standard⦄ s.properties) s.tags refl refl h
  where
    tags_back : (m : GoMap String) → m ≢ none → standard.string_map (standard.string_map_ptr m) ≡ m
    tags_back none n = absurd (n refl)
    tags_back (some l) n =
        ap (λ (l : List (String × String)). some l) (map_values-map_values _ _ (λ s. refl) l)

    go :
        (o : Outcome (Option PropertiesParameters)) (m : GoMap String)
        → to_storage_account_create_properties ⦃v = standard⦄ s.properties ≡ o
        → s.tags ≡ m
        → map_outcome
            (λ properties. record {
              kind = s.kind;
              location = to_string_ptr s.location;
              sku = to_storage_sku ⦃v = standard⦄ s.sku;
              tags = standard.string_map_ptr s.tags;
              properties = properties;
              identity = to_storage_identity ⦃v = standard⦄ s.identity;
            })
            o
          ≡ returns p
        → new_storage_account_spec ⦃v = standard⦄ (some a) ≡ some s
    go panics m e u h = cc
    go (returns q) m e u h = ground (
      arith,
      identity_back s.identity,
      string-to_string_ptr s.location,
      sku_back s.sku k,
      spec_properties_back s.properties q a.properties e n,
      tags_back s.tags t,
      r.identity,
      r.kind,
      r.location,
      r.sku,
      r.tags,
      r.properties,
    )

module _ ⦃v : Vendor⦄ (d : Documented v) where
  -- For a specification with tags, with no slice that is empty but not nil, and which can be
  -- converted at all: an account that has what ToStorageAccountCreate asks for reads back, by
  -- NewStorageAccountSpec, as that specification.
  pub new_storage_account_spec-to_storage_account_create :
      (s : StorageAccountSpec) (p : AccountCreateParameters) (a : AzureAccount)
      → to_storage_account_create (some s) ≡ returns p
      → s.tags ≢ none
      → IsNormalSku s.sku
      → IsNormalProperties s.properties
      → Stores p a
      → new_storage_account_spec (some a) ≡ some s
  new_storage_account_spec-to_storage_account_create = rw (Documented-standard d) spec_back
