-- ===== src/Storage/Convert/Update.antt =====
-- What an update sends, and when the specification compares as in sync.
use provider_azure.Prelude.{◌≡◌, refl, ◌≢◌, false, Option, none, some, arith, ptr_eq}
use provider_azure.Go.Panic.{Outcome, returns, panics, map_outcome}
use provider_azure.Go.Maps.{map_eq}
use provider_azure.Vendor.{Vendor, Documented}
use provider_azure.Storage.Types.{StorageAccountSpec, StorageAccountSpecProperties}
use provider_azure.Storage.Sdk.{
  AzureAccount, AccountCreateParameters, AccountUpdateParameters, PropertiesParameters,
}
use provider_azure.Storage.Convert.FromSdk.{new_storage_account_spec}
use provider_azure.Storage.Convert.ToSdk.{
  to_string_ptr, to_storage_identity, to_storage_sku, to_storage_account_create,
  to_storage_account_update, to_storage_account_create_properties,
  to_storage_account_update_properties,
}
use provider_azure.Storage.Convert.Parts.{IsNormalSku, IsNormalProperties}
use provider_azure.Storage.Convert.RoundTrip.{
  Stores, new_storage_account_spec-to_storage_account_create,
}
use provider_azure.Storage.DeepEqual.{spec_eq}

-- The creation of an account that has an update's fields.
abbrev pub creation_like : AzureAccount → AccountUpdateParameters → AccountCreateParameters
creation_like a q = record {
  kind = a.kind;
  location = a.location;
  sku = q.sku;
  tags = q.tags;
  properties = q.properties;
  identity = q.identity;
}

module _ ⦃v : Vendor⦄ where
  update_properties-create :
      (p : Option StorageAccountSpecProperties)
      → to_storage_account_update_properties p ≡ to_storage_account_create_properties p
  unfolding to_storage_account_create_properties to_storage_account_update_properties
  update_properties-create none = refl
  update_properties-create (some p) = refl

  create-update :
      (s : StorageAccountSpec) (q : AccountUpdateParameters) (a : AzureAccount)
      → to_storage_account_update (some s) ≡ returns q
      → a.kind ≡ s.kind
      → a.location ≡ to_string_ptr s.location
      → to_storage_account_create (some s) ≡ returns (creation_like a q)
  unfolding to_storage_account_create to_storage_account_update
  create-update s q a h k l = go (to_storage_account_update_properties s.properties) refl h
    where
      go :
          (o : Outcome (Option PropertiesParameters))
          → to_storage_account_update_properties s.properties ≡ o
          → map_outcome
              (λ properties. record {
                properties = properties;
                identity = to_storage_identity s.identity;
                sku = to_storage_sku s.sku;
                tags = v.string_map_ptr s.tags;
              })
              o
            ≡ returns q
          → to_storage_account_create (some s) ≡ returns (creation_like a q)
      go panics e h = cc
      go (returns p) e h = ground (arith, update_properties-create s.properties, e, h, k, l)

module _ ⦃v : Vendor⦄ (d : Documented v) where
  -- For a specification with tags, with no slice that is empty but not nil, and which can be
  -- converted at all: an account of its kind and location, which has what ToStorageAccountUpdate
  -- sends, reads back, by NewStorageAccountSpec, as that specification.
  pub new_storage_account_spec-to_storage_account_update :
      (s : StorageAccountSpec) (q : AccountUpdateParameters) (a : AzureAccount)
      → to_storage_account_update (some s) ≡ returns q
      → a.kind ≡ s.kind
      → a.location ≡ to_string_ptr s.location
      → s.tags ≢ none
      → IsNormalSku s.sku
      → IsNormalProperties s.properties
      → Stores (creation_like a q) a
      → new_storage_account_spec (some a) ≡ some s
  new_storage_account_spec-to_storage_account_update s q a h k l =
      new_storage_account_spec-to_storage_account_create d s _ a (create-update s q a h k l)

  -- A specification without tags never compares, by `reflect.DeepEqual`, as what NewStorageAccountSpec
  -- makes of an account, whatever the account.
  pub new_storage_account_spec-no_tags :
      (s : StorageAccountSpec) (a : Option AzureAccount)
      → s.tags ≡ none
      → ptr_eq spec_eq (new_storage_account_spec a) (some s) ≡ false
  unfolding new_storage_account_spec spec_eq map_eq
  new_storage_account_spec-no_tags s none h = refl
  new_storage_account_spec-no_tags s (some a) h = ground (arith, h, d.string_map_values a.tags)
