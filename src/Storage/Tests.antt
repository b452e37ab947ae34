-- ===== src/Storage/Tests.antt =====
-- A storage account over a concrete Azure: the world counts the calls.
use provider_azure.Prelude.{◌≡◌, refl, ◌≢◌, ◌↔◌, true, false, none, some, [], ◌∷◌, arith, ptr_eq}
use provider_azure.Go.Panic.{returns, panics}
use provider_azure.Vendor.Standard.{standard, standard-Documented}
use provider_azure.Storage.Types.{Encryption, StorageAccountSpecProperties, StorageAccountSpec}
use provider_azure.Storage.Sdk.{
  AccountProperties, AzureAccount, PropertiesParameters, AccountCreateParameters,
  AccountUpdateParameters,
}
use provider_azure.Storage.Convert.FromSdk.{new_storage_account_spec}
use provider_azure.Storage.Convert.ToSdk.{
  to_string_ptr, to_storage_identity, to_storage_sku, to_storage_custom_domain,
  to_storage_encryption, to_storage_network_rule_set, to_storage_account_create_properties,
  to_storage_account_update_properties, to_storage_account_create, to_storage_account_update,
}
use provider_azure.Storage.Convert.RoundTrip.{
  Stores, new_storage_account_spec-to_storage_account_create,
}
use provider_azure.Storage.Convert.Panics.{to_storage_account_create-panics_iff}
use provider_azure.Storage.Convert.Update.{new_storage_account_spec-no_tags}
use provider_azure.Storage.DeepEqual.{spec_eq}

abbrev properties : StorageAccountSpecProperties
properties = record {
  access_tier = "Hot";
  custom_domain = none;
  enable_https_traffic_only = true;
  encryption = some (record {
    services = some (record { blob = true; file = false });
    key_source = "Microsoft.Storage";
    key_vault_properties = none;
  });
  network_rule_set = none;
}

abbrev pub spec : StorageAccountSpec
spec = record {
  identity = none;
  kind = "StorageV2";
  location = "west";
  sku = none;
  properties = some properties;
  tags = some (("team", "a") ∷ []);
}

abbrev parameters : PropertiesParameters
parameters = record {
  access_tier = "Hot";
  custom_domain = none;
  enable_https_traffic_only = some true;
  encryption = some (record {
    services = some (record {
      blob = some (record { enabled = some true });
      file = some (record { enabled = some false });
    });
    key_source = "Microsoft.Storage";
    key_vault_properties = none;
  });
  network_rule_set = none;
}

abbrev pub creation : AccountCreateParameters
creation = record {
  kind = "StorageV2";
  location = some "west";
  sku = none;
  tags = some (("team", some "a") ∷ []);
  properties = some parameters;
  identity = none;
}

abbrev change : AccountUpdateParameters
change = record {
  properties = some parameters;
  identity = none;
  sku = none;
  tags = some (("team", some "a") ∷ []);
}

-- The account after its creation, or after the update.
abbrev pub provisioned : AccountProperties
provisioned = record {
  access_tier = "Hot";
  custom_domain = none;
  enable_https_traffic_only = some true;
  encryption = parameters.encryption;
  network_rule_set = none;
  creation_time = none;
  last_geo_failover_time = none;
  primary_endpoints = none;
  primary_location = some "west";
  provisioning_state = "Succeeded";
  secondary_endpoints = none;
  secondary_location = none;
  status_of_primary = "available";
  status_of_secondary = "";
}

abbrev pub account : AzureAccount
account = record {
  id = none;
  name = some "acct";
  type = none;
  identity = none;
  kind = "StorageV2";
  location = some "west";
  sku = none;
  properties = some provisioned;
  tags = some (("team", some "a") ∷ []);
}

pub creation_of_spec : to_storage_account_create ⦃v = standard⦄ (some spec) ≡ returns creation
unfolding to_storage_account_create to_storage_account_create_properties to_string_ptr
    to_storage_identity to_storage_sku to_storage_custom_domain to_storage_encryption
    to_storage_network_rule_set
creation_of_spec = refl

change_of_spec : to_storage_account_update ⦃v = standard⦄ (some spec) ≡ returns change
unfolding to_storage_account_update to_storage_account_update_properties to_storage_identity
    to_storage_sku to_storage_custom_domain to_storage_encryption to_storage_network_rule_set
change_of_spec = refl

location_ptr : some "west" ≡ to_string_ptr "west"
unfolding to_string_ptr
location_ptr = refl

pub some_ne_none : {A : Type 0} (a : A) → some a ≢ none
some_ne_none a h = ground arith

pub account-Stores : Stores creation account
account-Stores = record {
  identity = refl;
  kind = refl;
  location = refl;
  sku = refl;
  tags = refl;
  properties = refl;
}

new_storage_account_spec-to_storage_account_create_example :
    new_storage_account_spec ⦃v = standard⦄ (some account) ≡ some spec
new_storage_account_spec-to_storage_account_create_example =
    new_storage_account_spec-to_storage_account_create ⦃v = standard⦄ standard-Documented spec
      creation account creation_of_spec (some_ne_none _) tt tt account-Stores

new_storage_account_spec-no_tags_example :
    ptr_eq spec_eq
      (new_storage_account_spec ⦃v = standard⦄ (some (record account { tags = none })))
      (some (record spec { tags = none }))
    ≡ false
new_storage_account_spec-no_tags_example =
    new_storage_account_spec-no_tags ⦃v = standard⦄ standard-Documented
      (record spec { tags = none }) (some (record account { tags = none })) refl

-- Encryption settings that name a key source and no services.
abbrev unnamed : Encryption
unnamed = record { services = none; key_source = "Microsoft.Storage"; key_vault_properties = none }

abbrev unnamed_spec : StorageAccountSpec
unnamed_spec = record spec { properties = some (record properties { encryption = some unnamed }) }

to_storage_account_create-panics_iff_example :
    (to_storage_account_create ⦃v = standard⦄ (some unnamed_spec) ≡ panics) ↔ (
      (p : StorageAccountSpecProperties) × (e : Encryption) × (unnamed_spec.properties ≡ some p)
      × (p.encryption ≡ some e)
      × (e.services ≡ none))
to_storage_account_create-panics_iff_example =
    to_storage_account_create-panics_iff ⦃v = standard⦄ unnamed_spec

create_panics : to_storage_account_create ⦃v = standard⦄ (some unnamed_spec) ≡ panics
create_panics =
    to_storage_account_create-panics_iff_example.1
      (record properties { encryption = some unnamed }, unnamed, refl, refl, refl)
