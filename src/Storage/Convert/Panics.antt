-- ===== src/Storage/Convert/Panics.antt =====
-- Which specifications the conversions to the SDK dereference a nil pointer on.
use provider_azure.Prelude.{◌≡◌, refl, Option, none, some, arith, ◌↔◌}
use provider_azure.Go.Panic.{Outcome, returns, panics, map_outcome}
use provider_azure.Vendor.{Vendor}
use provider_azure.Storage.Types.{Encryption, StorageAccountSpecProperties, StorageAccountSpec}
use provider_azure.Storage.Convert.ToSdk.{
  to_storage_encrypted_services, to_storage_encryption, to_storage_account_create_properties,
  to_storage_account_create,
}

map_outcome-panics :
    {A B : Type 0} (f : A → B) (o : Outcome A) → map_outcome f o ≡ panics → o ≡ panics
map_outcome-panics f panics h = refl
map_outcome-panics f (returns a) h = cc

module _ ⦃v : Vendor⦄ where
  to_storage_encryption-panics :
      (e : Encryption) → e.services ≡ none → to_storage_encryption (some e) ≡ panics
  unfolding to_storage_encryption to_storage_encrypted_services
  to_storage_encryption-panics e h = ground arith

  to_storage_encryption-unnamed :
      (e : Option Encryption)
      → to_storage_encryption e ≡ panics
      → (f : Encryption) × (e ≡ some f) × (f.services ≡ none)
  unfolding to_storage_encryption to_storage_encrypted_services
  to_storage_encryption-unnamed none h = cc
  to_storage_encryption-unnamed (some e) h = (e, refl, ground arith)

  create_properties-unnamed :
      (q : Option StorageAccountSpecProperties)
      → to_storage_account_create_properties q ≡ panics
      → (p : StorageAccountSpecProperties) × (e : Encryption) × (q ≡ some p)
        × (p.encryption ≡ some e)
        × (e.services ≡ none)
  unfolding to_storage_account_create_properties
  create_properties-unnamed none h = cc
  create_properties-unnamed (some p) h =
      let (e, a, b) = to_storage_encryption-unnamed p.encryption (map_outcome-panics _ _ h) in
      (p, e, refl, a, b)

module _ ⦃v : Vendor⦄ where
  -- ToStorageAccountCreate panics exactly on a specification with encryption settings that name no
  -- services.
  pub to_storage_account_create-panics_iff :
      (s : StorageAccountSpec)
      → (to_storage_account_create (some s) ≡ panics) ↔ (
          (p : StorageAccountSpecProperties) × (e : Encryption) × (s.properties ≡ some p)
          × (p.encryption ≡ some e)
          × (e.services ≡ none))
  unfolding to_storage_account_create to_storage_account_create_properties
  to_storage_account_create-panics_iff s = (
    λ h. create_properties-unnamed s.properties (map_outcome-panics _ _ h),
    λ (p, e, a, b, c). cc (to_storage_encryption-panics e c),
  )
