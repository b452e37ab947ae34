-- ===== src/KeyVault.antt =====
-- Key vault secrets: apis/keyvault/v1alpha1/keyvault_secret_types.go, and the SDK's SecretBundle
-- without its HTTP response. A time, of metav1 or of the SDK, is the instant that it stands for, by
-- which the code compares times.
pub mod Params
pub mod Controller
pub mod Tags
pub mod InSync
pub mod Tests
use provider_azure.Prelude.{ℕ, String, Bool, Option}
use provider_azure.Go.Maps.{GoMap}
use provider_azure.Vendor.{Conditions}

abbrev pub Instant : Type 0
Instant = ℕ

pub record AttributesParameters : Type 0 where
  pub enabled : Option Bool
  pub not_before_date : Option Instant
  pub expiration_date : Option Instant

-- `xpv1.SecretKeySelector`
pub record SecretKeySelector : Type 0 where
  pub name : String
  pub namespace : String
  pub key : String

pub record SecretParameters : Type 0 where
  pub vault_base_url : String
  pub name : String
  pub value : SecretKeySelector
  pub content_type : Option String
  pub secret_attributes : Option AttributesParameters
  pub tags : GoMap String

pub record AttributesObservation : Type 0 where
  pub recovery_level : String
  pub created : Option Instant
  pub updated : Option Instant

pub record SecretObservation : Type 0 where
  pub id : String
  pub attributes : Option AttributesObservation
  pub kid : Option String
  pub managed : Option Bool

pub record VaultSecret : Type 0 where
  pub for_provider : SecretParameters
  pub at_provider : SecretObservation
  pub conditions : Conditions

-- `keyvault.SecretAttributes`
pub record AzureAttributes : Type 0 where
  pub recovery_level : String
  pub enabled : Option Bool
  pub not_before : Option Instant
  pub expires : Option Instant
  pub created : Option Instant
  pub updated : Option Instant

-- `keyvault.SecretBundle`
pub record SecretBundle : Type 0 where
  pub id : Option String
  pub value : Option String
  pub content_type : Option String
  pub attributes : Option AzureAttributes
  pub tags : GoMap (Option String)
  pub kid : Option String
  pub managed : Option Bool

-- `keyvault.SecretSetParameters`
pub record SetParameters : Type 0 where
  pub value : Option String
  pub tags : GoMap (Option String)
  pub content_type : Option String
  pub secret_attributes : Option AzureAttributes
