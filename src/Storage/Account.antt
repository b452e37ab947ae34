-- ===== src/Storage/Account.antt =====
-- apis/storage/v1alpha3/types.go: the storage account resource; pkg/clients/storage/account.go: the
-- interface between its controller and the Azure client.
pub mod Client
pub mod Controller
pub mod Manager
pub mod Lifecycle
pub mod Guards
pub mod Progress
pub mod Completion
use provider_azure.Prelude.{String, Option, List}
use provider_azure.Go.Errors.{Err, Result}
use provider_azure.Go.Panic.{Outcome}
use provider_azure.Vendor.{Conditions}
use provider_azure.Azure.Auth.{Managed}
use provider_azure.Sql.Types.{SecretReference}
use provider_azure.Storage.Types.{StorageAccountSpec, StorageAccountStatus}
use provider_azure.Storage.Sdk.{AzureAccount, AccountCreateParameters, AccountUpdateParameters}

-- An account: its metadata, of which the deletion timestamp is kept as text, its specification with
-- the fields of a ResourceSpec that the code reads, and its status.
pub record Account : Type 0 where
  pub external_name : String
  pub deletion_timestamp : Option String
  pub finalizers : List String
  pub references : Managed
  pub deletion_policy : String
  pub write_connection_secret_to_ref : Option SecretReference
  pub resource_group_name : String
  pub storage_account_spec : Option StorageAccountSpec
  pub storage_account_status : Option StorageAccountStatus
  pub conditions : Conditions

-- `storage.AccountKey`, of which the code uses one field.
pub record AccountKey : Type 0 where
  pub value : Option String

-- Each operation answers with a pointer that is nil beside an error.
pub record AccountOperations (W : Type 0) : Type 0 where
  pub create : AccountCreateParameters → W → Result AzureAccount × W
  pub update : AccountUpdateParameters → W → Result AzureAccount × W
  pub get : W → Result AzureAccount × W
  pub delete : W → Option Err × W
  pub is_account_name_available : String → W → Option Err × W
  pub list_keys : W → Outcome (Result (List AccountKey)) × W
