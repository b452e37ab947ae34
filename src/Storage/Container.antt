-- ===== src/Storage/Container.antt =====
-- apis/storage/v1alpha3/types.go: the storage container resource; pkg/clients/storage/container.go:
-- the interface between its controller and the Azure client.
pub mod Client
pub mod Controller
pub mod Manager
pub mod Lifecycle
pub mod Ownership
use provider_azure.Prelude.{String, Bool, Option, List}
use provider_azure.Go.Errors.{Err, Result}
use provider_azure.Go.Maps.{GoMap}
use provider_azure.Vendor.{Conditions}
use provider_azure.Azure.Auth.{Managed}

pub record OwnerReference : Type 0 where
  pub uid : String
  pub block_owner_deletion : Option Bool

-- A container: its metadata, its specification with the fields of a ResourceSpec that the code
-- reads, and the conditions of its status.
pub record Container : Type 0 where
  pub external_name : String
  pub deletion_timestamp : Option String
  pub finalizers : List String
  pub owner_references : List OwnerReference
  pub references : Managed
  pub deletion_policy : String
  pub metadata : GoMap String
  pub public_access_type : String
  pub conditions : Conditions

-- `Get` answers with the access type, by a pointer that is nil beside an error, and the metadata.
pub record ContainerOperations (W : Type 0) : Type 0 where
  pub create : String → GoMap String → W → Option Err × W
  pub update : String → GoMap String → W → Option Err × W
  pub get : W → Result (String × GoMap String) × W
  pub delete : W → Option Err × W
