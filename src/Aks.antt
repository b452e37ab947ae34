-- ===== src/Aks.antt =====
-- AKS clusters: apis/compute/v1alpha3/types.go, without references and selectors; an `int` is its bit
-- pattern of 64 bits.
pub mod Sdk
pub mod Params
pub mod Client
pub mod Kubeconfig
pub mod Controller
pub mod Applications
pub mod Steps
pub mod Provision
pub mod Directory
pub mod Ownership
pub mod Observation
pub mod Tests
pub mod DirectoryTests
use provider_azure.Prelude.{ℕ, String, Bool, Option}
use provider_azure.Vendor.{Conditions}

abbrev pub default_node_count : ℕ
default_node_count = 1

-- `xpv1.SecretReference`
pub record SecretReference : Type 0 where
  pub name : String
  pub namespace : String

pub record AksClusterParameters : Type 0 where
  pub resource_group_name : String
  pub location : String
  pub version : String
  pub vnet_subnet_id : String
  pub node_count : Option ℕ
  pub node_vm_size : String
  pub dns_name_prefix : String
  pub disable_rbac : Bool

pub record AksCluster : Type 0 where
  pub external_name : String
  pub spec : AksClusterParameters
  pub write_connection_secret_to : Option SecretReference
  pub state : String
  pub provider_id : String
  pub endpoint : String
  pub conditions : Conditions
