-- ===== src/Sql/Configuration.antt =====
-- apis/database/v1beta1/configuration_types.go: server configurations, whose parameters and
-- observation MySQL and PostgreSQL share, without references and selectors; and the fields of the
-- SDK's Configuration that the code uses.
pub mod Postgresql
pub mod Client
pub mod Controller
pub mod Deletion
pub mod Update
pub mod Tests
use provider_azure.Prelude.{String, Bool, Option}
use provider_azure.Vendor.{Conditions}
use provider_azure.Azure.Operation.{AsyncOperation}

pub data Engine : Type 0 where
  mysql postgresql : Engine

pub record ConfigurationParameters : Type 0 where
  pub resource_group_name : String
  pub server_name : String
  pub name : String
  pub value : Option String

pub record ConfigurationObservation : Type 0 where
  pub id : String
  pub name : String
  pub type : String
  pub data_type : String
  pub value : String
  pub default_value : String
  pub source : String
  pub description : String
  pub last_operation : AsyncOperation

-- `deleted` says that the object has a deletion timestamp.
pub record ServerConfiguration : Type 0 where
  pub external_name : String
  pub deleted : Bool
  pub for_provider : ConfigurationParameters
  pub at_provider : ConfigurationObservation
  pub conditions : Conditions

-- A configuration in an answer of Azure, whose properties are embedded as a pointer and are taken to
-- be there.
pub record AzureConfiguration : Type 0 where
  pub id : Option String
  pub name : Option String
  pub type : Option String
  pub data_type : Option String
  pub value : Option String
  pub default_value : Option String
  pub source : Option String
  pub description : Option String
