-- ===== src/Sql/Rules.antt =====
-- apis/database/v1alpha3/firewallrule.go and virtualnetworkrule.go: the rules of MySQL and PostgreSQL
-- servers, which have the same fields, without references and selectors; and the fields of the two
-- SDK packages, which are alike. The properties of a virtual network rule in an answer of Azure, a
-- pointer that the code reads through without a test, are taken to be there.
pub mod Postgresql
pub mod Params
pub mod Firewall
pub mod VirtualNetwork
pub mod InSync
pub mod Tests
use provider_azure.Prelude.{String, Bool, Option}
use provider_azure.Go.Errors.{Err, Result}
use provider_azure.Vendor.{Conditions}

pub record FirewallRule : Type 0 where
  pub external_name : String
  pub server_name : String
  pub resource_group_name : String
  pub start_ip_address : String
  pub end_ip_address : String
  pub id : String
  pub type : String
  pub conditions : Conditions

pub record AzureFirewallProperties : Type 0 where
  pub start_ip_address : Option String
  pub end_ip_address : Option String

pub record AzureFirewallRule : Type 0 where
  pub name : Option String
  pub id : Option String
  pub type : Option String
  pub properties : Option AzureFirewallProperties

pub record VirtualNetworkRuleStatus : Type 0 where
  pub state : String
  pub message : String
  pub id : String
  pub type : String

pub record VirtualNetworkRule : Type 0 where
  pub external_name : String
  pub server_name : String
  pub resource_group_name : String
  pub virtual_network_subnet_id : String
  pub ignore_missing_vnet_service_endpoint : Bool
  pub status : VirtualNetworkRuleStatus
  pub conditions : Conditions

pub record AzureRuleProperties : Type 0 where
  pub virtual_network_subnet_id : Option String
  pub ignore_missing_vnet_service_endpoint : Option Bool
  pub state : String

pub record AzureVirtualNetworkRule : Type 0 where
  pub name : Option String
  pub id : Option String
  pub type : Option String
  pub properties : AzureRuleProperties

-- `FirewallRulesClientAPI` and `VirtualNetworkRulesClientAPI`: each call takes the resource group, the
-- server and the name of the rule.
pub record RulesClient (A W : Type 0) : Type 0 where
  pub get : String → String → String → W → Result A × W
  pub create_or_update : String → String → String → A → W → Option Err × W
  pub delete : String → String → String → W → Option Err × W

-- The error texts, by which alone the controllers of one sort of rule for the two servers differ.
pub record Texts : Type 0 where
  pub not_kind : String
  pub create : String
  pub update : String
  pub get : String
  pub delete : String
