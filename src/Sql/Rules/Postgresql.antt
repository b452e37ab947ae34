-- ===== src/Sql/Rules/Postgresql.antt =====
-- pkg/controller/database/postgresqlserverfirewallrule/managed.go, and Create and Delete of
-- postgresqlservervirtualnetworkrule: the code of MySQL with the texts of PostgreSQL.
use provider_azure.Prelude.{Option}
use provider_azure.Go.Errors.{Err}
use provider_azure.Go.Effect.{M}
use provider_azure.Vendor.{Vendor}
use provider_azure.Managed.{Observed, Detailed}
use provider_azure.Sql.Rules.{
  FirewallRule, AzureFirewallRule, VirtualNetworkRule, AzureVirtualNetworkRule, RulesClient,
}
use provider_azure.Sql.Rules.Firewall as Firewall
use provider_azure.Sql.Rules.Firewall.{postgresql_firewall_texts}
use provider_azure.Sql.Rules.VirtualNetwork as VirtualNetwork
use provider_azure.Sql.Rules.VirtualNetwork.{postgresql_rule_texts}

module _ {W : Type 0} (client : RulesClient AzureFirewallRule W) ⦃v : Vendor⦄ where
  abbrev observe_postgresql_firewall_rule : M (Option FirewallRule) W Observed
  observe_postgresql_firewall_rule = Firewall.observe postgresql_firewall_texts client

  abbrev create_postgresql_firewall_rule : M (Option FirewallRule) W Detailed
  create_postgresql_firewall_rule = Firewall.create postgresql_firewall_texts client

  abbrev update_postgresql_firewall_rule : M (Option FirewallRule) W Detailed
  update_postgresql_firewall_rule = Firewall.update postgresql_firewall_texts client

  abbrev delete_postgresql_firewall_rule : M (Option FirewallRule) W (Option Err)
  delete_postgresql_firewall_rule = Firewall.delete postgresql_firewall_texts client

module _ {W : Type 0} (client : RulesClient AzureVirtualNetworkRule W) ⦃v : Vendor⦄ where
  abbrev create_postgresql_virtual_network_rule : M (Option VirtualNetworkRule) W Detailed
  create_postgresql_virtual_network_rule = VirtualNetwork.create client postgresql_rule_texts

  abbrev delete_postgresql_virtual_network_rule : M (Option VirtualNetworkRule) W (Option Err)
  delete_postgresql_virtual_network_rule = VirtualNetwork.delete client postgresql_rule_texts
