-- ===== src/Connect/Databases.antt =====
-- Connect of pkg/controller/database/*/managed.go.
use provider_azure.Prelude.{String, Bool, Option}
use provider_azure.Go.Errors.{Result}
use provider_azure.Vendor.{Vendor}
use provider_azure.Managed.{ConnectionDetails}
use provider_azure.Azure.Auth.{Managed, AuthEnv}
use provider_azure.Azure.Connect.{Connected, connect_subscription}
use provider_azure.Azure.Operation.{Futures}
use provider_azure.Sql.Types.{SqlServer, SecretReference}
use provider_azure.Sql.Postgresql.Client.{ServersClient}
use provider_azure.Sql.Postgresql.Controller as Postgresql
use provider_azure.Sql.Mysql.Controller as Mysql
use provider_azure.Sql.Configuration.Client.{ConfigurationsClient}
use provider_azure.Sql.Configuration.Controller.{External}
use provider_azure.Sql.Rules.{AzureFirewallRule, AzureVirtualNetworkRule, RulesClient}
use provider_azure.Cosmos.Controller.{AccountClient}

module _ {W A S : Type 0} (auth : AuthEnv W A S) ⦃v : Vendor⦄ where
  -- The sender that polls is the one of the client.
  module _ (new_servers_client : String → Option A → ServersClient W)
      (sender_of : ServersClient W → Futures W)
      (update_object : SqlServer → W → Result SqlServer × W)
      (generate : W → Result String × W) where
    unfoldable pub connect_mysql_server : Managed → W → Connected (Mysql.External W) W
    unfolding connect_subscription
    connect_mysql_server = connect_subscription auth λ subscription a.
        let cl = new_servers_client subscription a in
        record {
          client = cl;
          futures = sender_of cl;
          update_object = update_object;
          new_password = generate;
        }

    unfoldable pub connect_postgresql_server :
        (SecretReference → W → Result ConnectionDetails × W)
        → Managed
        → W
        → Connected (Postgresql.External W) W
    unfolding connect_subscription
    connect_postgresql_server get_secret = connect_subscription auth λ subscription a.
        let cl = new_servers_client subscription a in
        record {
          client = cl;
          futures = sender_of cl;
          update_object = update_object;
          get_secret = get_secret;
          new_password = generate;
        }

  -- The external client also keeps the subscription.
  module _ (new_configurations_client : String → Option A → ConfigurationsClient W)
      (sender_of : ConfigurationsClient W → Futures W)
      (late_initialize : Option String → Option String → Option String × Bool) where
    unfoldable pub connect_mysql_configuration : Managed → W → Connected (External W) W
    unfolding connect_subscription
    connect_mysql_configuration = connect_subscription auth λ subscription a.
        let cl = new_configurations_client subscription a in
        record {
          client = cl;
          futures = sender_of cl;
          subscription_id = subscription;
          late_initialize = late_initialize;
        }

    unfoldable pub connect_postgresql_configuration : Managed → W → Connected (External W) W
    unfolding connect_subscription
    connect_postgresql_configuration = connect_subscription auth λ subscription a.
        let cl = new_configurations_client subscription a in
        record {
          client = cl;
          futures = sender_of cl;
          subscription_id = subscription;
          late_initialize = late_initialize;
        }

  module _ (new_firewall_rules_client : String → Option A → RulesClient AzureFirewallRule W) where
    unfoldable pub connect_mysql_firewall_rule :
        Managed → W → Connected (RulesClient AzureFirewallRule W) W
    unfolding connect_subscription
    connect_mysql_firewall_rule = connect_subscription auth new_firewall_rules_client

    unfoldable pub connect_postgresql_firewall_rule :
        Managed → W → Connected (RulesClient AzureFirewallRule W) W
    unfolding connect_subscription
    connect_postgresql_firewall_rule = connect_subscription auth new_firewall_rules_client

  module _
      (new_virtual_network_rules_client : String
        → Option A
        → RulesClient AzureVirtualNetworkRule W) where
    unfoldable pub connect_mysql_virtual_network_rule :
        Managed → W → Connected (RulesClient AzureVirtualNetworkRule W) W
    unfolding connect_subscription
    connect_mysql_virtual_network_rule = connect_subscription auth new_virtual_network_rules_client

    unfoldable pub connect_postgresql_virtual_network_rule :
        Managed → W → Connected (RulesClient AzureVirtualNetworkRule W) W
    unfolding connect_subscription
    connect_postgresql_virtual_network_rule =
        connect_subscription auth new_virtual_network_rules_client

  unfoldable pub connect_cosmos_account :
      (String → Option A → AccountClient W) → Managed → W → Connected (AccountClient W) W
  unfolding connect_subscription
  connect_cosmos_account new_database_accounts_client =
      connect_subscription auth new_database_accounts_client
