-- ===== src/Sql/Rules/Tests.antt =====
-- Rules over a concrete Azure: the world counts the calls.
use provider_azure.Prelude.{ℕ, ◌+◌, ◌≡◌, refl, ◌↔◌, true, false, none, some, if◌then◌else◌}
use provider_azure.Go.Errors.{ok}
use provider_azure.Go.Effect.{Session}
use provider_azure.Vendor.{available}
use provider_azure.Vendor.Standard.{standard}
use provider_azure.Azure.Convert.{to_string}
use provider_azure.Managed.{no_details}
use provider_azure.Sql.Rules.{
  FirewallRule, AzureFirewallRule, VirtualNetworkRule, AzureVirtualNetworkRule, RulesClient,
}
use provider_azure.Sql.Rules.Params.{new_firewall_rule_parameters}
use provider_azure.Sql.Rules.Firewall.{observe_firewall_rule, mysql_firewall_texts}
use provider_azure.Sql.Rules.VirtualNetwork.{
  observe_mysql_rule, observe_postgresql_rule, update_mysql_rule, send_rule, mysql_rule_texts,
}
use provider_azure.Sql.Rules.InSync.{
  observe_firewall_rule_iff, update_mysql_rule-observe_postgresql_rule,
}

abbrev firewall_rule : FirewallRule
firewall_rule = record {
  external_name = "office";
  server_name = "db";
  resource_group_name = "rg";
  start_ip_address = "10.0.0.1";
  end_ip_address = "10.0.0.9";
  id = "";
  type = "";
  conditions = record { ready = none; synced = none };
}

-- Azure's range ends elsewhere.
abbrev azure_firewall_rule : AzureFirewallRule
azure_firewall_rule = record {
  name = some "office";
  id = some "id";
  type = none;
  properties =
      some (record { start_ip_address = some "10.0.0.1"; end_ip_address = some "10.0.0.8" });
}

abbrev firewall_rules : RulesClient AzureFirewallRule ℕ
firewall_rules = record {
  get = λ g s n w. (ok azure_firewall_rule, w + 1);
  create_or_update = λ g s n r w. (none, w + 1);
  delete = λ g s n w. (none, w + 1);
}

observe_firewall_rule_iff_example :
    let (o, t) =
      observe_firewall_rule mysql_firewall_texts firewall_rules ⦃v = standard⦄
        (record { object = firewall_rule; world = 0 }) in
    (o.1 ≡ none)
    × (o.0.resource_exists ≡ true)
    × ((o.0.resource_up_to_date ≡ true) ↔ (
        azure_firewall_rule.properties
        ≡ (new_firewall_rule_parameters ⦃v = standard⦄ firewall_rule).properties))
    × (t ≡ record {
      object = record firewall_rule {
        id = to_string ⦃v = standard⦄ (some "id");
        type = to_string ⦃v = standard⦄ none;
        conditions = standard.set_condition available firewall_rule.conditions;
      };
      world = 1;
    })
observe_firewall_rule_iff_example =
    observe_firewall_rule_iff ⦃v = standard⦄ mysql_firewall_texts firewall_rules
      (record { object = firewall_rule; world = 0 }) azure_firewall_rule 1 refl

abbrev network_rule : VirtualNetworkRule
network_rule = record {
  external_name = "subnet";
  server_name = "db";
  resource_group_name = "rg";
  virtual_network_subnet_id = "subnet-id";
  ignore_missing_vnet_service_endpoint = false;
  status = record { state = ""; message = ""; id = ""; type = "" };
  conditions = record { ready = none; synced = none };
}

abbrev azure_network_rule : AzureVirtualNetworkRule
azure_network_rule = record {
  name = some "subnet";
  id = none;
  type = none;
  properties = record {
    virtual_network_subnet_id = some "subnet-id";
    ignore_missing_vnet_service_endpoint = some false;
    state = "Ready";
  };
}

abbrev network_rules : RulesClient AzureVirtualNetworkRule ℕ
network_rules = record {
  get = λ g s n w. (ok azure_network_rule, w + 1);
  create_or_update = λ g s n r w. (none, w + 1);
  delete = λ g s n w. (none, w + 1);
}

update_mysql_rule-observe_postgresql_rule_example :
    let before : Session VirtualNetworkRule ℕ = record { object = network_rule; world = 0 } in
    let fetched : Session VirtualNetworkRule ℕ = record { object = network_rule; world = 1 } in
    ((observe_mysql_rule network_rules ⦃v = standard⦄ before).0.0.resource_up_to_date ≡ false)
    × (update_mysql_rule network_rules ⦃v = standard⦄ before ≡ (
        if (observe_postgresql_rule network_rules ⦃v = standard⦄ before).0.0.resource_up_to_date
        then ((no_details, none), fetched)
        else send_rule network_rules ⦃v = standard⦄ mysql_rule_texts.update fetched))
update_mysql_rule-observe_postgresql_rule_example =
    update_mysql_rule-observe_postgresql_rule ⦃v = standard⦄ network_rules
      (record { object = network_rule; world = 0 }) azure_network_rule 1 refl
