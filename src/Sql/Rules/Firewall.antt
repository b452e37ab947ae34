-- ===== src/Sql/Rules/Firewall.antt =====
-- pkg/controller/database/mysqlserverfirewallrule/managed.go and postgresqlserverfirewallrule: what
-- the managed reconciler calls. The two differ in their texts.
use provider_azure.Prelude.{true, Option, none, some, if◌then◌else◌}
use provider_azure.Go.Errors.{Err, message, Result, ok, err}
use provider_azure.Go.Effect.{M, ◌>>=◌, ◌>>◌, pure, get_object, modify, call}
use provider_azure.Vendor.{Vendor, Condition, creating, deleting, available}
use provider_azure.Azure.Convert.{is_not_found, is_not_found_error, to_string}
use provider_azure.Managed.{no_details, no_observation, Observed, Detailed, of_kind}
use provider_azure.Sql.Rules.{FirewallRule, AzureFirewallRule, RulesClient, Texts}
use provider_azure.Sql.Rules.Params.{new_firewall_rule_parameters, firewall_rule_is_up_to_date}

abbrev pub mysql_firewall_texts : Texts
mysql_firewall_texts = record {
  not_kind = "managed resource is not an MySQLServerFirewallRule";
  create = "cannot create MySQLServerFirewallRule";
  update = "cannot update MySQLServerFirewallRule";
  get = "cannot get MySQLServerFirewallRule";
  delete = "cannot delete MySQLServerFirewallRule";
}

abbrev pub postgresql_firewall_texts : Texts
postgresql_firewall_texts = record {
  not_kind = "managed resource is not an PostgreSQLServerFirewallRule";
  create = "cannot create PostgreSQLServerFirewallRule";
  update = "cannot update PostgreSQLServerFirewallRule";
  get = "cannot get PostgreSQLServerFirewallRule";
  delete = "cannot delete PostgreSQLServerFirewallRule";
}

module _ (texts : Texts) {W : Type 0} (client : RulesClient AzureFirewallRule W) ⦃v : Vendor⦄ where
  abbrev set_condition : Condition → M FirewallRule W (Unit {0})
  set_condition c = modify λ r. record r { conditions = v.set_condition c r.conditions }

  abbrev fetched : Result AzureFirewallRule → M FirewallRule W Observed
  fetched (err x) =
      if is_not_found (some x)
      then pure (no_observation, none)
      else pure (no_observation, v.wrap (some x) texts.get)
  fetched (ok az) = do
    modify λ r. record r { id = to_string az.id; type = to_string az.type }
    set_condition available
    r ← get_object
    pure (
      record no_observation {
        resource_exists = true;
        resource_up_to_date = firewall_rule_is_up_to_date r az;
      },
      none,
    )

  unfoldable pub observe_firewall_rule : M FirewallRule W Observed
  unfolding is_not_found
  observe_firewall_rule = do
    r ← get_object
    az ← call (client.get r.resource_group_name r.server_name r.external_name)
    fetched az

  unfoldable pub create_firewall_rule : M FirewallRule W Detailed
  create_firewall_rule = do
    set_condition creating
    r ← get_object
    x ← call (
        client.create_or_update r.resource_group_name r.server_name r.external_name
          (new_firewall_rule_parameters r))
    pure (no_details, v.wrap x texts.create)

  unfoldable pub update_firewall_rule : M FirewallRule W Detailed
  update_firewall_rule = do
    r ← get_object
    x ← call (
        client.create_or_update r.resource_group_name r.server_name r.external_name
          (new_firewall_rule_parameters r))
    pure (no_details, v.wrap x texts.update)

  unfoldable pub delete_firewall_rule : M FirewallRule W (Option Err)
  unfolding is_not_found
  delete_firewall_rule = do
    set_condition deleting
    r ← get_object
    x ← call (client.delete r.resource_group_name r.server_name r.external_name)
    pure (v.wrap (v.ignore is_not_found_error x) texts.delete)

  unfoldable pub observe : M (Option FirewallRule) W Observed
  unfolding observe_firewall_rule
  observe = of_kind (no_observation, some (message texts.not_kind)) observe_firewall_rule

  unfoldable pub create : M (Option FirewallRule) W Detailed
  unfolding create_firewall_rule
  create = of_kind (no_details, some (message texts.not_kind)) create_firewall_rule

  unfoldable pub update : M (Option FirewallRule) W Detailed
  unfolding update_firewall_rule
  update = of_kind (no_details, some (message texts.not_kind)) update_firewall_rule

  unfoldable pub delete : M (Option FirewallRule) W (Option Err)
  unfolding delete_firewall_rule
  delete = of_kind (some (message texts.not_kind)) delete_firewall_rule
