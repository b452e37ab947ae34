-- ===== src/Sql/Rules/VirtualNetwork.antt =====
-- pkg/controller/database/mysqlservervirtualnetworkrule/managed.go and
-- postgresqlservervirtualnetworkrule: what the managed reconciler calls. Create and Delete differ in
-- their texts; Observe compares for PostgreSQL, and Update for MySQL.
use provider_azure.Prelude.{String, Bool, true, false, not, Option, none, some, if◌then◌else◌}
use provider_azure.Go.Errors.{Err, message, Result, ok, err}
use provider_azure.Go.Effect.{M, ◌>>=◌, ◌>>◌, pure, get_object, modify, call}
use provider_azure.Vendor.{Vendor, Condition, creating, deleting, available}
use provider_azure.Azure.Convert.{is_not_found, is_not_found_error}
use provider_azure.Managed.{no_details, no_observation, Observed, Detailed, of_kind}
use provider_azure.Sql.Rules.{VirtualNetworkRule, AzureVirtualNetworkRule, RulesClient, Texts}
use provider_azure.Sql.Rules.Params.{
  new_virtual_network_rule_parameters, virtual_network_rule_needs_update,
  update_virtual_network_rule_status_from_azure,
}

abbrev pub mysql_rule_texts : Texts
mysql_rule_texts = record {
  not_kind = "managed resource is not an MySQLServerVirtualNetworkRule";
  create = "cannot create MySQLServerVirtualNetworkRule";
  update = "cannot update MySQLServerVirtualNetworkRule";
  get = "cannot get MySQLServerVirtualNetworkRule";
  delete = "cannot delete MySQLServerVirtualNetworkRule";
}

abbrev pub postgresql_rule_texts : Texts
postgresql_rule_texts = record {
  not_kind = "managed resource is not an PostgreSQLServerVirtualNetworkRule";
  create = "cannot create PostgreSQLServerVirtualNetworkRule";
  update = "cannot update PostgreSQLServerVirtualNetworkRule";
  get = "cannot get PostgreSQLServerVirtualNetworkRule";
  delete = "cannot delete PostgreSQLServerVirtualNetworkRule";
}

module _ {W : Type 0} (client : RulesClient AzureVirtualNetworkRule W) ⦃v : Vendor⦄ where
  abbrev set_condition : Condition → M VirtualNetworkRule W (Unit {0})
  set_condition c = modify λ r. record r { conditions = v.set_condition c r.conditions }

  -- Both Observe methods, which differ in what they say of an object beside its rule.
  abbrev fetched :
      Texts
      → (VirtualNetworkRule → AzureVirtualNetworkRule → Bool)
      → Result AzureVirtualNetworkRule
      → M VirtualNetworkRule W Observed
  fetched texts compare (err x) =
      if is_not_found (some x)
      then pure (no_observation, none)
      else pure (no_observation, v.wrap (some x) texts.get)
  fetched texts compare (ok az) = do
    modify λ r. update_virtual_network_rule_status_from_azure r az
    set_condition available
    r ← get_object
    pure
        (record no_observation { resource_exists = true; resource_up_to_date = compare r az }, none)

  abbrev get_rule : M VirtualNetworkRule W (Result AzureVirtualNetworkRule)
  get_rule = do
    r ← get_object
    call (client.get r.resource_group_name r.server_name r.external_name)

  -- `ResourceUpToDate` is not set.
  unfoldable pub observe_mysql_rule : M VirtualNetworkRule W Observed
  unfolding is_not_found
  observe_mysql_rule = do az ← get_rule; fetched mysql_rule_texts (λ r az. false) az

  unfoldable pub observe_postgresql_rule : M VirtualNetworkRule W Observed
  unfolding is_not_found
  observe_postgresql_rule = do
    az ← get_rule
    fetched postgresql_rule_texts (λ r az. not (virtual_network_rule_needs_update r az)) az

  abbrev pub send_rule : String → M VirtualNetworkRule W Detailed
  send_rule text = do
    r ← get_object
    x ← call (
        client.create_or_update r.resource_group_name r.server_name r.external_name
          (new_virtual_network_rule_parameters r))
    pure (no_details, v.wrap x text)

  unfoldable pub create_rule : Texts → M VirtualNetworkRule W Detailed
  create_rule texts = do set_condition creating; send_rule texts.create

  abbrev compared : Result AzureVirtualNetworkRule → M VirtualNetworkRule W Detailed
  compared (err x) = pure (no_details, v.wrap (some x) mysql_rule_texts.get)
  compared (ok az) = do
    r ← get_object
    if virtual_network_rule_needs_update r az
        then send_rule mysql_rule_texts.update
        else pure (no_details, none)

  unfoldable pub update_mysql_rule : M VirtualNetworkRule W Detailed
  update_mysql_rule = do az ← get_rule; compared az

  unfoldable pub update_postgresql_rule : M VirtualNetworkRule W Detailed
  update_postgresql_rule = send_rule postgresql_rule_texts.update

  unfoldable pub delete_rule : Texts → M VirtualNetworkRule W (Option Err)
  unfolding is_not_found
  delete_rule texts = do
    set_condition deleting
    r ← get_object
    x ← call (client.delete r.resource_group_name r.server_name r.external_name)
    pure (v.wrap (v.ignore is_not_found_error x) texts.delete)

  abbrev no_kind : Texts → Err
  no_kind texts = message texts.not_kind

  unfoldable pub mysql_observe : M (Option VirtualNetworkRule) W Observed
  unfolding observe_mysql_rule
  mysql_observe = of_kind (no_observation, some (no_kind mysql_rule_texts)) observe_mysql_rule

  unfoldable pub postgresql_observe : M (Option VirtualNetworkRule) W Observed
  unfolding observe_postgresql_rule
  postgresql_observe =
      of_kind (no_observation, some (no_kind postgresql_rule_texts)) observe_postgresql_rule

  unfoldable pub create : Texts → M (Option VirtualNetworkRule) W Detailed
  unfolding create_rule
  create texts = of_kind (no_details, some (no_kind texts)) (create_rule texts)

  unfoldable pub mysql_update : M (Option VirtualNetworkRule) W Detailed
  unfolding update_mysql_rule
  mysql_update = of_kind (no_details, some (no_kind mysql_rule_texts)) update_mysql_rule

  unfoldable pub postgresql_update : M (Option VirtualNetworkRule) W Detailed
  unfolding update_postgresql_rule
  postgresql_update =
      of_kind (no_details, some (no_kind postgresql_rule_texts)) update_postgresql_rule

  unfoldable pub delete : Texts → M (Option VirtualNetworkRule) W (Option Err)
  unfolding delete_rule
  delete texts = of_kind (some (no_kind texts)) (delete_rule texts)
