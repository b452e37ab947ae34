-- ===== src/Sql/Mysql/Lifecycle.antt =====
-- What the controller of MySQL servers does over its methods, and that an update brings a server up
-- to date.
use provider_azure.Prelude.{String, ◌≡◌, ◌≢◌, true, none, arith, eq_iff}
use provider_azure.Go.Num.{FitsInt32}
use provider_azure.Go.Errors.{ok, err}
use provider_azure.Go.Maps.{entries, Distinct}
use provider_azure.Go.Effect.{Session}
use provider_azure.Vendor.{Vendor, Documented}
use provider_azure.Azure.Operation.{future_json}
use provider_azure.Managed.{no_observation}
use provider_azure.Sql.Types.{SqlServer, SqlServerParameters, AzureSku}
use provider_azure.Sql.Postgresql.Params.{
  Server, server_update_parameters, is_postgresql_up_to_date, to_postgresql_sku,
}
use provider_azure.Sql.Postgresql.InSync.{
  Reflects, is_postgresql_up_to_date-server_update_parameters,
}
use provider_azure.Sql.Postgresql.Lifecycle.{not_found}
use provider_azure.Sql.Mysql.Params.{to_mysql_sku, mysql_update_parameters, is_mysql_up_to_date}
use provider_azure.Sql.Mysql.Client.{create_mysql_server}
use provider_azure.Sql.Mysql.Controller.{External, observe_mysql}

module _ ⦃v : Vendor⦄ (d : Documented v) where
  -- A MySQL server that has taken over what UpdateServer sends is up to date, if the numbers fit into
  -- the 32 bits that Azure takes.
  pub is_mysql_up_to_date-mysql_update_parameters :
      (p : SqlServerParameters) (sku : AzureSku) (server : Server)
      → to_mysql_sku p.sku ≡ ok sku
      → Distinct (entries p.tags)
      → FitsInt32 p.sku.capacity
      → FitsInt32 p.storage_profile.storage_mb
      → Reflects (mysql_update_parameters p sku) server
      → is_mysql_up_to_date p server ≡ true
  unfolding is_mysql_up_to_date mysql_update_parameters to_mysql_sku is_postgresql_up_to_date
      server_update_parameters to_postgresql_sku
  is_mysql_up_to_date-mysql_update_parameters = is_postgresql_up_to_date-server_update_parameters d

put_nonempty : ◌≢◌ {A = String} "PUT" ""
put_nonempty = ground (arith, eq_iff "PUT" "")

module _ {W : Type 0} (e : External W) ⦃v : Vendor⦄ where
  pub method-create_mysql_server :
      (s t : Session SqlServer W) (pw : String)
      → create_mysql_server e.client pw s ≡ (none, t)
      → t.object.at_provider.last_operation.method ≡ "PUT"
  unfolding create_mysql_server
  method-create_mysql_server s t pw h = ground arith

  observe_mysql-in_progress :
      (s : Session SqlServer W) (w : W)
      → s.object.at_provider.last_operation.method ≡ "PUT"
      → s.object.at_provider.last_operation.polling_url ≢ ""
      → e.client.get s.object.for_provider.resource_group_name s.object.external_name s.world
        ≡ (err not_found, w)
      → e.futures.unmarshal_json (future_json s.object.at_provider.last_operation) ≡ none
      → (e.futures.done_with_context (future_json s.object.at_provider.last_operation) w).0.status
        ≡ "InProgress"
      → (observe_mysql e s).0 ≡ (record no_observation { resource_exists = true }, none)
  unfolding observe_mysql
  observe_mysql-in_progress s w m u g j p =
      let op = s.object.at_provider.last_operation in
      ground (
        arith,
        put_nonempty,
        eq_iff op.polling_url "",
        eq_iff op.method "",
        eq_iff op.method "PUT",
        eq_iff (e.futures.done_with_context (future_json op) w).0.status "InProgress",
      )

  -- A MySQL server is not created twice: after a creation has started, an observation that Azure
  -- answers by not found, while the creation is still in progress, says that the server exists.
  pub observe_mysql-create_mysql_server :
      (s t : Session SqlServer W) (pw : String) (w : W)
      → create_mysql_server e.client pw s ≡ (none, t)
      → t.object.at_provider.last_operation.polling_url ≢ ""
      → e.client.get t.object.for_provider.resource_group_name t.object.external_name t.world
        ≡ (err not_found, w)
      → e.futures.unmarshal_json (future_json t.object.at_provider.last_operation) ≡ none
      → (e.futures.done_with_context (future_json t.object.at_provider.last_operation) w).0.status
        ≡ "InProgress"
      → (observe_mysql e t).0 ≡ (record no_observation { resource_exists = true }, none)
  observe_mysql-create_mysql_server s t pw w c =
      observe_mysql-in_progress t w (method-create_mysql_server s t pw c)
