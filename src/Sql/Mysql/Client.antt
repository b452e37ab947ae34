-- ===== src/Sql/Mysql/Client.antt =====
-- pkg/clients/database/mysql.go: MySQLServerClient, the calls of the Azure API.
use provider_azure.Prelude.{String, Option, some}
use provider_azure.Go.Errors.{Err, Result, ok, err}
use provider_azure.Go.Effect.{M, ◌>>=◌, pure, get_object, call}
use provider_azure.Vendor.{Vendor}
use provider_azure.Sql.Types.{SqlServer, AzureSku}
use provider_azure.Sql.Postgresql.Params.{Server}
use provider_azure.Sql.Postgresql.Client.{ServersClient, record_operation}
use provider_azure.Sql.Mysql.Params.{to_mysql_sku, mysql_server_for_create, mysql_update_parameters}

module _ {W : Type 0} (client : ServersClient W) where
  unfoldable pub get_mysql_server : M SqlServer W (Result Server)
  get_mysql_server = do
    cr ← get_object
    call (client.get cr.for_provider.resource_group_name cr.external_name)

  unfoldable pub delete_mysql_server : M SqlServer W (Option Err)
  delete_mysql_server = do
    cr ← get_object
    r ← call (client.delete cr.for_provider.resource_group_name cr.external_name)
    record_operation client "DELETE" r

module _ {W : Type 0} (client : ServersClient W) ⦃v : Vendor⦄ where
  abbrev create_mysql_with_sku : Result AzureSku → String → M SqlServer W (Option Err)
  create_mysql_with_sku (err e) admin_password = pure (some e)
  create_mysql_with_sku (ok sku) admin_password = do
    cr ← get_object
    r ← call (
        client.create cr.for_provider.resource_group_name cr.external_name
          (mysql_server_for_create cr.for_provider sku admin_password))
    record_operation client "PUT" r

  unfoldable pub create_mysql_server : String → M SqlServer W (Option Err)
  create_mysql_server admin_password = do
    cr ← get_object
    create_mysql_with_sku (to_mysql_sku cr.for_provider.sku) admin_password

  abbrev update_mysql_with_sku : Result AzureSku → M SqlServer W (Option Err)
  update_mysql_with_sku (err e) = pure (some e)
  update_mysql_with_sku (ok sku) = do
    cr ← get_object
    r ← call (
        client.update cr.for_provider.resource_group_name cr.external_name
          (mysql_update_parameters cr.for_provider sku))
    record_operation client "PATCH" r

  unfoldable pub update_mysql_server : M SqlServer W (Option Err)
  update_mysql_server = do cr ← get_object; update_mysql_with_sku (to_mysql_sku cr.for_provider.sku)
