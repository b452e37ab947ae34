-- ===== src/Sql/Postgresql/Client.antt =====
-- pkg/clients/database/postgresql.go: PostgreSQLServerClient, the calls of the Azure API.
use provider_azure.Prelude.{String, Option, none, some}
use provider_azure.Go.Errors.{Err, Result, ok, err}
use provider_azure.Go.Effect.{M, ◌>>=◌, ◌>>◌, pure, get_object, modify, call}
use provider_azure.Vendor.{Vendor}
use provider_azure.Azure.Operation.{AsyncOperation}
use provider_azure.Sql.Types.{SqlServer, AzureSku}
use provider_azure.Sql.Postgresql.Params.{
  Server, ServerForCreate, ServerUpdateParameters, to_postgresql_sku, server_for_create,
  server_update_parameters,
}

-- `postgresql.ServersClient` of the SDK: each call takes the resource group and the name of the
-- server. What starts an operation answers with the URL to poll it at.
pub record ServersClient (W : Type 0) : Type 0 where
  pub get : String → String → W → Result Server × W
  pub create : String → String → ServerForCreate → W → Result String × W
  pub update : String → String → ServerUpdateParameters → W → Result String × W
  pub delete : String → String → W → Result String × W

-- `v1alpha3.AsyncOperation{PollingURL: url, Method: method}`
abbrev pub started : String → String → AsyncOperation
started method url = record { method = method; polling_url = url; status = ""; error_message = "" }

abbrev pub with_last_operation : AsyncOperation → SqlServer → SqlServer
with_last_operation op cr = record cr {
  at_provider = record (cr.at_provider) { last_operation = op };
}

module _ {W : Type 0} (client : ServersClient W) where
  -- The common end of the three calls.
  abbrev pub record_operation : String → Result String → M SqlServer W (Option Err)
  record_operation method (err e) = pure (some e)
  record_operation method (ok url) = do modify (with_last_operation (started method url)); pure none

  unfoldable pub get_server : M SqlServer W (Result Server)
  get_server = do
    cr ← get_object
    call (client.get cr.for_provider.resource_group_name cr.external_name)

  unfoldable pub delete_server : M SqlServer W (Option Err)
  delete_server = do
    cr ← get_object
    r ← call (client.delete cr.for_provider.resource_group_name cr.external_name)
    record_operation "DELETE" r

module _ {W : Type 0} (client : ServersClient W) ⦃v : Vendor⦄ where
  abbrev create_with_sku : Result AzureSku → String → M SqlServer W (Option Err)
  create_with_sku (err e) admin_password = pure (some e)
  create_with_sku (ok sku) admin_password = do
    cr ← get_object
    r ← call (
        client.create cr.for_provider.resource_group_name cr.external_name
          (server_for_create cr.for_provider sku admin_password))
    record_operation client "PUT" r

  unfoldable pub create_server : String → M SqlServer W (Option Err)
  unfolding to_postgresql_sku
  create_server admin_password = do
    cr ← get_object
    create_with_sku (to_postgresql_sku cr.for_provider.sku) admin_password

  abbrev update_with_sku : Result AzureSku → M SqlServer W (Option Err)
  update_with_sku (err e) = pure (some e)
  update_with_sku (ok sku) = do
    cr ← get_object
    r ← call (
        client.update cr.for_provider.resource_group_name cr.external_name
          (server_update_parameters cr.for_provider sku))
    record_operation client "PATCH" r

  unfoldable pub update_server : M SqlServer W (Option Err)
  unfolding to_postgresql_sku
  update_server = do cr ← get_object; update_with_sku (to_postgresql_sku cr.for_provider.sku)
