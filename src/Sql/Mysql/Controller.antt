-- ===== src/Sql/Mysql/Controller.antt =====
-- pkg/controller/database/mysqlserver/managed.go: what the managed reconciler calls.
use Prim.Native.String.{◌++◌}
use provider_azure.Prelude.{String, Bool, true, ◌&&◌, Option, none, some, ◌==◌, if◌then◌else◌}
use provider_azure.Go.Errors.{Err, message, Result, ok, err}
use provider_azure.Go.Effect.{M, ◌>>=◌, ◌>>◌, pure, get_object, modify, call}
use provider_azure.Vendor.{Vendor, Condition, creating, deleting, available, unavailable}
use provider_azure.Azure.Convert.{is_not_found, is_not_found_error}
use provider_azure.Azure.Operation.{Futures, in_progress, fetch_async_operation}
use provider_azure.Managed.{
  ConnectionDetails, no_details, no_observation, Observed, Detailed, of_kind, kube_update,
}
use provider_azure.Sql.Types.{SqlServer, state_ready, state_dropping}
use provider_azure.Sql.Postgresql.Params.{Server}
use provider_azure.Sql.Mysql.Params.{
  late_initialize_mysql, update_mysql_observation, is_mysql_up_to_date,
}
use provider_azure.Sql.Postgresql.Client.{ServersClient, with_last_operation}
use provider_azure.Sql.Mysql.Client.{
  get_mysql_server, create_mysql_server, update_mysql_server, delete_mysql_server,
}

-- `external`: the Azure client with the sender that polls, the API server, and the generator of
-- passwords.
pub record External (W : Type 0) : Type 0 where
  pub client : ServersClient W
  pub futures : Futures W
  pub update_object : SqlServer → W → Result SqlServer × W
  pub new_password : W → Result String × W

abbrev pub err_not_mysql_server : Err
err_not_mysql_server = message "managed resource is not a MySQLServer"

module _ {W : Type 0} (e : External W) ⦃v : Vendor⦄ where
  abbrev pub set_condition : Condition → M SqlServer W (Unit {0})
  set_condition c = modify λ cr. record cr { conditions = v.set_condition c cr.conditions }

  -- `azure.FetchAsyncOperation(ctx, …, &cr.Status.AtProvider.LastOperation)`
  unfoldable pub fetch_mysql_operation : M SqlServer W (Option Err)
  unfolding fetch_async_operation
  fetch_mysql_operation s =
      let (x, op, w) =
        fetch_async_operation e.futures s.object.at_provider.last_operation s.world in
      (x, record { object = with_last_operation op s.object; world = w })

  abbrev pub mysql_creation_in_motion : SqlServer → Bool
  mysql_creation_in_motion cr =
      cr.at_provider.last_operation.method == "PUT"
      && cr.at_provider.last_operation.status == in_progress

  abbrev pub missing : Option Err → M SqlServer W Observed
  missing (some x) = pure (no_observation, v.wrap (some x) "cannot fetch last operation")
  missing none = do
    cr ← get_object
    pure (record no_observation { resource_exists = mysql_creation_in_motion cr }, none)

  abbrev details_of : SqlServer → ConnectionDetails
  details_of cr = record {
    endpoint = some cr.at_provider.fully_qualified_domain_name;
    username = some (cr.for_provider.administrator_login ++ ("@" ++ cr.external_name));
    password = none;
    port = none;
  }

  abbrev pub fetched : Option Err → Server → M SqlServer W Observed
  fetched (some x) server = pure (no_observation, v.wrap (some x) "cannot fetch last operation")
  fetched none server = do
    set_condition (if server.user_visible_state == state_ready then available else unavailable)
    cr ← get_object
    pure (
      record no_observation {
        resource_exists = true;
        resource_up_to_date = is_mysql_up_to_date cr.for_provider server;
        connection_details = details_of cr;
      },
      none,
    )

  abbrev pub updated : Option Err → Server → M SqlServer W Observed
  updated (some x) server =
      pure (no_observation, v.wrap (some x) "cannot update MySQLServer custom resource")
  updated none server = do
    modify λ cr. record cr { at_provider = update_mysql_observation cr.at_provider server }
    x ← fetch_mysql_operation
    fetched x server

  abbrev pub observed : Result Server → M SqlServer W Observed
  observed (err x) =
      if is_not_found (some x)
      then (do y ← fetch_mysql_operation; missing y)
      else pure (no_observation, v.wrap (some x) "cannot get MySQLServer")
  observed (ok server) = do
    modify λ cr. record cr { for_provider = late_initialize_mysql cr.for_provider server }
    x ← kube_update e.update_object
    updated x server

  unfoldable pub observe_mysql : M SqlServer W Observed
  unfolding get_mysql_server fetch_mysql_operation is_not_found
  observe_mysql = do server ← get_mysql_server e.client; observed server

  unfoldable pub observe : M (Option SqlServer) W Observed
  unfolding observe_mysql
  observe = of_kind (no_observation, some err_not_mysql_server) observe_mysql

  abbrev pub created : String → Option Err → M SqlServer W Detailed
  created pw (some x) = pure (no_details, v.wrap (some x) "cannot create MySQLServer")
  created pw none = do
    x ← fetch_mysql_operation
    pure (record no_details { password = some pw }, v.wrap x "cannot fetch last operation")

  abbrev pub create_with : String → M SqlServer W Detailed
  create_with pw = do x ← create_mysql_server e.client pw; created pw x

  abbrev pub generated : Result String → M SqlServer W Detailed
  generated (err x) = pure (no_details, v.wrap (some x) "cannot generate admin password")
  generated (ok pw) = create_with pw

  unfoldable pub create_mysql : M SqlServer W Detailed
  unfolding create_mysql_server fetch_mysql_operation
  create_mysql = do set_condition creating; pw ← call e.new_password; generated pw

  unfoldable pub create : M (Option SqlServer) W Detailed
  unfolding create_mysql
  create = of_kind (no_details, some err_not_mysql_server) create_mysql

  abbrev patched : Option Err → M SqlServer W Detailed
  patched (some x) = pure (no_details, v.wrap (some x) "cannot update MySQLServer")
  patched none = do
    x ← fetch_mysql_operation
    pure (no_details, v.wrap x "cannot fetch last operation")

  unfoldable pub update_mysql : M SqlServer W Detailed
  unfolding update_mysql_server fetch_mysql_operation
  update_mysql = do
    cr ← get_object
    if cr.at_provider.last_operation.status == in_progress
        then pure (no_details, none)
        else do x ← update_mysql_server e.client; patched x

  unfoldable pub update : M (Option SqlServer) W Detailed
  unfolding update_mysql
  update = of_kind (no_details, some err_not_mysql_server) update_mysql

  abbrev pub dropped : Option Err → Option Err → M SqlServer W (Option Err)
  dropped x (some y) = pure (v.wrap x "cannot delete MySQLServer")
  dropped x none = do y ← fetch_mysql_operation; pure (v.wrap y "cannot fetch last operation")

  unfoldable pub delete_mysql : M SqlServer W (Option Err)
  unfolding delete_mysql_server fetch_mysql_operation is_not_found
  delete_mysql = do
    set_condition deleting
    cr ← get_object
    if cr.at_provider.user_visible_state == state_dropping
        then pure none
        else do x ← delete_mysql_server e.client; dropped x (v.ignore is_not_found_error x)

  unfoldable pub delete : M (Option SqlServer) W (Option Err)
  unfolding delete_mysql
  delete = of_kind (some err_not_mysql_server) delete_mysql
