-- ===== src/Sql/Postgresql/Controller.antt =====
-- pkg/controller/database/postgresqlserver/managed.go: what the managed reconciler calls.
use Prim.Native.String.{◌++◌}
use provider_azure.Prelude.{String, Bool, true, ◌&&◌, ◌||◌, Option, none, some, ◌==◌, if◌then◌else◌}
use provider_azure.Go.Errors.{Err, message, Result, ok, err}
use provider_azure.Go.Effect.{M, ◌>>=◌, ◌>>◌, pure, get_object, modify, call}
use provider_azure.Vendor.{Vendor, Condition, creating, deleting, available, unavailable}
use provider_azure.Azure.Convert.{is_not_found, is_not_found_error}
use provider_azure.Azure.Operation.{Futures, in_progress, fetch_async_operation}
use provider_azure.Managed.{
  ConnectionDetails, no_details, no_observation, Observed, Detailed, of_kind, kube_update,
}
use provider_azure.Sql.Types.{
  SqlServer, SecretReference, state_ready, state_dropping, postgresql_server_port,
}
use provider_azure.Sql.Postgresql.Params.{
  Server, late_initialize_postgresql, update_postgresql_observation, is_postgresql_up_to_date,
}
use provider_azure.Sql.Postgresql.Client.{
  ServersClient, get_server, create_server, update_server, delete_server, with_last_operation,
}

-- `external`: the Azure client with the sender that polls, the API server, and the generator of
-- passwords.
pub record External (W : Type 0) : Type 0 where
  pub client : ServersClient W
  pub futures : Futures W
  pub update_object : SqlServer → W → Result SqlServer × W
  pub get_secret : SecretReference → W → Result ConnectionDetails × W
  pub new_password : W → Result String × W

abbrev pub err_not_postgresql_server : Err
err_not_postgresql_server = message "managed resource is not a PostgreSQLServer"

-- `string(s.Data[key])`: a missing key reads as no bytes.
abbrev or_empty : Option String → String
or_empty none = ""
or_empty (some s) = s

module _ {W : Type 0} (e : External W) ⦃v : Vendor⦄ where
  abbrev pub set_condition : Condition → M SqlServer W (Unit {0})
  set_condition c = modify λ cr. record cr { conditions = v.set_condition c cr.conditions }

  -- `azure.FetchAsyncOperation(ctx, …, &cr.Status.AtProvider.LastOperation)`
  unfoldable pub fetch_last_operation : M SqlServer W (Option Err)
  unfolding fetch_async_operation
  fetch_last_operation s =
      let (x, op, w) =
        fetch_async_operation e.futures s.object.at_provider.last_operation s.world in
      (x, record { object = with_last_operation op s.object; world = w })

  abbrev pub creation_in_motion : SqlServer → Bool
  creation_in_motion cr =
      cr.at_provider.last_operation.method == "PUT"
      && cr.at_provider.last_operation.status == in_progress

  abbrev pub missing : Option Err → M SqlServer W Observed
  missing (some x) = pure (no_observation, v.wrap (some x) "cannot fetch last operation")
  missing none = do
    cr ← get_object
    pure (record no_observation { resource_exists = creation_in_motion cr }, none)

  abbrev details_of : SqlServer → ConnectionDetails
  details_of cr = record {
    endpoint = some cr.at_provider.fully_qualified_domain_name;
    username = some (cr.for_provider.administrator_login ++ ("@" ++ cr.external_name));
    password = none;
    port = some postgresql_server_port;
  }

  abbrev pub fetched : Option Err → Server → M SqlServer W Observed
  fetched (some x) server = pure (no_observation, v.wrap (some x) "cannot fetch last operation")
  fetched none server = do
    set_condition (if server.user_visible_state == state_ready then available else unavailable)
    cr ← get_object
    pure (
      record no_observation {
        resource_exists = true;
        resource_up_to_date = is_postgresql_up_to_date cr.for_provider server;
        connection_details = details_of cr;
      },
      none,
    )

  abbrev pub updated : Option Err → Server → M SqlServer W Observed
  updated (some x) server =
      pure (no_observation, v.wrap (some x) "cannot update PostgreSQL custom resource")
  updated none server = do
    modify λ cr. record cr { at_provider = update_postgresql_observation cr.at_provider server }
    x ← fetch_last_operation
    fetched x server

  abbrev pub observed : Result Server → M SqlServer W Observed
  observed (err x) =
      if is_not_found (some x)
      then (do y ← fetch_last_operation; missing y)
      else pure (no_observation, v.wrap (some x) "cannot get PostgreSQLServer")
  observed (ok server) = do
    modify λ cr. record cr { for_provider = late_initialize_postgresql cr.for_provider server }
    x ← kube_update e.update_object
    updated x server

  unfoldable pub observe_server : M SqlServer W Observed
  unfolding get_server fetch_last_operation is_not_found
  observe_server = do server ← get_server e.client; observed server

  unfoldable pub observe : M (Option SqlServer) W Observed
  unfolding observe_server
  observe = of_kind (no_observation, some err_not_postgresql_server) observe_server

  abbrev password_in : Result ConnectionDetails → M SqlServer W (String × Option Err)
  password_in (err x) = pure ("", v.wrap (some x) "cannot get connection secret")
  password_in (ok secret) = pure (or_empty secret.password, none)

  abbrev password_at : Option SecretReference → M SqlServer W (String × Option Err)
  password_at none = pure ("", none)
  password_at (some ref) =
      if ref.name == "" || ref.namespace == ""
      then pure ("", none)
      else do secret ← call (e.get_secret ref); password_in secret

  unfoldable pub get_password : M SqlServer W (String × Option Err)
  get_password = do cr ← get_object; password_at cr.write_connection_secret_to_ref

  abbrev pub created : String → Option Err → M SqlServer W Detailed
  created pw (some x) = pure (no_details, v.wrap (some x) "cannot create PostgreSQLServer")
  created pw none = do
    x ← fetch_last_operation
    pure (record no_details { password = some pw }, v.wrap x "cannot fetch last operation")

  abbrev pub create_with : String → M SqlServer W Detailed
  create_with pw = do x ← create_server e.client pw; created pw x

  abbrev pub generated : Result String → M SqlServer W Detailed
  generated (err x) = pure (no_details, v.wrap (some x) "cannot generate admin password")
  generated (ok pw) = create_with pw

  abbrev pub create_keeping : String × Option Err → M SqlServer W Detailed
  create_keeping (pw, some x) = pure (no_details, some x)
  create_keeping (pw, none) =
      if pw == "" then (do new ← call e.new_password; generated new) else create_with pw

  unfoldable pub create_managed : M SqlServer W Detailed
  unfolding get_password create_server fetch_last_operation
  create_managed = do set_condition creating; pw ← get_password; create_keeping pw

  unfoldable pub create : M (Option SqlServer) W Detailed
  unfolding create_managed
  create = of_kind (no_details, some err_not_postgresql_server) create_managed

  abbrev patched : Option Err → M SqlServer W Detailed
  patched (some x) = pure (no_details, v.wrap (some x) "cannot update PostgreSQLServer")
  patched none = do
    x ← fetch_last_operation
    pure (no_details, v.wrap x "cannot fetch last operation")

  unfoldable pub update_managed : M SqlServer W Detailed
  unfolding update_server fetch_last_operation
  update_managed = do
    cr ← get_object
    if cr.at_provider.last_operation.status == in_progress
        then pure (no_details, none)
        else do x ← update_server e.client; patched x

  unfoldable pub update : M (Option SqlServer) W Detailed
  unfolding update_managed
  update = of_kind (no_details, some err_not_postgresql_server) update_managed

  abbrev pub dropped : Option Err → Option Err → M SqlServer W (Option Err)
  dropped x (some y) = pure (v.wrap x "cannot delete PostgreSQLServer")
  dropped x none = do y ← fetch_last_operation; pure (v.wrap y "cannot fetch last operation")

  unfoldable pub delete_managed : M SqlServer W (Option Err)
  unfolding delete_server fetch_last_operation is_not_found
  delete_managed = do
    set_condition deleting
    cr ← get_object
    if cr.at_provider.user_visible_state == state_dropping
        then pure none
        else do x ← delete_server e.client; dropped x (v.ignore is_not_found_error x)

  unfoldable pub delete : M (Option SqlServer) W (Option Err)
  unfolding delete_managed
  delete = of_kind (some err_not_postgresql_server) delete_managed
