-- ===== src/Sql/Postgresql/Lifecycle.antt =====
-- What the controller of PostgreSQL servers does over several of its methods.
use provider_azure.Prelude.{
  String, ◌≡◌, refl, ◌≢◌, ◌⊎◌, inl, inr, true, false, Option, none, some, arith, eq_iff, Bool-cases,
  ◌==◌, if◌then◌else◌,
}
use provider_azure.Go.Errors.{Err, ok, err, detailed, int_code}
use provider_azure.Go.Effect.{Session}
use provider_azure.Vendor.{Vendor, Documented, creating, deleting, available, unavailable}
use provider_azure.Vendor.Standard.{Documented-standard}
use provider_azure.Azure.Convert.{is_not_found, is_not_found_error}
use provider_azure.Azure.Operation.{AsyncOperation, future_json}
use provider_azure.Managed.{ConnectionDetails, no_details, no_observation, Observed}
use provider_azure.Sql.Types.{SqlServer, SecretReference}
use provider_azure.Sql.Postgresql.Params.{
  Server, update_postgresql_observation, is_postgresql_up_to_date,
}
use provider_azure.Sql.Postgresql.Client.{create_server, delete_server}
use provider_azure.Sql.Postgresql.Controller.{
  External, observe_server, create_managed, update_managed, delete_managed, create_with,
  set_condition, fetched, updated, dropped, fetch_last_operation,
}

pub put_nonempty : ◌≢◌ {A = String} "PUT" ""
put_nonempty = ground (arith, eq_iff "PUT" "")

abbrev pub not_found : Err
not_found = detailed (int_code 404)

module _ {W : Type 0} (e : External W) ⦃v : Vendor⦄ where
  -- While an operation is in progress Update does nothing at all: it returns no error, calls nothing
  -- and changes nothing.
  pub update_managed-in_progress :
      (s : Session SqlServer W)
      → s.object.at_provider.last_operation.status ≡ "InProgress"
      → update_managed e s ≡ ((no_details, none), s)
  unfolding update_managed
  update_managed-in_progress s h = rw h (ground arith)

  -- Where the connection secret has a password, Create reads that secret and then sends its password
  -- to Azure and returns it as the one to publish; no new password is asked for.
  pub create_managed-keeps_password :
      (s : Session SqlServer W) (ref : SecretReference) (secret : ConnectionDetails) (pw : String)
      (w : W)
      → s.object.write_connection_secret_to_ref ≡ some ref
      → ref.name ≢ ""
      → ref.namespace ≢ ""
      → e.get_secret ref s.world ≡ (ok secret, w)
      → secret.password ≡ some pw
      → pw ≢ ""
      → create_managed e s
        ≡ create_with e pw (record {
          object = record (s.object) { conditions = v.set_condition creating s.object.conditions };
          world = w;
        })
  unfolding create_managed
  create_managed-keeps_password s ref secret pw w h n ns g p ne =
      ground (arith, eq_iff ref.name "", eq_iff ref.namespace "", eq_iff pw "")

  pub method-create_server :
      (s t : Session SqlServer W) (pw : String)
      → create_server e.client pw s ≡ (none, t)
      → t.object.at_provider.last_operation.method ≡ "PUT"
  unfolding create_server
  method-create_server s t pw h = ground arith

  pub observe_server-in_progress :
      (s : Session SqlServer W) (w : W)
      → s.object.at_provider.last_operation.method ≡ "PUT"
      → s.object.at_provider.last_operation.polling_url ≢ ""
      → e.client.get s.object.for_provider.resource_group_name s.object.external_name s.world
        ≡ (err not_found, w)
      → e.futures.unmarshal_json (future_json s.object.at_provider.last_operation) ≡ none
      → (e.futures.done_with_context (future_json s.object.at_provider.last_operation) w).0.status
        ≡ "InProgress"
      → (observe_server e s).0 ≡ (record no_observation { resource_exists = true }, none)
  unfolding observe_server
  observe_server-in_progress s w m u g j p =
      let op = s.object.at_provider.last_operation in
      ground (
        arith,
        put_nonempty,
        eq_iff op.polling_url "",
        eq_iff op.method "",
        eq_iff op.method "PUT",
        eq_iff (e.futures.done_with_context (future_json op) w).0.status "InProgress",
      )

  -- A server is not created twice: after a creation has started, an observation that Azure answers
  -- by not found, while the creation is still in progress, says that the server exists.
  pub observe_server-create_server :
      (s t : Session SqlServer W) (pw : String) (w : W)
      → create_server e.client pw s ≡ (none, t)
      → t.object.at_provider.last_operation.polling_url ≢ ""
      → e.client.get t.object.for_provider.resource_group_name t.object.external_name t.world
        ≡ (err not_found, w)
      → e.futures.unmarshal_json (future_json t.object.at_provider.last_operation) ≡ none
      → (e.futures.done_with_context (future_json t.object.at_provider.last_operation) w).0.status
        ≡ "InProgress"
      → (observe_server e t).0 ≡ (record no_observation { resource_exists = true }, none)
  observe_server-create_server s t pw w c =
      observe_server-in_progress t w (method-create_server s t pw c)

  -- Either an error beside the empty observation, or an observation that agrees with the server and
  -- with the object.
  abbrev pub Found : Server → Observed × Session SqlServer W → Type 0
  Found server r =
      ((r.0.1 ≢ none) × (r.0.0 ≡ no_observation))
      ⊎ ((r.0.1 ≡ none)
          × (r.0.0.resource_exists ≡ true)
          × (r.0.0.resource_up_to_date ≡ is_postgresql_up_to_date r.1.object.for_provider server)
          × (r.1.object.at_provider.user_visible_state ≡ server.user_visible_state)
          × (r.1.object.conditions.ready
              ≡ some (if server.user_visible_state == "Ready" then available else unavailable)))

module _ {W : Type 0} (e : External W) ⦃v : Vendor⦄ (d : Documented v) where
  failed-Found :
      (server : Server) (x : Err) (text : String) (t : Session SqlServer W)
      → Found e server ((no_observation, v.wrap (some x) text), t)
  failed-Found server x text t = inl ((λ h. cc (h, d.wrap_error x text)), refl)

  fetched-Found :
      (x : Option Err) (server : Server) (t : Session SqlServer W)
      → t.object.at_provider.user_visible_state ≡ server.user_visible_state
      → Found e server (fetched e x server t)
  fetched-Found (some x) server t h = failed-Found server x _ t
  fetched-Found none server t h =
      inr (refl, refl, refl, h, rw (Documented-standard d) (ground arith))

  updated-Found :
      (x : Option Err) (server : Server) (t : Session SqlServer W)
      → Found e server (updated e x server t)
  unfolding update_postgresql_observation fetch_last_operation
  updated-Found (some x) server t = failed-Found server x _ t
  updated-Found none server t = fetched-Found _ server _ refl

  -- After Azure has answered with the server, either an error is returned with the empty observation,
  -- or the server exists, is ready exactly in the state "Ready", has the state that Azure reported,
  -- and is up to date if the specification that the API server stored agrees with it.
  pub observe_server-Found :
      (s : Session SqlServer W) (server : Server) (w : W)
      → e.client.get s.object.for_provider.resource_group_name s.object.external_name s.world
        ≡ (ok server, w)
      → Found e server (observe_server e s)
  unfolding observe_server
  observe_server-Found s server w g = rw g (updated-Found _ server _)

  abbrev deleting_session : Session SqlServer W → Session SqlServer W
  deleting_session s = (set_condition e deleting s).1

  dropped-error :
      (x : Option Err) (t : Session SqlServer W)
      → ((dropped e x (v.ignore is_not_found_error x) t).0 ≡ none)
        ⊎ ((y : Err) × (x ≡ some y) × (is_not_found (some y) ≡ false))
        ⊎ (e.futures.unmarshal_json (future_json t.object.at_provider.last_operation) ≢ none)
  unfolding fetch_last_operation
  dropped-error none t = rw (Documented-standard d) (ground arith)
  dropped-error (some x) t = rw (Documented-standard d) (elim (Bool-cases (is_not_found (some x))) [
    | inl h ↦ ground arith
    | inr h ↦ inr (inl (x, refl, h))
  ])

  delete_server-error :
      (s : Session SqlServer W) (x : Err)
      → (delete_server e.client s).0 ≡ some x
      → (e.client.delete s.object.for_provider.resource_group_name s.object.external_name s.world).0
        ≡ err x
  unfolding delete_server
  delete_server-error s x h = ground arith

  -- Delete reports an error only if Azure refused the deletion for another reason than that the
  -- server is not there, or if the future of an operation could not be restored.
  pub delete_managed-error :
      (s : Session SqlServer W)
      → let reply =
          (e.client.delete s.object.for_provider.resource_group_name s.object.external_name
            s.world).0 in
        ((delete_managed e s).0 ≡ none)
        ⊎ ((x : Err) × (reply ≡ err x) × (is_not_found (some x) ≡ false))
        ⊎ ((op : AsyncOperation) × (e.futures.unmarshal_json (future_json op) ≢ none))
  unfolding delete_managed
  delete_managed-error s =
      elim (Bool-cases (s.object.at_provider.user_visible_state == "Dropping")) [
        | inl h ↦ inl (rw h)
        | inr h ↦ rw h (elim (dropped-error _ _) [
          | inl a ↦ inl a
          | inr r ↦ elim r [
            | inl (y, p, q) ↦ inr (inl (y, delete_server-error (deleting_session s) y p, q))
            | inr u ↦ inr (
                inr (
                  (delete_server e.client (deleting_session s)).1.object.at_provider.last_operation,
                  u,
                ))
          ]
        ])
      ]
