-- ===== src/Aks/Client.antt =====
-- pkg/clients/compute/aks.go: the client of clusters, with the applications, the service principals
-- and the role assignments that they need.
use Prim.Native.String.{◌++◌}
use provider_azure.Prelude.{
  String, true, false, Option, none, some, List, [], ◌∷◌, ◌==◌, if◌then◌else◌,
}
use provider_azure.Go.Errors.{Err, message, Result, ok, err}
use provider_azure.Vendor.{Vendor}
use provider_azure.Azure.Convert.{is_not_found, is_not_found_error, to_string_ptr}
use provider_azure.Aks.{AksCluster}
use provider_azure.Aks.Params.{
  network_contributor_role_id, app_creds_valid_years, name_filter, principal_filter,
  new_managed_cluster,
}
use provider_azure.Aks.Sdk.{
  Listing, PasswordCredential, Application, ServicePrincipal, ManagedCluster, AggregateClient,
}

-- What a step returns goes on to the next, unless it is an error.
infixl 5 ◌>=>◌
abbrev pub ◌>=>◌ : {A B W : Type 0} → Result A × W → (A → W → Result B × W) → Result B × W
◌>=>◌ (ok a, w) k = k a w
◌>=>◌ (err e, w) k = (err e, w)

-- A step that returns an error only.
abbrev pub done : {W : Type 0} → Option Err × W → Result (Unit {0}) × W
done (none, w) = (ok tt, w)
done (some e, w) = (err e, w)

abbrev pub outcome : {W : Type 0} → Result (Unit {0}) × W → Option Err × W
outcome (ok u, w) = (none, w)
outcome (err e, w) = (some e, w)

module _ {W : Type 0} (c : AggregateClient W) ⦃v : Vendor⦄ where
  unfoldable pub get_managed_cluster : AksCluster → W → Result ManagedCluster × W
  get_managed_cluster ac = c.managed_clusters.get ac.spec.resource_group_name ac.external_name

  -- The calls: the identifier, then the time, twice.
  abbrev pub new_password_credential : String → W → (PasswordCredential × Option Err) × W
  new_password_credential secret w =
      let ((id, x), w1) = c.runtime.new_uuid w in
      let (start, w2) = c.runtime.now w1 in
      let (end, w3) = c.runtime.now w2 in
      (
        (
          record {
            start_date = some start;
            end_date = some (c.runtime.add_years app_creds_valid_years end);
            key_id = v.string_ptr id;
            value = v.string_ptr secret;
          },
          x,
        ),
        w3,
      )

  abbrev pub url_of : String → String
  url_of name = "api://" ++ (name ++ ".aks.crossplane.io")

  abbrev pub create_named_application : String → PasswordCredential → W → Result Application × W
  create_named_application name pc = c.applications.create (record {
    available_to_other_tenants = v.bool_ptr false;
    display_name = v.string_ptr name;
    homepage = v.string_ptr (url_of name);
    identifier_uris = some (url_of name ∷ []);
    password_credentials = some (pc ∷ []);
  })

  abbrev pub updated : Application → Option Err × W → Result Application × W
  updated app (some e, w) = (err e, w)
  updated app (none, w) = (ok app, w)

  -- The loop returns in its first round, if there is one; the error beside an iterator without
  -- items is not looked at.
  abbrev pub listed : String → PasswordCredential → Listing Application × W → Result Application × W
  listed name pc (([], x), w) = create_named_application name pc w
  listed name pc ((app ∷ l, some e), w) = (err e, w)
  listed name pc ((app ∷ l, none), w) =
      updated app (c.applications.update_password_credentials (v.string app.object_id) (pc ∷ []) w)

  abbrev pub with_credential :
      String → (PasswordCredential × Option Err) × W → Result Application × W
  with_credential name ((pc, some e), w) = (err e, w)
  with_credential name ((pc, none), w) =
      listed name pc (c.applications.list_complete (name_filter name) w)

  unfoldable pub ensure_application : String → String → W → Result Application × W
  ensure_application name secret w = with_credential name (new_password_credential secret w)

  abbrev pub principal_found : String → Result (Option String) × W → Result ServicePrincipal × W
  principal_found app_id (err e, w) =
      if is_not_found (some e)
      then c.service_principals.create
          (record { app_id = v.string_ptr app_id; account_enabled = v.bool_ptr true }) w
      else (err e, w)
  principal_found app_id (ok r, w) = c.service_principals.get (v.string r) w

  unfoldable pub ensure_service_principal : String → W → Result ServicePrincipal × W
  unfolding is_not_found
  ensure_service_principal app_id w =
      principal_found app_id (c.applications.get_service_principals_id_by_app_id app_id w)

  abbrev pub create_assignment : String → String → String → String → W → Option Err × W
  create_assignment principal_id role_id scope name = c.role_assignments.create scope name (record {
    role_definition_id =
        to_string_ptr ("/subscriptions/" ++ (c.role_assignments.subscription_id ++ role_id)) [];
    principal_id = to_string_ptr principal_id [];
  })

  abbrev pub assigned : {A : Type 0} → (W → Option Err × W) → Listing A × W → Option Err × W
  assigned create (([], x), w) = create w
  assigned create ((a ∷ l, x), w) = (x, w)

  abbrev pub with_name : String → String → String → (String × Option Err) × W → Option Err × W
  with_name principal_id role_id scope ((name, some e), w) = (some e, w)
  with_name principal_id role_id scope ((name, none), w) =
      assigned (create_assignment principal_id role_id scope name)
        (c.role_assignments.list_for_scope_complete scope (principal_filter principal_id) w)

  unfoldable pub ensure_role_assignment : String → String → String → W → Option Err × W
  unfolding to_string_ptr
  ensure_role_assignment principal_id role_id scope w =
      if scope == "" then (none, w) else with_name principal_id role_id scope (c.runtime.new_uuid w)

  unfoldable pub ensure_managed_cluster : AksCluster → String → W → Option Err × W
  unfolding ensure_application ensure_service_principal ensure_role_assignment new_managed_cluster
  ensure_managed_cluster ac secret w = outcome (
      ensure_application ac.external_name secret w >=> λ app w1.
      ensure_service_principal (v.string app.app_id) w1 >=> λ sp w2.
      done (
        ensure_role_assignment (v.string sp.object_id) network_contributor_role_id
          ac.spec.vnet_subnet_id w2)
      >=> λ u w3. done (
          c.managed_clusters.create_or_update ac.spec.resource_group_name ac.external_name
            (new_managed_cluster ac (v.string app.app_id) secret) w3))

  -- The first application that matches is deleted.
  abbrev pub remove_listed : Listing Application × W → Option Err × W
  remove_listed (([], x), w) = (none, w)
  remove_listed ((app ∷ l, some e), w) = (some e, w)
  remove_listed ((app ∷ l, none), w) =
      let (x, w') = c.applications.delete (v.string app.object_id) w in
      (v.ignore is_not_found_error x, w')

  unfoldable pub delete_named_application : String → W → Option Err × W
  unfolding is_not_found
  delete_named_application name w =
      remove_listed (c.applications.list_complete (name_filter name) w)

  unfoldable pub delete_managed_cluster : AksCluster → W → Option Err × W
  unfolding delete_named_application
  delete_managed_cluster ac w = outcome (
      done (delete_named_application ac.external_name w) >=> λ u w'.
      done (c.managed_clusters.delete ac.spec.resource_group_name ac.external_name w'))

  abbrev pub no_kubeconfig : Err
  no_kubeconfig = message "zero kubeconfig credentials returned"

  -- The first of the kubeconfig files.
  abbrev first_value : Option (List (Option String)) → Result String
  first_value none = err no_kubeconfig
  first_value (some []) = err no_kubeconfig
  first_value (some (none ∷ l)) = err no_kubeconfig
  first_value (some (some f ∷ l)) = ok f

  unfoldable pub get_kube_config : AksCluster → W → Result String × W
  get_kube_config ac w =
      c.managed_clusters.list_cluster_admin_credentials ac.spec.resource_group_name ac.external_name
        w
      >=> λ files w'. (first_value files, w')
