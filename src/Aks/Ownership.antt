-- ===== src/Aks/Ownership.antt =====
-- The application of a cluster, from EnsureManagedCluster to DeleteManagedCluster.
use provider_azure.Prelude.{
  String, ◌≡◌, refl, ap, ◌∙◌, ◌≢◌, Bool-cases, inl, inr, Option, none, some, List, [], ◌∷◌, ◌==◌,
}
use provider_azure.Go.Errors.{Err, Result, ok, err}
use provider_azure.Vendor.{Vendor, Documented}
use provider_azure.Azure.Convert.{is_not_found}
use provider_azure.Aks.{AksCluster}
use provider_azure.Aks.Params.{
  name_filter, principal_filter, network_contributor_role_id, new_managed_cluster,
}
use provider_azure.Aks.Sdk.{Listing, Application, ServicePrincipal, RoleAssignment, AggregateClient}
use provider_azure.Aks.Directory.{Directory, AtMostOne, Owned, at_name, ensure_application-Owned}
use provider_azure.Aks.Applications.{outcome-done}
use provider_azure.Aks.Client.{
  ◌>=>◌, done, outcome, ensure_application, principal_found, ensure_service_principal,
  create_assignment, assigned, with_name, ensure_role_assignment, ensure_managed_cluster,
  remove_listed, delete_named_application, delete_managed_cluster,
}

module _ {W : Type 0} (c : AggregateClient W) ⦃v : Vendor⦄ (dir : Directory c) where
  principal_found-keeps :
      (i : String) (r : Result (Option String) × W)
      → dir.apps (principal_found c i r).1 ≡ dir.apps r.1
  principal_found-keeps i (err e, w) = elim (Bool-cases (is_not_found (some e))) [
    | inl n ↦ rw n (dir.create_principal_keeps _ w)
    | inr n ↦ rw n refl
  ]
  principal_found-keeps i (ok r, w) = dir.get_principal_keeps _ w

  ensure_service_principal-keeps :
      (i : String) (w : W) → dir.apps (ensure_service_principal c i w).1 ≡ dir.apps w
  unfolding ensure_service_principal
  ensure_service_principal-keeps i w =
      principal_found-keeps i (c.applications.get_service_principals_id_by_app_id i w)
      ∙ dir.find_principal_keeps i w

  assigned-keeps :
      (p r s n : String) (l : Listing RoleAssignment × W)
      → dir.apps (assigned c (create_assignment c p r s n) l).1 ≡ dir.apps l.1
  assigned-keeps p r s n (([], x), w) = dir.create_assignment_keeps s n _ w
  assigned-keeps p r s n ((a ∷ l, x), w) = refl

  with_name-keeps :
      (p r s : String) (n : (String × Option Err) × W)
      → dir.apps (with_name c p r s n).1 ≡ dir.apps n.1
  with_name-keeps p r s ((n, some e), w) = refl
  with_name-keeps p r s ((n, none), w) =
      assigned-keeps p r s n _ ∙ dir.list_assignments_keeps s (principal_filter p) w

  ensure_role_assignment-keeps :
      (p r s : String) (w : W) → dir.apps (ensure_role_assignment c p r s w).1 ≡ dir.apps w
  unfolding ensure_role_assignment
  ensure_role_assignment-keeps p r s w = elim (Bool-cases (s == "")) [
    | inl e ↦ rw e refl
    | inr e ↦ rw e (with_name-keeps p r s _ ∙ dir.uuid_keeps w)
  ]

  -- What EnsureManagedCluster does once it has the application.
  module _ (ac : AksCluster) (secret : String) where
    abbrev after_assignment : Application → Result (Unit {0}) × W → Result (Unit {0}) × W
    after_assignment app r = r >=> λ u w3. done (
        c.managed_clusters.create_or_update ac.spec.resource_group_name ac.external_name
          (new_managed_cluster ac (v.string app.app_id) secret) w3)

    abbrev after_principal : Application → Result ServicePrincipal × W → Result (Unit {0}) × W
    after_principal app r = r >=> λ sp w2. after_assignment app (
        done (
          ensure_role_assignment c (v.string sp.object_id) network_contributor_role_id
            ac.spec.vnet_subnet_id w2))

    abbrev after_application : Result Application × W → Result (Unit {0}) × W
    after_application r =
        r >=> λ app w1. after_principal app (ensure_service_principal c (v.string app.app_id) w1)

    done-keeps : (r : Option Err × W) → dir.apps (done r).1 ≡ dir.apps r.1
    done-keeps (none, w) = refl
    done-keeps (some e, w) = refl

    after_assignment-keeps :
        (app : Application) (r : Result (Unit {0}) × W)
        → dir.apps (after_assignment app r).1 ≡ dir.apps r.1
    after_assignment-keeps app (err e, w) = refl
    after_assignment-keeps app (ok u, w) = done-keeps _ ∙ dir.put_cluster_keeps _ _ _ w

    after_principal-keeps :
        (app : Application) (r : Result ServicePrincipal × W)
        → dir.apps (after_principal app r).1 ≡ dir.apps r.1
    after_principal-keeps app (err e, w) = refl
    after_principal-keeps app (ok sp, w) =
        after_assignment-keeps app _ ∙ done-keeps _ ∙ ensure_role_assignment-keeps _ _ _ w

    after_application-keeps :
        (r : Result Application × W) → dir.apps (after_application r).1 ≡ dir.apps r.1
    after_application-keeps (err e, w) = refl
    after_application-keeps (ok app, w) =
        after_principal-keeps app _ ∙ ensure_service_principal-keeps _ w

    outcome-world : (r : Result (Unit {0}) × W) → (outcome r).1 ≡ r.1
    outcome-world (ok u, w) = refl
    outcome-world (err e, w) = refl

    ensure_managed_cluster-keeps :
        (w : W)
        → dir.apps (ensure_managed_cluster c ac secret w).1
          ≡ dir.apps (ensure_application c ac.external_name secret w).1
    unfolding ensure_managed_cluster
    ensure_managed_cluster-keeps w =
        ap (λ u. dir.apps u)
          (outcome-world (after_application (ensure_application c ac.external_name secret w)))
        ∙ after_application-keeps (ensure_application c ac.external_name secret w)

    -- Without an error, the application was returned on the way.
    ensured :
        (r : Result Application × W)
        → (outcome (after_application r)).0 ≡ none
        → (a : Application) × (r.0 ≡ ok a)
    ensured (err e, w) h = absurd (cc h)
    ensured (ok a, w) h = (a, refl)

  remove_listed-few :
      (n : String) (w u : W) (l : List Application)
      → dir.apps w n ≡ l
      → AtMostOne l
      → dir.apps u ≡ dir.apps w
      → (remove_listed c ((l, none), u)).0 ≡ none
      → (dir.apps (remove_listed c ((l, none), u)).1 n ≡ [])
        × ((m : String) → m ≢ n → dir.apps (remove_listed c ((l, none), u)).1 m ≡ dir.apps w m)
  remove_listed-few n w u [] h few k z = (at_name c dir n k ∙ h, λ m q. at_name c dir m k)
  remove_listed-few n w u (a ∷ []) h few k z =
      let (x, u') = c.applications.delete (v.string a.object_id) u in
      let (gone, beside) = dir.deleted n a x u u' (at_name c dir n k ∙ h) refl z in
      (gone, λ m q. beside m q ∙ at_name c dir m k)
  remove_listed-few n w u (a ∷ b ∷ l) h few k z = absurd few

  delete_named_application-few :
      (n : String) (w : W)
      → AtMostOne (dir.apps w n)
      → (delete_named_application c n w).0 ≡ none
      → (dir.apps (delete_named_application c n w).1 n ≡ [])
        × ((m : String) → m ≢ n → dir.apps (delete_named_application c n w).1 m ≡ dir.apps w m)
  unfolding delete_named_application
  delete_named_application-few n w few = rw (dir.searched n w) (
      remove_listed-few n w (c.applications.list_complete (name_filter n) w).1 (dir.apps w n) refl
        few (dir.search_keeps (name_filter n) w))

  -- The second step of DeleteManagedCluster.
  deleted-keeps :
      (ac : AksCluster) (r : Option Err × W)
      → let z = outcome (
          done r >=> λ u w'.
          done (c.managed_clusters.delete ac.spec.resource_group_name ac.external_name w')) in
        z.0 ≡ none → (r.0 ≡ none) × (dir.apps z.1 ≡ dir.apps r.1)
  deleted-keeps ac (some e, w) h = absurd (cc h)
  deleted-keeps ac (none, w) h = (
    refl,
    ap (λ (y : Option Err × W). dir.apps y.1) (outcome-done _) ∙ dir.delete_cluster_keeps _ _ w,
  )

  -- The worlds that EnsureManagedCluster can lead to, called any number of times, with anything in
  -- between that keeps the applications.
  pub data Ensured (ac : AksCluster) (w : W) : W → Type 0 where
    start : Ensured ac w w
    again :
        {u : W} (secret : String) (u' : W)
        → Ensured ac w u
        → dir.apps u' ≡ dir.apps (ensure_managed_cluster c ac secret u).1
        → Ensured ac w u'

  module _ (d : Documented v) (ac : AksCluster) where
    ensure-Owned :
        (secret : String) (w : W)
        → AtMostOne (dir.apps w ac.external_name)
        → Owned c dir ac.external_name w (ensure_application c ac.external_name secret w)
    ensure-Owned secret w few = ensure_application-Owned c dir d ac.external_name secret w few

    was_made :
        (secret : String) (w : W)
        → (ensure_managed_cluster c ac secret w).0 ≡ none
        → (a : Application) × ((ensure_application c ac.external_name secret w).0 ≡ ok a)
    unfolding ensure_managed_cluster
    was_made secret w h = ensured ac secret (ensure_application c ac.external_name secret w) h

    Ensured-few :
        {w u : W}
        → AtMostOne (dir.apps w ac.external_name)
        → Ensured ac w u
        → AtMostOne (dir.apps u ac.external_name)
          × ((m : String) → m ≢ ac.external_name → dir.apps u m ≡ dir.apps w m)
    Ensured-few few start = (few, λ m q. refl)
    Ensured-few few (again {u = u} secret u' o k) =
        let (one, same) = Ensured-few few o in
        let owned = ensure-Owned secret u one in
        let e = k ∙ ensure_managed_cluster-keeps ac secret u in
        (
          rw (at_name c dir ac.external_name e) owned.few,
          λ m q. at_name c dir m e ∙ owned.beside m q ∙ same m q,
        )

    -- However often EnsureManagedCluster is called, a cluster has one application, and
    -- DeleteManagedCluster takes it away. Suppose that Azure's directory of applications is as in
    -- `Directory`, where searches do not fail, and has at most one application of the cluster's name;
    -- and that nothing else adds or removes applications. If after any number of calls of
    -- EnsureManagedCluster, failed ones included, one more returns no error, then there is exactly
    -- one application of the name; and if DeleteManagedCluster thereafter returns no error, there is
    -- none, and every other name has the applications that it had at first.
    pub delete_managed_cluster-ensure_managed_cluster :
        (w u u' : W) (secret : String)
        → AtMostOne (dir.apps w ac.external_name)
        → Ensured ac w u
        → (ensure_managed_cluster c ac secret u).0 ≡ none
        → dir.apps u' ≡ dir.apps (ensure_managed_cluster c ac secret u).1
        → (delete_managed_cluster c ac u').0 ≡ none
        → ((a : Application) × (dir.apps (ensure_managed_cluster c ac secret u).1 ac.external_name
              ≡ a ∷ []))
          × (dir.apps (delete_managed_cluster c ac u').1 ac.external_name ≡ [])
          × ((m : String)
              → m ≢ ac.external_name
              → dir.apps (delete_managed_cluster c ac u').1 m ≡ dir.apps w m)
    unfolding delete_managed_cluster
    delete_managed_cluster-ensure_managed_cluster w u u' secret few o h k z =
        let n = ac.external_name in
        let (one, same) = Ensured-few few o in
        let owned = ensure-Owned secret u one in
        let e = ensure_managed_cluster-keeps ac secret u in
        let (a, made) = was_made secret u h in
        let single = owned.only a made in
        let (r, gone) = deleted-keeps ac (delete_named_application c n u') z in
        let (none_left, beside) =
          delete_named_application-few n u' (rw (at_name c dir n (k ∙ e) ∙ single) tt) r in
        (
          (a, at_name c dir n e ∙ single),
          at_name c dir n gone ∙ none_left,
          λ m q.
              at_name c dir m gone
              ∙ beside m q
              ∙ at_name c dir m (k ∙ e)
              ∙ owned.beside m q
              ∙ same m q,
        )
