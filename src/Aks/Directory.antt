-- ===== src/Aks/Directory.antt =====
-- What the client of clusters relies on in Azure's directory of applications, and the steps of
-- EnsureManagedCluster over it.
use provider_azure.Prelude.{String, ◌≡◌, refl, ap, ◌∙◌, ◌≢◌, Option, none, some, List, [], ◌∷◌}
use provider_azure.Go.Errors.{Err, Result, ok, err}
use provider_azure.Vendor.{Vendor, Documented}
use provider_azure.Azure.Convert.{is_not_found_error}
use provider_azure.Aks.Params.{name_filter}
use provider_azure.Aks.Sdk.{
  PasswordCredential, Application, ApplicationCreateParameters, ServicePrincipalCreateParameters,
  RoleAssignmentProperties, ManagedClusterParameters, AggregateClient,
}
use provider_azure.Aks.Client.{
  new_password_credential, updated, listed, with_credential, ensure_application,
}

-- The applications by their display names. A search answers, without an error, with the
-- applications of its name; a creation adds one to its name, if it has no error; a deletion by the
-- object identifier of the only application of a name leaves this name without one, if it has no
-- error or finds nothing; and nothing else adds or removes an application.
pub record Directory {W : Type 0} (c : AggregateClient W) ⦃v : Vendor⦄ : Type 0 where
  pub apps : W → String → List Application
  pub searched :
      (n : String) (w : W) → (c.applications.list_complete (name_filter n) w).0 ≡ (apps w n, none)
  pub created :
      (p : ApplicationCreateParameters) (n : String) (a : Application) (w w' : W)
      → p.display_name ≡ some n
      → c.applications.create p w ≡ (ok a, w')
      → (apps w' n ≡ a ∷ apps w n) × ((m : String) → m ≢ n → apps w' m ≡ apps w m)
  pub not_created :
      (p : ApplicationCreateParameters) (e : Err) (w w' : W)
      → c.applications.create p w ≡ (err e, w')
      → apps w' ≡ apps w
  pub deleted :
      (n : String) (a : Application) (x : Option Err) (w w' : W)
      → apps w n ≡ a ∷ []
      → c.applications.delete (v.string a.object_id) w ≡ (x, w')
      → v.ignore is_not_found_error x ≡ none
      → (apps w' n ≡ []) × ((m : String) → m ≢ n → apps w' m ≡ apps w m)
  pub uuid_keeps : (w : W) → apps (c.runtime.new_uuid w).1 ≡ apps w
  pub now_keeps : (w : W) → apps (c.runtime.now w).1 ≡ apps w
  pub search_keeps : (f : String) (w : W) → apps (c.applications.list_complete f w).1 ≡ apps w
  pub update_keeps :
      (i : String) (l : List PasswordCredential) (w : W)
      → apps (c.applications.update_password_credentials i l w).1 ≡ apps w
  pub find_principal_keeps :
      (i : String) (w : W)
      → apps (c.applications.get_service_principals_id_by_app_id i w).1 ≡ apps w
  pub create_principal_keeps :
      (p : ServicePrincipalCreateParameters) (w : W)
      → apps (c.service_principals.create p w).1 ≡ apps w
  pub get_principal_keeps : (i : String) (w : W) → apps (c.service_principals.get i w).1 ≡ apps w
  pub list_assignments_keeps :
      (s f : String) (w : W) → apps (c.role_assignments.list_for_scope_complete s f w).1 ≡ apps w
  pub create_assignment_keeps :
      (s n : String) (p : RoleAssignmentProperties) (w : W)
      → apps (c.role_assignments.create s n p w).1 ≡ apps w
  pub put_cluster_keeps :
      (g n : String) (p : ManagedClusterParameters) (w : W)
      → apps (c.managed_clusters.create_or_update g n p w).1 ≡ apps w
  pub delete_cluster_keeps :
      (g n : String) (w : W) → apps (c.managed_clusters.delete g n w).1 ≡ apps w

abbrev pub AtMostOne : List Application → Type 0
AtMostOne [] = Unit
AtMostOne (a ∷ []) = Unit
AtMostOne (a ∷ b ∷ l) = ⊥

module _ {W : Type 0} (c : AggregateClient W) ⦃v : Vendor⦄ (dir : Directory c) where
  pub at_name : {u w : W} (m : String) → dir.apps u ≡ dir.apps w → dir.apps u m ≡ dir.apps w m
  at_name m e = ap (λ (f : String → List Application). f m) e

  -- What a step for the application of the name `n` leaves: the other names as they were, at most one
  -- application of this name, and just the one that it returns, if it returns one.
  pub record Owned (n : String) (w : W) (r : Result Application × W) : Type 0 where
    pub beside : (m : String) → m ≢ n → dir.apps r.1 m ≡ dir.apps w m
    pub few : AtMostOne (dir.apps r.1 n)
    pub only : (a : Application) → r.0 ≡ ok a → dir.apps r.1 n ≡ a ∷ []

  -- From a world with the same applications.
  Owned-same :
      (n : String) (w u : W) (r : Result Application × W)
      → dir.apps u ≡ dir.apps w
      → Owned n u r
      → Owned n w r
  Owned-same n w u r e o = record {
    beside = λ m h. o.beside m h ∙ at_name m e;
    few = o.few;
    only = o.only;
  }

  -- A step that fails and keeps the applications.
  failed-Owned :
      (n : String) (w : W) (e : Err) (u : W)
      → AtMostOne (dir.apps w n)
      → dir.apps u ≡ dir.apps w
      → Owned n w (err e, u)
  failed-Owned n w e u few k = record {
    beside = λ m h. at_name m k;
    few = rw (at_name n k) few;
    only = λ a h. absurd (cc h);
  }

  updated-Owned :
      (n : String) (a : Application) (w : W) (x : Option Err × W)
      → dir.apps w n ≡ a ∷ []
      → dir.apps x.1 ≡ dir.apps w
      → Owned n w (updated c a x)
  updated-Owned n a w (some e, u) h k = failed-Owned n w e u (rw h tt) k
  updated-Owned n a w (none, u) h k = record {
    beside = λ m h. at_name m k;
    few = rw (at_name n k ∙ h) tt;
    only = λ b q. at_name n k ∙ h ∙ cc q;
  }

  made-Owned :
      (d : Documented v) (n : String) (p : ApplicationCreateParameters) (w : W)
      (r : Result Application × W)
      → p.display_name ≡ some n
      → dir.apps w n ≡ []
      → c.applications.create p w ≡ r
      → Owned n w r
  made-Owned d n p w (err e, u) q h k = failed-Owned n w e u (rw h tt) (dir.not_created p e w u k)
  made-Owned d n p w (ok a, u) q h k =
      let (made, beside) = dir.created p n a w u q k in
      record {
        beside = beside;
        few = rw (made, h) tt;
        only = λ b z. made ∙ ap (λ (l : List Application). a ∷ l) h ∙ cc z;
      }

  listed-Owned :
      (d : Documented v) (n : String) (pc : PasswordCredential) (w : W) (l : List Application)
      → dir.apps w n ≡ l
      → AtMostOne l
      → Owned n w (listed c n pc ((l, none), w))
  listed-Owned d n pc w [] h few = made-Owned d n _ w _ (d.string_ptr_value n) h refl
  listed-Owned d n pc w (a ∷ []) h few = updated-Owned n a w _ h (dir.update_keeps _ _ w)
  listed-Owned d n pc w (a ∷ b ∷ l) h few = absurd few

  searched-Owned :
      (d : Documented v) (n : String) (pc : PasswordCredential) (w : W)
      → AtMostOne (dir.apps w n)
      → Owned n w (listed c n pc (c.applications.list_complete (name_filter n) w))
  searched-Owned d n pc w few =
      let k = dir.search_keeps (name_filter n) w in
      let u = (c.applications.list_complete (name_filter n) w).1 in
      rw (dir.searched n w)
        (Owned-same n w u _ k (listed-Owned d n pc u (dir.apps w n) (at_name n k) few))

  with_credential-Owned :
      (d : Documented v) (n : String) (w : W) (x : (PasswordCredential × Option Err) × W)
      → AtMostOne (dir.apps w n)
      → dir.apps x.1 ≡ dir.apps w
      → Owned n w (with_credential c n x)
  with_credential-Owned d n w ((pc, some e), u) few k = failed-Owned n w e u few k
  with_credential-Owned d n w ((pc, none), u) few k =
      Owned-same n w u _ k (searched-Owned d n pc u (rw (at_name n k) few))

  pub ensure_application-Owned :
      (d : Documented v) (n secret : String) (w : W)
      → AtMostOne (dir.apps w n)
      → Owned n w (ensure_application c n secret w)
  unfolding ensure_application
  ensure_application-Owned d n secret w few =
      with_credential-Owned d n w (new_password_credential c secret w) few
        (dir.now_keeps _ ∙ dir.now_keeps _ ∙ dir.uuid_keeps w)
