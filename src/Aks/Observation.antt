-- ===== src/Aks/Observation.antt =====
-- What Observe publishes of a cluster, and the password that Create uses.
use provider_azure.Prelude.{
  String, false, ◌≡◌, refl, ap, ◌⊎◌, inl, inr, ◌≢◌, true, Option, none, some, arith, eq_iff,
  Bool-cases, ◌==◌,
}
use provider_azure.Go.Errors.{Err, Result, ok, err}
use provider_azure.Go.Maps.{GoMap, lookup, entries}
use provider_azure.Go.Effect.{Session}
use provider_azure.Vendor.{Vendor, available}
use provider_azure.Azure.Convert.{is_not_found}
use provider_azure.Aks.{AksCluster, SecretReference}
use provider_azure.Aks.Sdk.{ManagedCluster}
use provider_azure.Aks.Client.{get_managed_cluster, get_kube_config}
use provider_azure.Aks.Kubeconfig.{ClusterDetails, connection_details}
use provider_azure.Aks.Controller.{
  published, configured, fetched, with_status, External, ClusterObservation, observe_cluster,
  create_cluster, get_password, password_in,
}

not_empty : {s : String} → s ≢ "" → (s == "") ≡ false
not_empty {s = s} n = ground (arith, eq_iff s "")

Result-cases :
    {A W : Type 0} (r : Result A × W)
    → ((e : Err) × (w : W) × (r ≡ (err e, w))) ⊎ ((a : A) × (w : W) × (r ≡ (ok a, w)))
Result-cases (err e, w) = inl (e, w, refl)
Result-cases (ok a, w) = inr (a, w, refl)

module _ {W : Type 0} (e : External W) ⦃v : Vendor⦄ where
  -- The observation leaves the conditions as they were, or it is that the cluster is available: the
  -- last operation succeeded and Azure's kubeconfig has the details that are published.
  abbrev pub Available :
      Session AksCluster W → (ClusterObservation × Option Err) × Session AksCluster W → Type 0
  Available s ((o, x), t) =
      (t.object.conditions ≡ v.set_condition available s.object.conditions)
      × (x ≡ none)
      × (o.resource_exists ≡ true)
      × (t.object.state ≡ "Succeeded")
      × ((kubeconfig : String) × (connection_details e.load kubeconfig s.object.external_name
            ≡ ok o.connection_details))

  published-cases :
      (r : Result ClusterDetails) (t : Session AksCluster W)
      → ((published e r t).1.object.conditions ≡ t.object.conditions)
        ⊎ ((d : ClusterDetails) × (r ≡ ok d))
  published-cases (err x) t = inl refl
  published-cases (ok d) t = inr (d, refl)

  configured-Available :
      (r : Result String) (t : Session AksCluster W)
      → t.object.state ≡ "Succeeded"
      → ((configured e r t).1.object.conditions ≡ t.object.conditions)
        ⊎ Available t (configured e r t)
  configured-Available (err x) t h = inl refl
  configured-Available (ok file) t h =
      elim (published-cases (connection_details e.load file t.object.external_name) t) [
        | inl same ↦ inl same
        | inr (d, q) ↦ inr (rw q (refl, refl, refl, h, (file, q)))
      ]

  fetched-Available :
      (r : Result ManagedCluster) (t : Session AksCluster W)
      → ((fetched e r t).1.object.conditions ≡ t.object.conditions) ⊎ Available t (fetched e r t)
  fetched-Available (err x) t = elim (Bool-cases (is_not_found (some x))) [
    | inl h ↦ inl (rw h refl)
    | inr h ↦ inl (rw h refl)
  ]
  fetched-Available (ok az) t =
      let cr = with_status e az t.object in
      let (file, w) = get_kube_config e.client cr t.world in
      elim (Bool-cases (cr.state == "Succeeded")) [
        | inl h ↦ rw h (
            configured-Available file (record { object = cr; world = w })
              ((eq_iff cr.state "Succeeded").0 h))
        | inr h ↦ inl (rw h refl)
      ]

  -- Whatever Azure answers, Observe either leaves the conditions of the object as they are, or it
  -- marks the object as available; and then it returns no error, says that the cluster exists, has
  -- recorded that the last operation succeeded, and publishes the connection details that it reads
  -- from a kubeconfig for the context with the cluster's name.
  pub observe_cluster-Available :
      (s : Session AksCluster W)
      → ((observe_cluster e s).1.object.conditions ≡ s.object.conditions)
        ⊎ Available s (observe_cluster e s)
  unfolding observe_cluster
  observe_cluster-Available s =
      let (az, w) = get_managed_cluster e.client s.object s.world in
      fetched-Available az (record { object = s.object; world = w })

  found_password :
      (m : GoMap String) (p : String) → lookup "password" (entries m) ≡ some p → password_in e m ≡ p
  found_password m p l = rw (password_in, l) refl

  get_password-found :
      (ref : SecretReference) (m : GoMap String) (p : String) (w w' : W)
      → ref.name ≢ ""
      → ref.namespace ≢ ""
      → e.get_secret ref.namespace ref.name w ≡ (ok m, w')
      → lookup "password" (entries m) ≡ some p
      → get_password e (some ref) w ≡ (ok p, w')
  unfolding get_password
  get_password-found ref m p w w' n ns h l =
      rw (not_empty n, not_empty ns, h) (ap (λ (q : String). (ok q, w')) (found_password m p l))

  -- If the connection secret holds a password that is not empty, Create publishes that password
  -- and, whatever the generator of passwords does, runs as it does.
  pub create_cluster-password :
      (s : Session AksCluster W) (ref : SecretReference) (m : GoMap String) (p : String) (w : W)
      (g : W → Result String × W)
      → s.object.write_connection_secret_to ≡ some ref
      → ref.name ≢ ""
      → ref.namespace ≢ ""
      → e.get_secret ref.namespace ref.name s.world ≡ (ok m, w)
      → lookup "password" (entries m) ≡ some p
      → p ≢ ""
      → ((create_cluster e s).0.0.password ≡ some p)
        × (create_cluster (record e { new_password = g }) s ≡ create_cluster e s)
  unfolding create_cluster
  create_cluster-password s ref m p w g r n ns h l np =
      rw (r, get_password-found ref m p s.world w n ns h l, not_empty np) (refl, refl)
