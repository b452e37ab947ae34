-- ===== src/Aks/Provision.antt =====
-- What EnsureManagedCluster of pkg/clients/compute/aks.go does before it asks for a cluster.
use provider_azure.Prelude.{String, ◌≡◌, refl, ◌⊎◌, inl, inr, Option, none, some}
use provider_azure.Go.Errors.{Err, Result, ok, err}
use provider_azure.Vendor.{Vendor}
use provider_azure.Aks.{AksCluster}
use provider_azure.Aks.Sdk.{
  Application, ServicePrincipal, ManagedClusterParameters, AggregateClient,
}
use provider_azure.Aks.Params.{network_contributor_role_id, new_managed_cluster}
use provider_azure.Aks.Client.{
  done, outcome, ◌>=>◌, ensure_application, ensure_service_principal, ensure_role_assignment,
  ensure_managed_cluster,
}
use provider_azure.Aks.Applications.{outcome-done}
use provider_azure.Aks.Steps.{
  ApplicationStep, PrincipalStep, RoleStep, ensure_application-step, ensure_service_principal-step,
  ensure_role_assignment-step,
}

abbrev CreateOrUpdate : Type 0 → Type 0
CreateOrUpdate W = String → String → ManagedClusterParameters → W → Option Err × W

module _ {W : Type 0} (c : AggregateClient W) ⦃v : Vendor⦄ where
  -- The client with another call to create or update a cluster.
  abbrev pub with_cluster_call : CreateOrUpdate W → AggregateClient W
  with_cluster_call f = record c {
    managed_clusters = record (c.managed_clusters) { create_or_update = f };
  }

  module _ (ac : AksCluster) (secret : String) (w : W) where
    -- The application is there.
    abbrev pub HasApplication : Application → W → Type 0
    HasApplication app w1 = ApplicationStep c ac.external_name secret w (ok app) w1

    -- The application is there, and its principal.
    abbrev pub HasPrincipal : Application → ServicePrincipal → W → Type 0
    HasPrincipal app sp w2 =
        (w1 : W) × HasApplication app w1 × PrincipalStep c (v.string app.app_id) w1 (ok sp) w2

    -- One of the three steps has ended in the error, and those before it in what they are for.
    abbrev pub Failed : Err → W → Type 0
    Failed x w' =
        ApplicationStep c ac.external_name secret w (err x) w'
        ⊎ ((app : Application) × (w1 : W) × HasApplication app w1
            × PrincipalStep c (v.string app.app_id) w1 (err x) w')
        ⊎ ((app : Application) × (sp : ServicePrincipal) × (w2 : W) × HasPrincipal app sp w2
            × RoleStep c (v.string sp.object_id) ac.spec.vnet_subnet_id w2 (some x) w')

    -- A run that ends in an error of one of the steps, whatever the call for a cluster would do.
    abbrev Stopped : (CreateOrUpdate W → Option Err × W) → Type 0
    Stopped run =
        (x : Err) × (w' : W) × Failed x w' × ((f : CreateOrUpdate W) → run f ≡ (some x, w'))

    -- A run that has done all the steps and ends in asking for a cluster that acts as the application.
    abbrev Asked : (CreateOrUpdate W → Option Err × W) → Type 0
    Asked run =
        (app : Application) × (sp : ServicePrincipal) × (w2 w3 : W) × HasPrincipal app sp w2
        × RoleStep c (v.string sp.object_id) ac.spec.vnet_subnet_id w2 none w3
        × ((f : CreateOrUpdate W)
            → run f
              ≡ f ac.spec.resource_group_name ac.external_name
                  (new_managed_cluster ac (v.string app.app_id) secret) w3)

    abbrev pub Provisioned : (CreateOrUpdate W → Option Err × W) → Type 0
    Provisioned run = Stopped run ⊎ Asked run

    abbrev ask : CreateOrUpdate W → Application → W → Result (Unit {0}) × W
    ask f app w3 = done (
        f ac.spec.resource_group_name ac.external_name
          (new_managed_cluster ac (v.string app.app_id) secret) w3)

    with_role :
        (app : Application) (sp : ServicePrincipal) (w2 : W) (r : Option Err × W)
        → HasPrincipal app sp w2
        → RoleStep c (v.string sp.object_id) ac.spec.vnet_subnet_id w2 r.0 r.1
        → Provisioned (λ f. outcome (done r >=> λ u w3. ask f app w3))
    with_role app sp w2 (some x, w') p s = inl (x, w', inr (inr (app, sp, w2, p, s)), λ f. refl)
    with_role app sp w2 (none, w3) p s = inr (app, sp, w2, w3, p, s, λ f. outcome-done _)

    with_principal :
        (app : Application) (w1 : W) (r : Result ServicePrincipal × W)
        → HasApplication app w1
        → PrincipalStep c (v.string app.app_id) w1 r.0 r.1
        → Provisioned (λ f. outcome (
            r >=> λ sp w2.
            done (
              ensure_role_assignment c
                (v.string sp.object_id)
                network_contributor_role_id
                ac.spec.vnet_subnet_id
                w2)
            >=> λ u w3. ask f app w3))
    with_principal app w1 (err x, w') a s = inl (x, w', inr (inl (app, w1, a, s)), λ f. refl)
    with_principal app w1 (ok sp, w2) a s =
        with_role app sp w2 _ (w1, a, s) (ensure_role_assignment-step c _ _ w2)

    with_application :
        (r : Result Application × W)
        → ApplicationStep c ac.external_name secret w r.0 r.1
        → Provisioned (λ f. outcome (
            r >=> λ app w1. ensure_service_principal c (v.string app.app_id) w1 >=> λ sp w2.
            done (
              ensure_role_assignment c
                (v.string sp.object_id)
                network_contributor_role_id
                ac.spec.vnet_subnet_id
                w2)
            >=> λ u w3. ask f app w3))
    with_application (err x, w') s = inl (x, w', inl s, λ f. refl)
    with_application (ok app, w1) s =
        with_principal app w1 _ s (ensure_service_principal-step c _ w1)

  -- EnsureManagedCluster asks for a cluster only after all that it needs is there. Either an error of
  -- a step is returned, and no cluster is asked for; or three things have been done in this order, and
  -- it ends in asking once for a cluster with the application's identifier and the given secret,
  -- returning what Azure answers. The three: an application of the cluster's name was found and given
  -- a credential with the secret, or was created with the name and the credential when none was found;
  -- its service principal was read, or was created, enabled, after Azure had answered that there is
  -- none; and, where the cluster has a subnet, that principal was found to have a role there, or was
  -- given the role of network contributor when none was found.
  pub ensure_managed_cluster-Provisioned :
      (ac : AksCluster) (secret : String) (w : W)
      → Provisioned ac secret w (λ f. ensure_managed_cluster (with_cluster_call f) ac secret w)
  unfolding ensure_managed_cluster ensure_application ensure_service_principal
      ensure_role_assignment
  ensure_managed_cluster-Provisioned ac secret w =
      with_application ac secret w _ (ensure_application-step c _ _ w)
