-- ===== src/Aks/Controller.antt =====
-- pkg/controller/compute/managed.go: what the managed reconciler calls, over the interface AKSClient
-- that pkg/clients/compute/aks.go implements.
use provider_azure.Prelude.{
  String, Bool, true, false, ◌||◌, not, Option, none, some, ◌==◌, if◌then◌else◌,
}
use provider_azure.Go.Errors.{Err, message, Result, ok, err}
use provider_azure.Go.Maps.{GoMap, lookup, entries}
use provider_azure.Go.Effect.{M, ◌>>=◌, ◌>>◌, pure, get_object, modify, call}
use provider_azure.Vendor.{Vendor, Condition, available, creating, deleting}
use provider_azure.Azure.Convert.{is_not_found}
use provider_azure.Managed.{of_kind}
use provider_azure.Aks.{SecretReference, AksCluster}
use provider_azure.Aks.Sdk.{ManagedCluster, AggregateClient}
use provider_azure.Aks.Client.{
  get_managed_cluster, ensure_managed_cluster, delete_managed_cluster, get_kube_config,
}
use provider_azure.Aks.Kubeconfig.{
  KubeConfig, ClusterDetails, no_cluster_details, connection_details,
}

pub record ClusterObservation : Type 0 where
  pub resource_exists : Bool
  pub resource_up_to_date : Bool
  pub connection_details : ClusterDetails

abbrev pub no_cluster_observation : ClusterObservation
no_cluster_observation = record {
  resource_exists = false;
  resource_up_to_date = false;
  connection_details = no_cluster_details;
}

-- `external`: the secrets of the API server, by namespace and name, and `newPasswordFn`; and
-- `clientcmd.Load`.
pub record External (W : Type 0) : Type 0 where
  pub client : AggregateClient W
  pub get_secret : String → String → W → Result (GoMap String) × W
  pub new_password : W → Result String × W
  pub load : String → Result KubeConfig

abbrev pub err_not_aks_cluster : Err
err_not_aks_cluster = message "managed resource is not a AKSCluster"

module _ {W : Type 0} (e : External W) ⦃v : Vendor⦄ where
  abbrev set_condition : Condition → M AksCluster W (Unit {0})
  set_condition c = modify λ r. record r { conditions = v.set_condition c r.conditions }

  abbrev pub with_status : ManagedCluster → AksCluster → AksCluster
  with_status az cr = record cr {
    provider_id = v.string az.id;
    state = v.string az.provisioning_state;
    endpoint = v.string az.fqdn;
  }

  abbrev pub published : Result ClusterDetails → M AksCluster W (ClusterObservation × Option Err)
  published (err x) = pure (no_cluster_observation, v.wrap (some x) "cannot get AKSCluster")
  published (ok d) = do
    set_condition available
    pure (
      record { resource_exists = true; resource_up_to_date = true; connection_details = d },
      none,
    )

  abbrev pub configured : Result String → M AksCluster W (ClusterObservation × Option Err)
  configured (err x) =
      pure (no_cluster_observation, v.wrap (some x) "cannot get AKSCluster kubeconfig")
  configured (ok kubeconfig) = do
    cr ← get_object
    published (connection_details e.load kubeconfig cr.external_name)

  abbrev pub fetched : Result ManagedCluster → M AksCluster W (ClusterObservation × Option Err)
  fetched (err x) =
      if is_not_found (some x)
      then pure (no_cluster_observation, none)
      else pure (no_cluster_observation, v.wrap (some x) "cannot get AKSCluster")
  fetched (ok az) = do
    modify (with_status az)
    cr ← get_object
    if not (cr.state == "Succeeded")
        then pure (
          record no_cluster_observation { resource_exists = true; resource_up_to_date = true },
          none,
        )
        else (do kubeconfig ← call (get_kube_config e.client cr); configured kubeconfig)

  unfoldable pub observe_cluster : M AksCluster W (ClusterObservation × Option Err)
  unfolding get_managed_cluster get_kube_config connection_details
  observe_cluster = do cr ← get_object; az ← call (get_managed_cluster e.client cr); fetched az

  -- The zero value for a missing key.
  abbrev pub password_in : GoMap String → String
  password_in m = elim (lookup "password" (entries m)) [ none ↦ "" | some p ↦ p ]

  abbrev read_password : Result (GoMap String) × W → Result String × W
  read_password (err x, w) =
      (elim (v.wrap (some x) "cannot get connection secret") [ none ↦ ok "" | some y ↦ err y ], w)
  read_password (ok m, w) = (ok (password_in m), w)

  unfoldable pub get_password : Option SecretReference → W → Result String × W
  unfolding lookup
  get_password none w = (ok "", w)
  get_password (some ref) w =
      if ref.name == "" || ref.namespace == ""
      then (ok "", w)
      else read_password (e.get_secret ref.namespace ref.name w)

  abbrev ensured : String → M AksCluster W (ClusterDetails × Option Err)
  ensured pw = do
    cr ← get_object
    x ← call (ensure_managed_cluster e.client cr pw)
    pure (record no_cluster_details { password = some pw }, v.wrap x "cannot create AKSCluster")

  abbrev generated : Result String → M AksCluster W (ClusterDetails × Option Err)
  generated (err x) =
      pure (no_cluster_details, v.wrap (some x) "cannot generate service principal secret")
  generated (ok pw) = ensured pw

  abbrev with_password : Result String → M AksCluster W (ClusterDetails × Option Err)
  with_password (err x) = pure (no_cluster_details, some x)
  with_password (ok pw) = if pw == "" then (do r ← call e.new_password; generated r) else ensured pw

  unfoldable pub create_cluster : M AksCluster W (ClusterDetails × Option Err)
  unfolding get_password ensure_managed_cluster
  create_cluster = do
    set_condition creating
    cr ← get_object
    pw ← call (get_password cr.write_connection_secret_to)
    with_password pw

  -- Update does nothing, whatever the object is.
  unfoldable pub update : M (Option AksCluster) W (ClusterDetails × Option Err)
  update = pure (no_cluster_details, none)

  unfoldable pub delete_cluster : M AksCluster W (Option Err)
  unfolding delete_managed_cluster
  delete_cluster = do
    set_condition deleting
    cr ← get_object
    x ← call (delete_managed_cluster e.client cr)
    pure (v.wrap x "cannot delete AKSCluster")

  unfoldable pub observe : M (Option AksCluster) W (ClusterObservation × Option Err)
  unfolding observe_cluster
  observe = of_kind (no_cluster_observation, some err_not_aks_cluster) observe_cluster

  unfoldable pub create : M (Option AksCluster) W (ClusterDetails × Option Err)
  unfolding create_cluster
  create = of_kind (no_cluster_details, some err_not_aks_cluster) create_cluster

  unfoldable pub delete : M (Option AksCluster) W (Option Err)
  unfolding delete_cluster
  delete = of_kind (some err_not_aks_cluster) delete_cluster
