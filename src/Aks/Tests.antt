-- ===== src/Aks/Tests.antt =====
-- A cluster whose application cannot be searched for: the world counts the calls.
use provider_azure.Prelude.{
  ℕ, ◌+◌, ◌≡◌, refl, ◌⊎◌, String, ◌≢◌, arith, eq_iff, false, none, some, [], ◌∷◌,
}
use provider_azure.Go.Errors.{Err, message, ok}
use provider_azure.Go.Maps.{lookup}
use provider_azure.Go.Effect.{Session}
use provider_azure.Vendor.Standard.{standard}
use provider_azure.Aks.{AksCluster}
use provider_azure.Aks.Sdk.{Listing, Application, AggregateClient}
use provider_azure.Aks.Kubeconfig.{KubeConfig}
use provider_azure.Aks.Controller.{External, observe_cluster}
use provider_azure.Aks.Provision.{
  Provisioned, with_cluster_call, ensure_managed_cluster-Provisioned,
}
use provider_azure.Aks.Client.{ensure_managed_cluster}
use provider_azure.Aks.Observation.{Available, observe_cluster-Available}

abbrev pub cluster : AksCluster
cluster = record {
  external_name = "prod";
  spec = record {
    resource_group_name = "rg";
    location = "west";
    version = "1.22";
    vnet_subnet_id = "subnet";
    node_count = none;
    node_vm_size = "small";
    dns_name_prefix = "prod";
    disable_rbac = false;
  };
  write_connection_secret_to = some (record { name = "prod"; namespace = "default" });
  state = "";
  provider_id = "";
  endpoint = "";
  conditions = record { ready = none; synced = none };
}

abbrev client_with : Listing Application → AggregateClient ℕ
client_with apps = record {
  role_assignments = record {
    subscription_id = "sub";
    list_for_scope_complete = λ s f w. (([], none), w + 1);
    create = λ s n p w. (none, w + 1);
  };
  managed_clusters = record {
    get = λ g n w. (
      ok (record {
        id = some "id";
        provisioning_state = some "Succeeded";
        fqdn = some "prod.example.org";
      }),
      w + 1,
    );
    create_or_update = λ g n p w. (none, w + 1);
    delete = λ g n w. (none, w + 1);
    list_cluster_admin_credentials = λ g n w. (ok (some (some "kubeconfig" ∷ [])), w + 1);
  };
  applications = record {
    list_complete = λ f w. (apps, w + 1);
    update_password_credentials = λ i p w. (none, w + 1);
    create = λ p w. (ok (record { app_id = some "app"; object_id = some "o" }), w + 1);
    delete = λ i w. (none, w + 1);
    get_service_principals_id_by_app_id = λ a w. (ok (some "p"), w + 1);
  };
  service_principals = record {
    create = λ p w. (ok (record { object_id = some "p" }), w + 1);
    get = λ i w. (ok (record { object_id = some "p" }), w + 1);
  };
  runtime = record {
    new_uuid = λ w. (("uuid", none), w + 1);
    now = λ w. (w, w + 1);
    add_years = λ n t. t;
  };
}

abbrev lost : Err
lost = message "connection lost"

abbrev pub failing : AggregateClient ℕ
failing = client_with ([], some lost)

ensure_managed_cluster-Provisioned_example :
    Provisioned failing ⦃v = standard⦄ cluster "secret" 0 (λ f.
      ensure_managed_cluster
        (with_cluster_call failing ⦃v = standard⦄ f)
        ⦃v = standard⦄
        cluster
        "secret"
        0)
ensure_managed_cluster-Provisioned_example =
    ensure_managed_cluster-Provisioned failing ⦃v = standard⦄ cluster "secret" 0

abbrev config : KubeConfig
config = record {
  contexts = ("prod", record { cluster = "c"; auth_info = "a" }) ∷ [];
  clusters = ("c", record { server = "https://prod"; certificate_authority_data = "ca" }) ∷ [];
  auth_infos = ("a", record { client_certificate_data = "cert"; client_key_data = "key" }) ∷ [];
}

abbrev pub external : External ℕ
external = record {
  client = client_with (record { app_id = some "app"; object_id = some "o" } ∷ [], none);
  get_secret = λ ns n w. (ok (some (("password", "old") ∷ [])), w + 1);
  new_password = λ w. (ok "new", w + 1);
  load = λ f. ok config;
}

abbrev session : Session AksCluster ℕ
session = record { object = cluster; world = 0 }

published_endpoint :
    (observe_cluster external ⦃v = standard⦄ session).0.0.connection_details.endpoint
    ≡ some "https://prod"
unfolding observe_cluster
published_endpoint = refl

observe_cluster-Available_example :
    ((observe_cluster external ⦃v = standard⦄ session).1.object.conditions
      ≡ record { ready = none; synced = none })
    ⊎ Available external ⦃v = standard⦄ session (observe_cluster external ⦃v = standard⦄ session)
observe_cluster-Available_example = observe_cluster-Available external ⦃v = standard⦄ session

prod-ne-empty : ◌≢◌ {A = String} "prod" ""
prod-ne-empty = ground (arith, eq_iff "prod" "")

default-ne-empty : ◌≢◌ {A = String} "default" ""
default-ne-empty = ground (arith, eq_iff "default" "")

old-ne-empty : ◌≢◌ {A = String} "old" ""
old-ne-empty = ground (arith, eq_iff "old" "")

found : lookup {V = String} "password" (("password", "old") ∷ []) ≡ some "old"
unfolding lookup
found = refl
