-- ===== src/Connect/Tests.antt =====
-- Connect over a cluster with one provider, and clients that count their calls.
use Prim.Native.String.{◌++◌}
use provider_azure.Prelude.{
  ℕ, ◌+◌, String, Bool, true, false, ◌≡◌, refl, Option, none, some, List, [], ◌∷◌,
}
use provider_azure.Go.Errors.{ok, err, message}
use provider_azure.Go.Effect.{Session}
use provider_azure.Vendor.Standard.{standard, standard-Documented}
use provider_azure.Azure.Auth.{Managed, AuthEnv, index, get_auth_info, use_provider}
use provider_azure.Azure.Operation.{Futures}
use provider_azure.Sql.Configuration.{postgresql, ServerConfiguration}
use provider_azure.Sql.Configuration.Client.{ConfigurationsClient}
use provider_azure.Sql.Configuration.Controller.{External, create_configuration, texts_of}
use provider_azure.Azure.Connect.{connect, connect_subscription}
use provider_azure.Connect.Databases.{connect_postgresql_configuration}
use provider_azure.Aks.Sdk.{AggregateClient}
use provider_azure.Aks.Controller as Cluster
use provider_azure.Aks.Tests.{failing, external as cluster}
use provider_azure.Connect.Aks.{Adal, AksSdk, aggregate, new_aggregate_client, connect_cluster}
use provider_azure.Connect.Consistency.{Credits, Refreshed, connect_cluster-Refreshed}
use provider_azure.Connect.Naming.{
  connect_configuration, create_configuration-connect_configuration,
}

abbrev credentials : List (String × String)
credentials = ("clientId", "me") ∷ ("subscriptionId", "sub") ∷ ("tenantId", "us") ∷ []

-- A cluster with a provider whose secret holds the text of `credentials`.
abbrev env : AuthEnv ℕ String String
env = record {
  get_provider = λ n w. (ok (record { name = "s"; namespace = "ns"; key = "k" }), w + 1);
  get_secret = λ n ns w. (ok (("k", "text") ∷ []), w + 1);
  track_usage = λ mg w. (none, w + 1);
  get_provider_config = λ n w. (err (message "no such config"), w + 1);
  extract_credentials = λ s w. (ok s, w);
  unmarshal = λ t. ok credentials;
  new_client_credentials_config = λ i s t. record {
    client_id = i;
    client_secret = s;
    tenant_id = t;
    aad_endpoint = "";
    resource = "";
  };
  authorizer = λ c w. (some c.client_id, none, w + 1);
}

abbrev by_provider : Managed
by_provider = record { provider_config_ref = none; provider_ref = some "p" }

-- A client of the SDK that answers nothing and accepts everything.
abbrev configurations_client : String → Option String → ConfigurationsClient ℕ
configurations_client subscription a = record {
  get = λ g s n w. (err (message "down"), w + 1);
  create_or_update = λ g s n c w. (ok "url", w + 1);
}

abbrev sender : ConfigurationsClient ℕ → Futures ℕ
sender cl = record {
  unmarshal_json = λ j. none;
  done_with_context = λ j w. (record { status = "InProgress"; error = none }, w + 1);
  error_text = λ e. "";
}

abbrev late : Option String → Option String → Option String × Bool
late s from = (s, false)

abbrev configuration : ServerConfiguration
configuration = record {
  external_name = "";
  deleted = false;
  for_provider = record {
    resource_group_name = "rg";
    server_name = "db";
    name = "max_connections";
    value = some "8";
  };
  at_provider = record {
    id = "";
    name = "";
    type = "";
    data_type = "";
    value = "";
    default_value = "";
    source = "";
    description = "";
    last_operation = record { method = ""; polling_url = ""; status = ""; error_message = "" };
  };
  conditions = record { ready = none; synced = none };
}

abbrev external : External ℕ
external = record {
  client = configurations_client "sub" (some "me");
  futures = sender (configurations_client "sub" (some "me"));
  subscription_id = "sub";
  late_initialize = late;
}

connected :
    connect_configuration env ⦃v = standard⦄ configurations_client sender late postgresql
      by_provider 0
    ≡ ((some external, none), 3)
unfolding connect_postgresql_configuration connect_subscription connect get_auth_info use_provider
connected = refl

abbrev session : Session ServerConfiguration ℕ
session = record { object = configuration; world = 3 }

abbrev created : Session ServerConfiguration ℕ
created = (create_configuration (texts_of postgresql) external ⦃v = standard⦄ session).1

creates :
    create_configuration (texts_of postgresql) external ⦃v = standard⦄ session
    ≡ ((true, none), created)
unfolding create_configuration
creates = refl

create_configuration-connect_configuration_example :
    (m : List (String × String)) × (a : Option String) × Credits env m a
    × (external.client ≡ configurations_client (index m "subscriptionId") a)
    × (created.object.external_name
        ≡ "/subscriptions/"
          ++ (index m "subscriptionId"
              ++ "/resourceGroups/rg/providers/Microsoft.DBforPostgreSQL/servers/db/configurations/max_connections"))
create_configuration-connect_configuration_example =
    create_configuration-connect_configuration env ⦃v = standard⦄ standard-Documented
      configurations_client sender late postgresql by_provider 0 external 3 session created none
      connected creates

abbrev adal : Adal ℕ String String
adal = record {
  new_oauth_config = λ endpoint tenant. ok tenant;
  new_service_principal_token = λ c i s r. ok i;
  refresh = λ t w. (none, w + 1);
}

abbrev shown : Option String → String
shown none = ""
shown (some a) = a

-- Clients that are made for a subscription or a tenant, and show whose authorizer they have.
abbrev sdk : AksSdk ℕ String String
sdk = record {
  new_managed_clusters_client = λ subscription a. record (failing.managed_clusters) {
    delete = λ g n w. (some (message (shown a)), w);
  };
  new_role_assignments_client =
      λ subscription a. record (failing.role_assignments) { subscription_id = subscription };
  new_applications_client = λ tenant a. record (failing.applications) {
    delete = λ i w. (some (message (tenant ++ shown a)), w);
  };
  new_service_principals_client = λ tenant a. failing.service_principals;
  new_bearer_authorizer = λ token. "bearer " ++ token;
  runtime = failing.runtime;
}

abbrev cluster_external : AggregateClient ℕ → Cluster.External ℕ
cluster_external c = record cluster { client = c }

abbrev cluster_connected : Cluster.External ℕ
cluster_connected =
    cluster_external (aggregate adal ⦃v = standard⦄ sdk (some credentials) (some "me") "me")

connect_cluster_runs :
    connect_cluster env adal ⦃v = standard⦄ sdk cluster_external by_provider 0
    ≡ ((some cluster_connected, none), 4)
unfolding connect_cluster connect get_auth_info use_provider new_aggregate_client
connect_cluster_runs = refl

connect_cluster-Refreshed_example :
    (m : List (String × String)) × (a : Option String) × (c : AggregateClient ℕ) × Credits env m a
    × Refreshed adal ⦃v = standard⦄ sdk m a c 4
    × (cluster_connected ≡ cluster_external c)
connect_cluster-Refreshed_example =
    connect_cluster-Refreshed env adal ⦃v = standard⦄ standard-Documented sdk cluster_external
      by_provider 0 cluster_connected 4 connect_cluster_runs
