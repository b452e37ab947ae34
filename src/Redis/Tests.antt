-- ===== src/Redis/Tests.antt =====
-- A Redis cache over a concrete Azure: the world counts the calls.
use provider_azure.Prelude.{
  ℕ, ◌+◌, ◌≡◌, refl, ◌≢◌, ◌↔◌, String, false, none, some, [], ◌∷◌, arith, eq_iff,
}
use provider_azure.Go.Errors.{ok, message}
use provider_azure.Go.Effect.{Session}
use provider_azure.Vendor.Standard.{standard, standard-Documented}
use provider_azure.Redis.Types.{
  RedisParameters, RedisObservation, Redis, RedisProperties, ResourceType,
}
use provider_azure.Redis.Params.{needs_update}
use provider_azure.Redis.Drift.{InSync, needs_update_iff}
use provider_azure.Redis.Controller.{External, observe_redis}
use provider_azure.Redis.Lifecycle.{Seen, observe_redis-Seen}

abbrev parameters : RedisParameters
parameters = record {
  resource_group_name = "rg";
  sku = record { name = "Basic"; family = "C"; capacity = 1 };
  location = "west";
  subnet_id = none;
  static_ip = none;
  redis_configuration = some (("maxclients", "100") ∷ []);
  enable_non_ssl_port = some false;
  tenant_settings = none;
  shard_count = none;
  minimum_tls_version = some "1.2";
  zones = none;
  tags = none;
}

abbrev properties : RedisProperties
properties = record {
  redis_version = some "3.2";
  provisioning_state = "Succeeded";
  host_name = some "host";
  port = some 6379;
  ssl_port = some 6380;
  linked_servers = none;
  sku = some (record { name = "Basic"; family = "C"; capacity = some 1 });
  subnet_id = none;
  static_ip = none;
  redis_configuration = some (("maxmemory", some "9") ∷ ("maxclients", some "100") ∷ []);
  enable_non_ssl_port = some false;
  tenant_settings = none;
  shard_count = none;
  minimum_tls_version = "1.2";
}

abbrev cache : ResourceType
cache = record {
  id = some "id";
  name = some "cache";
  zones = none;
  tags = none;
  properties = some properties;
}

needs_update_iff_example :
    (needs_update ⦃v = standard⦄ parameters cache ≡ false)
    ↔ InSync ⦃v = standard⦄ parameters properties
needs_update_iff_example =
    needs_update_iff ⦃v = standard⦄ standard-Documented parameters cache properties refl (tt, tt) tt

abbrev observation : RedisObservation
observation = record {
  redis_version = "";
  provisioning_state = "Creating";
  host_name = "";
  port = 0;
  ssl_port = 0;
  linked_servers = none;
  id = "";
  name = "";
}

abbrev object : Redis
object = record {
  external_name = "cache";
  for_provider = parameters;
  at_provider = observation;
  conditions = record { ready = none; synced = none };
}

abbrev session : Session Redis ℕ
session = record { object = object; world = 0 }

abbrev external : External ℕ
external = record {
  update_object = λ cr w. (ok cr, w + 1);
  client = record {
    get = λ g n w. (ok cache, w + 1);
    list_keys = λ g n w. (ok (some "key"), w + 1);
    create = λ g n p w. (none, w + 1);
    update = λ g n p w. (none, w + 1);
    delete = λ g n w. (some (message "locked"), w + 1);
  };
}

observe_redis-Seen_example :
    Seen ⦃v = standard⦄ external cache (observe_redis external ⦃v = standard⦄ session)
observe_redis-Seen_example =
    observe_redis-Seen external ⦃v = standard⦄ standard-Documented session cache 1 refl

creating_busy : ◌≢◌ {A = String} "Creating" "Succeeded"
creating_busy = ground (arith, eq_iff "Creating" "Succeeded")
