-- ===== src/Redis/Controller.antt =====
-- pkg/controller/cache/redis.go: what the managed reconciler calls.
use provider_azure.Prelude.{String, true, not, Option, none, some, ◌==◌, if◌then◌else◌}
use provider_azure.Go.Num.{itoa}
use provider_azure.Go.Errors.{Err, message, Result, ok, err}
use provider_azure.Go.Effect.{M, ◌>>=◌, ◌>>◌, pure, get_object, modify, call}
use provider_azure.Vendor.{Vendor, Condition, creating, deleting, available, unavailable}
use provider_azure.Azure.Convert.{is_not_found_error, to_string}
use provider_azure.Managed.{
  ConnectionDetails, no_details, no_observation, Observed, Detailed, of_kind, kube_update,
}
use provider_azure.Redis.Types.{Redis, CreateParameters, UpdateParameters, ResourceType}
use provider_azure.Redis.Params.{
  late_initialize, generate_observation, needs_update, new_create_parameters, new_update_parameters,
}

-- `redisapi.ClientAPI`: each call takes the resource group and the name of the cache.
pub record RedisClient (W : Type 0) : Type 0 where
  pub get : String → String → W → Result ResourceType × W
  pub list_keys : String → String → W → Result (Option String) × W  -- the primary key
  pub create : String → String → CreateParameters → W → Option Err × W
  pub update : String → String → UpdateParameters → W → Option Err × W
  pub delete : String → String → W → Option Err × W

pub record External (W : Type 0) : Type 0 where
  pub update_object : Redis → W → Result Redis × W
  pub client : RedisClient W

abbrev err_not_redis : Err
err_not_redis = message "the custom resource is not a Redis instance"

abbrev pub provisioning_state_succeeded : String
provisioning_state_succeeded = "Succeeded"

module _ {W : Type 0} (e : External W) ⦃v : Vendor⦄ where
  abbrev pub set_condition : Condition → M Redis W (Unit {0})
  set_condition c = modify λ cr. record cr { conditions = v.set_condition c cr.conditions }

  -- The conditions of the `switch` where the state is not "Succeeded".
  abbrev pub condition_for : String → Condition
  condition_for state =
      if state == "Creating"
      then creating
      else if state == "Deleting"
      then deleting
      else unavailable

  abbrev details_of : Redis → Option String → ConnectionDetails
  details_of cr primary_key = record {
    endpoint = some cr.at_provider.host_name;
    username = none;
    password = some (to_string primary_key);
    port = some (itoa cr.at_provider.port);
  }

  abbrev reported : ResourceType → ConnectionDetails → M Redis W Observed
  reported cache conn = do
    cr ← get_object
    pure (
      record no_observation {
        resource_exists = true;
        resource_up_to_date = not (needs_update cr.for_provider cache);
        connection_details = conn;
      },
      none,
    )

  abbrev pub with_keys : ResourceType → Result (Option String) → M Redis W Observed
  with_keys cache (err x) = pure (no_observation, v.wrap (some x) "cannot get access key list")
  with_keys cache (ok primary_key) = do
    set_condition available
    cr ← get_object
    reported cache (details_of cr primary_key)

  abbrev pub with_state : ResourceType → String → M Redis W Observed
  with_state cache state =
      if state == provisioning_state_succeeded
      then (do
        cr ← get_object
        k ← call (e.client.list_keys cr.for_provider.resource_group_name cr.external_name)
        with_keys cache k)
      else (do set_condition (condition_for state); reported cache no_details)

  abbrev pub updated : ResourceType → Option Err → M Redis W Observed
  updated cache (some x) =
      pure (no_observation, v.wrap (some x) "cannot update Redis custom resource instance")
  updated cache none = do
    modify λ cr. record cr { at_provider = generate_observation cache }
    cr ← get_object
    with_state cache cr.at_provider.provisioning_state

  abbrev fetched : Result ResourceType → M Redis W Observed
  fetched (err x) = pure (
    no_observation,
    v.wrap (v.ignore is_not_found_error (some x)) "cannot get Redis instance from Azure API",
  )
  fetched (ok cache) = do
    modify λ cr. record cr { for_provider = late_initialize cr.for_provider cache }
    x ← kube_update e.update_object
    updated cache x

  unfoldable pub observe_redis : M Redis W Observed
  unfolding itoa to_string
  observe_redis = do
    cr ← get_object
    cache ← call (e.client.get cr.for_provider.resource_group_name cr.external_name)
    fetched cache

  unfoldable pub create_redis : M Redis W Detailed
  create_redis = do
    set_condition creating
    cr ← get_object
    x ← call (
        e.client.create cr.for_provider.resource_group_name cr.external_name
          (new_create_parameters cr))
    pure (no_details, v.wrap x "cannot create the Redis instance")

  abbrev changed : Result ResourceType → M Redis W Detailed
  changed (err x) = pure (no_details, v.wrap (some x) "cannot get Redis instance from Azure API")
  changed (ok cache) = do
    cr ← get_object
    x ← call (
        e.client.update cr.for_provider.resource_group_name cr.external_name
          (new_update_parameters cr.for_provider cache))
    pure (no_details, v.wrap x "cannot update the Redis instance")

  unfoldable pub update_redis : M Redis W Detailed
  update_redis = do
    cr ← get_object
    if not (cr.at_provider.provisioning_state == provisioning_state_succeeded)
        then pure (no_details, none)
        else (do
          cache ← call (e.client.get cr.for_provider.resource_group_name cr.external_name)
          changed cache)

  unfoldable pub delete_redis : M Redis W (Option Err)
  delete_redis = do
    set_condition deleting
    cr ← get_object
    if cr.at_provider.provisioning_state == "Deleting" then pure none else (do
      x ← call (e.client.delete cr.for_provider.resource_group_name cr.external_name)
      pure (v.wrap (v.ignore is_not_found_error x) "cannot delete the Redis instance"))

  unfoldable pub observe : M (Option Redis) W Observed
  unfolding observe_redis
  observe = of_kind (no_observation, some err_not_redis) observe_redis

  unfoldable pub create : M (Option Redis) W Detailed
  unfolding create_redis
  create = of_kind (no_details, some err_not_redis) create_redis

  unfoldable pub update : M (Option Redis) W Detailed
  unfolding update_redis
  update = of_kind (no_details, some err_not_redis) update_redis

  unfoldable pub delete : M (Option Redis) W (Option Err)
  unfolding delete_redis
  delete = of_kind (some err_not_redis) delete_redis
