-- ===== src/Redis/Params.antt =====
-- pkg/clients/redis/redis.go: parameters, patches, observations and late initialisation.
use provider_azure.Prelude.{
  String, Bool, true, false, ◌&&◌, not, Option, none, some, List, [], ◌∷◌, map, ◌==◌, nat_eq,
  bool_eq, ptr_eq, if◌then◌else◌,
}
use provider_azure.Go.Maps.{GoMap, Slice, entries, lookup, without}
use provider_azure.Vendor.{Vendor}
use provider_azure.Azure.Convert.{
  field_required, to_string_ptr, to_int32_ptr, to_string_ptr_map, to_string, to_int, to_int32,
  to_string_array_ptr,
}
use provider_azure.Azure.LateInit.{
  late_initialize_string_ptr_from_ptr, late_initialize_bool_ptr_from_ptr,
  late_initialize_string_map, late_initialize_int_ptr_from_int32_ptr,
  late_initialize_string_val_arr_from_arr_ptr,
}
use provider_azure.Redis.Types.{
  Sku, RedisParameters, RedisObservation, Redis, AzureSku, LinkedServer, CreateParameters,
  UpdateProperties, UpdateParameters, RedisProperties, ResourceType,
}

-- `m[k]` of a map of pointers: nil for a missing key.
abbrev pub value_at : String → List (String × Option String) → Option String
value_at k m = elim (lookup k m) [ none ↦ none | some x ↦ x ]

-- `for k, v := range state { if same(patch[k], v) { delete(patch, k) } }`
abbrev pub prune_by :
    (Option String → Option String → Bool)
    → List (String × Option String)
    → List (String × Option String)
    → List (String × Option String)
prune_by same [] patch = patch
prune_by same ((k, v) ∷ state) patch =
    prune_by same state (if same (value_at k patch) v then without k patch else patch)

abbrev pub nil_if_empty : {A : Type 0} → List A → Option (List A)
nil_if_empty [] = none
nil_if_empty (x ∷ xs) = some (x ∷ xs)

-- The loop over a map, and the test of its length after it.
abbrev pub pruned :
    (Option String → Option String → Bool)
    → GoMap (Option String)
    → GoMap (Option String)
    → GoMap (Option String)
pruned same state patch = nil_if_empty (prune_by same (entries state) (entries patch))

-- `reflect.DeepEqual` on two pointers to strings.
abbrev pub deep_equal : Option String → Option String → Bool
deep_equal p q = ptr_eq ◌==◌ p q

-- `==` on a pointer of the patch, which is nil or points at a copy made for the patch, and a pointer
-- of the state: only two nil pointers are identical.
abbrev pub identical : Option String → Option String → Bool
identical none none = true
identical _ _ = false

abbrev pub sku_eq : AzureSku → AzureSku → Bool
sku_eq s t = s.name == t.name && s.family == t.family && ptr_eq nat_eq s.capacity t.capacity

-- `if reflect.DeepEqual(p, q) { p = nil }`
abbrev pub unless_equal : {A : Type 0} → (A → A → Bool) → Option A → Option A → Option A
unless_equal eq p q = if ptr_eq eq p q then none else p

-- `reflect.DeepEqual(redis.UpdateParameters{UpdateProperties: &redis.UpdateProperties{}}, patch)`
abbrev pub is_nil : {A : Type 0} → Option A → Bool
is_nil none = true
is_nil (some _) = false

abbrev pub is_empty_patch : UpdateParameters → Bool
is_empty_patch u =
    is_nil u.tags
    && is_nil u.properties.sku
    && is_nil u.properties.redis_configuration
    && is_nil u.properties.enable_non_ssl_port
    && is_nil u.properties.shard_count
    && is_nil u.properties.tenant_settings
    && u.properties.minimum_tls_version == ""

module _ ⦃v : Vendor⦄ where
  unfoldable pub new_sku : Sku → AzureSku
  unfolding to_int32_ptr
  new_sku s = record {
    name = s.name;
    family = s.family;
    capacity = to_int32_ptr s.capacity (field_required ∷ []);
  }

  unfoldable pub new_create_parameters : Redis → CreateParameters
  unfolding to_string_ptr to_string_array_ptr to_string_ptr_map to_int32 to_string new_sku
  new_create_parameters cr =
      let p = cr.for_provider in
      record {
        location = to_string_ptr p.location [];
        zones = to_string_array_ptr p.zones;
        tags = to_string_ptr_map p.tags;
        properties = some (record {
          sku = some (new_sku p.sku);
          subnet_id = p.subnet_id;
          static_ip = p.static_ip;
          enable_non_ssl_port = p.enable_non_ssl_port;
          redis_configuration = to_string_ptr_map p.redis_configuration;
          tenant_settings = to_string_ptr_map p.tenant_settings;
          shard_count = to_int32 p.shard_count;
          minimum_tls_version = to_string p.minimum_tls_version;
        });
      }

  -- The properties of the patch that NewUpdateParameters starts with.
  abbrev pub full_patch : RedisParameters → UpdateProperties
  full_patch spec = record {
    sku = some (new_sku spec.sku);
    redis_configuration = to_string_ptr_map spec.redis_configuration;
    enable_non_ssl_port = spec.enable_non_ssl_port;
    shard_count = to_int32 spec.shard_count;
    tenant_settings = to_string_ptr_map spec.tenant_settings;
    minimum_tls_version = to_string spec.minimum_tls_version;
  }

  abbrev pub changed_properties : UpdateProperties → RedisProperties → UpdateProperties
  changed_properties patch state = record {
    sku = unless_equal sku_eq patch.sku state.sku;
    redis_configuration = pruned deep_equal state.redis_configuration patch.redis_configuration;
    enable_non_ssl_port = unless_equal bool_eq patch.enable_non_ssl_port state.enable_non_ssl_port;
    shard_count = unless_equal nat_eq patch.shard_count state.shard_count;
    tenant_settings = pruned deep_equal state.tenant_settings patch.tenant_settings;
    minimum_tls_version =
        if patch.minimum_tls_version == state.minimum_tls_version
        then ""
        else patch.minimum_tls_version;
  }

  unfoldable pub new_update_parameters : RedisParameters → ResourceType → UpdateParameters
  unfolding to_string_ptr_map to_int32 to_string new_sku lookup without
  new_update_parameters spec state = record {
    tags = pruned identical state.tags (to_string_ptr_map spec.tags);
    properties = elim state.properties [
      | none ↦ full_patch spec
      | some p ↦ changed_properties (full_patch spec) p
    ];
  }

  unfoldable pub needs_update : RedisParameters → ResourceType → Bool
  unfolding new_update_parameters
  needs_update spec az = elim az.properties [
    | none ↦ true
    | some p ↦ not (is_empty_patch (new_update_parameters spec az))
  ]

  abbrev linked_server_ids : Option (List LinkedServer) → Slice String
  linked_server_ids none = none
  linked_server_ids (some servers) = some (map (λ (s : LinkedServer). to_string s.id) servers)

  unfoldable pub generate_observation : ResourceType → RedisObservation
  unfolding to_string to_int
  generate_observation az = elim az.properties [
    | none ↦ record {
      redis_version = "";
      provisioning_state = "";
      host_name = "";
      port = 0;
      ssl_port = 0;
      linked_servers = none;
      id = to_string az.id;
      name = to_string az.name;
    }
    | some p ↦ record {
      redis_version = to_string p.redis_version;
      provisioning_state = p.provisioning_state;
      host_name = to_string p.host_name;
      port = to_int p.port;
      ssl_port = to_int p.ssl_port;
      linked_servers = linked_server_ids p.linked_servers;
      id = to_string az.id;
      name = to_string az.name;
    }
  ]

  abbrev late_initialize_from : RedisParameters → RedisProperties → RedisParameters
  late_initialize_from spec p = record spec {
    subnet_id = late_initialize_string_ptr_from_ptr spec.subnet_id p.subnet_id;
    static_ip = late_initialize_string_ptr_from_ptr spec.static_ip p.static_ip;
    redis_configuration = late_initialize_string_map spec.redis_configuration p.redis_configuration;
    enable_non_ssl_port =
        late_initialize_bool_ptr_from_ptr spec.enable_non_ssl_port p.enable_non_ssl_port;
    tenant_settings = late_initialize_string_map spec.tenant_settings p.tenant_settings;
    shard_count = late_initialize_int_ptr_from_int32_ptr spec.shard_count p.shard_count;
    minimum_tls_version =
        late_initialize_string_ptr_from_ptr spec.minimum_tls_version (some p.minimum_tls_version);
  }

  unfoldable pub late_initialize : RedisParameters → ResourceType → RedisParameters
  unfolding late_initialize_string_ptr_from_ptr late_initialize_string_map
      late_initialize_bool_ptr_from_ptr late_initialize_int_ptr_from_int32_ptr
      late_initialize_string_val_arr_from_arr_ptr
  late_initialize spec az =
      let spec = record spec {
        zones = late_initialize_string_val_arr_from_arr_ptr spec.zones az.zones;
        tags = late_initialize_string_map spec.tags az.tags;
      } in
      elim az.properties [ none ↦ spec | some p ↦ late_initialize_from spec p ]
