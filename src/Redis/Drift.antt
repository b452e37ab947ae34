-- ===== src/Redis/Drift.antt =====
-- When NeedsUpdate says that a cache has drifted from its specification.
use provider_azure.Prelude.{
  ℕ, String, ◌≡◌, refl, ◌↔◌, ◌⊎◌, inl, inr, Bool, true, false, Option, none, some, List, [], ◌∷◌,
  arith, eq_iff, eq_refl, not, ptr_eq_iff, nat_eq, nat_eq_iff, bool_eq, bool_eq_iff, ◌==◌,
  Option-cases, Bool-cases, ◌∙◌, ap, if◌then◌else◌,
}
use provider_azure.Go.Maps.{GoMap, entries, lookup, without, map_values, Distinct}
use provider_azure.Go.Maps.Laws.{Distinct-map_values}
use provider_azure.Vendor.{Vendor, Documented}
use provider_azure.Vendor.Standard.{standard, Documented-standard}
use provider_azure.Azure.Convert.{to_string_ptr_map, to_string, to_int32}
use provider_azure.Redis.Types.{
  AzureSku, RedisParameters, RedisProperties, ResourceType, UpdateParameters,
}
use provider_azure.Redis.Params.{
  value_at, prune_by, pruned, deep_equal, identical, sku_eq, unless_equal, is_nil, nil_if_empty,
  is_empty_patch, full_patch, changed_properties, new_sku, new_update_parameters, needs_update,
}
use provider_azure.Redis.Patch.{covers, uncovered, prune_by-deep_equal}

-- The map of the state has the key with a pointer to the text.
abbrev pub Has : String → String → List (String × Option String) → Type 0
Has k x [] = ⊥
Has k x ((j, v) ∷ s) = ((j ≡ k) × (v ≡ some x)) ⊎ Has k x s

-- It has all entries of a map of texts.
abbrev pub HasAll : List (String × String) → List (String × Option String) → Type 0
HasAll [] s = Unit
HasAll ((k, x) ∷ m) s = Has k x s × HasAll m s

covers_iff :
    (k x : String) (s : List (String × Option String)) → (covers k (some x) s ≡ true) ↔ Has k x s
covers_iff k x [] = (λ h. cc, λ h. absurd h)
covers_iff k x ((j, v) ∷ s) =
    ground (arith, eq_iff j k, ptr_eq_iff ◌==◌ (some x) v eq_iff, covers_iff k x s)

abbrev pointers : List (String × String) → List (String × Option String)
pointers m = map_values (λ x. some x) m

uncovered_iff :
    (m : List (String × String)) (s : List (String × Option String))
    → (uncovered s (pointers m) ≡ []) ↔ HasAll m s
uncovered_iff [] s = (λ h. tt, λ h. refl)
uncovered_iff ((k, x) ∷ m) s = ground (arith, covers_iff k x s, uncovered_iff m s)

without-missing :
    (k : String) (m : List (String × String))
    → value_at k (pointers m) ≡ none
    → without k (pointers m) ≡ pointers m
unfolding lookup without
without-missing k [] h = refl
without-missing k ((j, x) ∷ m) h = ground (arith, without-missing k m)

kept :
    (k : String) (v : Option String) (m : List (String × String))
    → (if identical (value_at k (pointers m)) v then without k (pointers m) else pointers m)
      ≡ pointers m
kept k v m = elim (Option-cases (value_at k (pointers m))) [
  | inl h ↦ ground (arith, without-missing k m h)
  | inr (x, h) ↦ ground arith
]

prune_by-identical :
    (s : List (String × Option String)) (m : List (String × String))
    → prune_by identical s (pointers m) ≡ pointers m
prune_by-identical [] m = refl
prune_by-identical ((k, v) ∷ s) m = ap (prune_by identical s) (kept k v m) ∙ prune_by-identical s m

module _ ⦃v : Vendor⦄ where
  -- The patch that remains is empty: no tags are asked for, and in every other respect that can be
  -- changed in place the cache has what is asked for.
  abbrev pub InSync : RedisParameters → RedisProperties → Type 0
  InSync spec p =
      (entries spec.tags ≡ [])
      × (p.sku ≡ some (new_sku spec.sku))
      × HasAll (entries spec.redis_configuration) (entries p.redis_configuration)
      × ((spec.enable_non_ssl_port ≡ none) ⊎ (spec.enable_non_ssl_port ≡ p.enable_non_ssl_port))
      × ((spec.shard_count ≡ none) ⊎ (to_int32 spec.shard_count ≡ p.shard_count))
      × HasAll (entries spec.tenant_settings) (entries p.tenant_settings)
      × ((to_string spec.minimum_tls_version ≡ "")
          ⊎ (to_string spec.minimum_tls_version ≡ p.minimum_tls_version))

is_nil-nil_if_empty : {A : Type 0} (l : List A) → (is_nil (nil_if_empty l) ≡ true) ↔ (l ≡ [])
is_nil-nil_if_empty [] = ground arith
is_nil-nil_if_empty (x ∷ l) = ground arith

pointers-nil : (m : List (String × String)) → (pointers m ≡ []) ↔ (m ≡ [])
pointers-nil [] = ground arith
pointers-nil (x ∷ m) = ground arith

pruned-deep_equal_iff :
    (m : GoMap String) (s : GoMap (Option String))
    → Distinct (entries m)
    → (is_nil (pruned deep_equal s (to_string_ptr_map ⦃v = standard⦄ m)) ≡ true)
      ↔ HasAll (entries m) (entries s)
unfolding to_string_ptr_map
pruned-deep_equal_iff none s d = ground (arith, prune_by-deep_equal (entries s) [] tt)
pruned-deep_equal_iff (some m) s d = ground (
  arith,
  is_nil-nil_if_empty (prune_by deep_equal (entries s) (pointers m)),
  prune_by-deep_equal (entries s) (pointers m) (Distinct-map_values _ m d),
  uncovered_iff m (entries s),
)

pruned-identical_iff :
    (m : GoMap String) (s : GoMap (Option String))
    → (is_nil (pruned identical s (to_string_ptr_map ⦃v = standard⦄ m)) ≡ true) ↔ (entries m ≡ [])
unfolding to_string_ptr_map
pruned-identical_iff none s = ground (arith, prune_by-identical (entries s) [])
pruned-identical_iff (some m) s = ground (
  arith,
  is_nil-nil_if_empty (prune_by identical (entries s) (pointers m)),
  prune_by-identical (entries s) m,
  pointers-nil m,
)

sku_eq_iff : (s t : AzureSku) → (sku_eq s t ≡ true) ↔ (s ≡ t)
sku_eq_iff s t = ground (
  arith,
  eq_iff s.name t.name,
  eq_iff s.family t.family,
  ptr_eq_iff nat_eq s.capacity t.capacity nat_eq_iff,
)

unless_equal_iff :
    {A : Type 0} (eq : A → A → Bool) (p q : Option A)
    → ((a b : A) → (eq a b ≡ true) ↔ (a ≡ b))
    → (is_nil (unless_equal eq p q) ≡ true) ↔ ((p ≡ none) ⊎ (p ≡ q))
unless_equal_iff eq p q h = ground (arith, ptr_eq_iff eq p q h)

to_int32-none : (i : Option ℕ) → (to_int32 ⦃v = standard⦄ i ≡ none) ↔ (i ≡ none)
unfolding to_int32
to_int32-none none = ground arith
to_int32-none (some i) = ground arith

is_empty_patch_iff :
    (u : UpdateParameters)
    → (is_empty_patch u ≡ true) ↔ (
        (is_nil u.tags ≡ true)
        × (is_nil u.properties.sku ≡ true)
        × (is_nil u.properties.redis_configuration ≡ true)
        × (is_nil u.properties.enable_non_ssl_port ≡ true)
        × (is_nil u.properties.shard_count ≡ true)
        × (is_nil u.properties.tenant_settings ≡ true)
        × ((u.properties.minimum_tls_version == "") ≡ true))
is_empty_patch_iff u = ground arith

-- What NewUpdateParameters returns for a cache that has properties.
abbrev patch_for : RedisParameters → ResourceType → RedisProperties → UpdateParameters
patch_for spec az p = record {
  tags = pruned identical az.tags (to_string_ptr_map ⦃v = standard⦄ spec.tags);
  properties = changed_properties ⦃v = standard⦄ (full_patch ⦃v = standard⦄ spec) p;
}

needs_update-empty :
    (spec : RedisParameters) (az : ResourceType) (p : RedisProperties)
    → az.properties ≡ some p
    → (needs_update ⦃v = standard⦄ spec az ≡ false) ↔ (is_empty_patch (patch_for spec az p) ≡ true)
unfolding needs_update new_update_parameters
needs_update-empty spec az p h = rw h (false_iff (is_empty_patch (patch_for spec az p)))
  where
    false_iff : (b : Bool) → (not b ≡ false) ↔ (b ≡ true)
    false_iff b = ground arith

sku_iff :
    (s : AzureSku) (q : Option AzureSku)
    → (is_nil (unless_equal sku_eq (some s) q) ≡ true) ↔ (q ≡ some s)
sku_iff s q = ground (arith, unless_equal_iff sku_eq (some s) q sku_eq_iff)

shard_count_iff :
    (i q : Option ℕ)
    → (is_nil (unless_equal nat_eq (to_int32 ⦃v = standard⦄ i) q) ≡ true)
      ↔ ((i ≡ none) ⊎ (to_int32 ⦃v = standard⦄ i ≡ q))
shard_count_iff i q =
    ground
      (arith, unless_equal_iff nat_eq (to_int32 ⦃v = standard⦄ i) q nat_eq_iff, to_int32-none i)

tls_iff : (s t : String) → (((if s == t then "" else s) == "") ≡ true) ↔ ((s ≡ "") ⊎ (s ≡ t))
tls_iff s t = elim (Bool-cases (s == t)) [
  | inl h ↦ rw h (ground (arith, eq_iff s t, eq_refl ""))
  | inr h ↦ rw h (ground (arith, eq_iff s t, eq_iff s ""))
]

drift_iff :
    (spec : RedisParameters) (az : ResourceType) (p : RedisProperties)
    → az.properties ≡ some p
    → Distinct (entries spec.redis_configuration)
    → Distinct (entries spec.tenant_settings)
    → (needs_update ⦃v = standard⦄ spec az ≡ false) ↔ InSync ⦃v = standard⦄ spec p
drift_iff spec az p h c t =
    let empty = needs_update-empty spec az p h in
    let parts = is_empty_patch_iff (patch_for spec az p) in
    let tags = pruned-identical_iff spec.tags az.tags in
    let sku = sku_iff (new_sku ⦃v = standard⦄ spec.sku) p.sku in
    let conf = pruned-deep_equal_iff spec.redis_configuration p.redis_configuration c in
    let port =
      unless_equal_iff bool_eq spec.enable_non_ssl_port p.enable_non_ssl_port bool_eq_iff in
    let shard = shard_count_iff spec.shard_count p.shard_count in
    let tenant = pruned-deep_equal_iff spec.tenant_settings p.tenant_settings t in
    let tls = tls_iff (to_string ⦃v = standard⦄ spec.minimum_tls_version) p.minimum_tls_version in
    (
      λ e.
          let (t1, t2, t3, t4, t5, t6, t7) = parts.0 (empty.0 e) in
          (tags.0 t1, sku.0 t2, conf.0 t3, port.0 t4, shard.0 t5, tenant.0 t6, tls.0 t7),
      λ (t1, t2, t3, t4, t5, t6, t7).
          empty.1 (
            parts.1 (tags.1 t1, sku.1 t2, conf.1 t3, port.1 t4, shard.1 t5, tenant.1 t6, tls.1 t7)),
    )

module _ ⦃v : Vendor⦄ (d : Documented v) where
  -- For a specification whose maps have distinct keys, and a cache with properties: NeedsUpdate
  -- returns false exactly if no tags are asked for, the SKU is the one asked for, Azure has all
  -- entries of the configuration and of the tenant settings that are asked for, and the port, the
  -- shard count and the TLS version are not asked for or are as asked for.
  pub needs_update_iff :
      (spec : RedisParameters) (az : ResourceType) (p : RedisProperties)
      → az.properties ≡ some p
      → Distinct (entries spec.redis_configuration)
      → Distinct (entries spec.tenant_settings)
      → (needs_update spec az ≡ false) ↔ InSync spec p
  needs_update_iff spec az p h c t = rw (Documented-standard d) (drift_iff spec az p h c t)
