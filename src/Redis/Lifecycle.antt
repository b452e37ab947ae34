-- ===== src/Redis/Lifecycle.antt =====
-- What the controller of Redis caches does over its methods.
use provider_azure.Prelude.{
  String, ◌≡◌, refl, ◌≢◌, ◌⊎◌, inl, inr, true, false, not, Option, none, some, arith, eq_iff, ◌==◌,
  Bool-cases,
}
use provider_azure.Go.Errors.{Err, Result, ok, err}
use provider_azure.Go.Effect.{Session}
use provider_azure.Vendor.{Vendor, Documented, Conditions, available}
use provider_azure.Vendor.Standard.{Documented-standard}
use provider_azure.Azure.Convert.{to_string, is_not_found, is_not_found_error}
use provider_azure.Managed.{ConnectionDetails, no_details, no_observation, Observed}
use provider_azure.Redis.Types.{Redis, ResourceType}
use provider_azure.Redis.Params.{generate_observation, needs_update}
use provider_azure.Redis.Controller.{
  External, observe_redis, update_redis, delete_redis, updated, condition_for, with_keys,
  with_state,
}

-- The password is the key that Azure has listed for the cache without an error, in the last call.
abbrev pub Listed :
    ⦃v : Vendor⦄ → {W : Type 0} → External W → ConnectionDetails → Redis → W → Type 0
Listed {W} e details cr w' =
    (k : Option String) × (w : W) × (e.client.list_keys cr.for_provider.resource_group_name
        cr.external_name w
      ≡ (ok k, w'))
    × (details.password ≡ some (to_string k))

-- Either an error beside the empty observation, or an observation of a cache that exists, which is
-- up to date if it has not drifted, and which has connection details only if it is provisioned, with
-- its key.
abbrev pub Seen :
    ⦃v : Vendor⦄ → {W : Type 0} → External W → ResourceType → Observed × Session Redis W → Type 0
Seen e cache r =
    ((r.0.1 ≢ none) × (r.0.0 ≡ no_observation))
    ⊎ ((r.0.1 ≡ none)
        × (r.0.0.resource_exists ≡ true)
        × (r.0.0.resource_up_to_date ≡ not (needs_update r.1.object.for_provider cache))
        × (r.1.object.at_provider ≡ generate_observation cache)
        × (((generate_observation cache).provisioning_state ≡ "Succeeded")
              × (r.1.object.conditions.ready ≡ some available)
              × Listed e r.0.0.connection_details r.1.object r.1.world
            ⊎ ((generate_observation cache).provisioning_state ≢ "Succeeded")
              × (r.0.0.connection_details ≡ no_details)
              × (r.1.object.conditions.ready ≢ some available)))

module _ {W : Type 0} (e : External W) ⦃v : Vendor⦄ (d : Documented v) where
  available_ready : (c : Conditions) → (v.set_condition available c).ready ≡ some available
  available_ready c = rw (Documented-standard d) refl

  other_ready :
      (state : String) (c : Conditions)
      → (v.set_condition (condition_for e state) c).ready ≢ some available
  other_ready state c = rw (Documented-standard d) (ground arith)

  with_keys-Seen :
      (cache : ResourceType) (k : Result (Option String)) (t : Session Redis W) (w : W)
      → e.client.list_keys t.object.for_provider.resource_group_name t.object.external_name w
        ≡ (k, t.world)
      → t.object.at_provider ≡ generate_observation cache
      → (generate_observation cache).provisioning_state ≡ "Succeeded"
      → Seen e cache (with_keys e cache k t)
  with_keys-Seen cache (err x) t w l a h =
      inl ((λ h. cc (h, d.wrap_error x "cannot get access key list")), refl)
  with_keys-Seen cache (ok k) t w l a h =
      inr (refl, refl, refl, a, inl (h, available_ready t.object.conditions, (k, w, l, refl)))

  with_state-Seen :
      (cache : ResourceType) (t : Session Redis W)
      → t.object.at_provider ≡ generate_observation cache
      → Seen e cache (with_state e cache (generate_observation cache).provisioning_state t)
  with_state-Seen cache t a =
      let state = (generate_observation cache).provisioning_state in
      elim (Bool-cases (state == "Succeeded")) [
        | inl h ↦ rw h (with_keys-Seen cache _ _ t.world refl a ((eq_iff state "Succeeded").0 h))
        | inr h ↦ rw h (
            inr (
              refl,
              refl,
              refl,
              a,
              inr (
                ground (arith, eq_iff state "Succeeded"),
                refl,
                other_ready state t.object.conditions,
              ),
            ))
      ]

  updated-Seen :
      (cache : ResourceType) (x : Option Err) (t : Session Redis W)
      → Seen e cache (updated e cache x t)
  updated-Seen cache (some x) t =
      inl ((λ h. cc (h, d.wrap_error x "cannot update Redis custom resource instance")), refl)
  updated-Seen cache none t =
      with_state-Seen cache
        (record t { object = record (t.object) { at_provider = generate_observation cache } }) refl

  -- After Azure has answered with the cache, Observe returns an error and the empty observation, or
  -- says that the cache exists and is up to date if NeedsUpdate finds no difference to the
  -- specification that the API server stored; it has recorded what Azure reported, and only a cache
  -- in the state "Succeeded" is available and has connection details, whose password is the key that
  -- Azure has then listed without an error.
  pub observe_redis-Seen :
      (s : Session Redis W) (cache : ResourceType) (w : W)
      → e.client.get s.object.for_provider.resource_group_name s.object.external_name s.world
        ≡ (ok cache, w)
      → Seen e cache (observe_redis e s)
  unfolding observe_redis
  observe_redis-Seen s cache w g = rw g (updated-Seen cache _ _)

  ignored-error :
      (reply : Option Err) (text : String)
      → (v.wrap (v.ignore is_not_found_error reply) text ≡ none)
        ⊎ ((x : Err) × (reply ≡ some x) × (is_not_found (some x) ≡ false))
  ignored-error none text = inl (rw (Documented-standard d) refl)
  ignored-error (some x) text = elim (Bool-cases (is_not_found (some x))) [
    | inl h ↦ inl (rw (Documented-standard d) (ground arith))
    | inr h ↦ inr (x, refl, h)
  ]

  -- Delete reports an error only if Azure has refused the deletion for another reason than that the
  -- cache is not there.
  pub delete_redis-error :
      (s : Session Redis W)
      → ((delete_redis e s).0 ≡ none)
        ⊎ ((x : Err) × ((e.client.delete s.object.for_provider.resource_group_name
                s.object.external_name s.world).0
              ≡ some x)
            × (is_not_found (some x) ≡ false))
  unfolding delete_redis
  delete_redis-error s = elim (Bool-cases (s.object.at_provider.provisioning_state == "Deleting")) [
    | inl h ↦ inl (rw h refl)
    | inr h ↦ rw h (ignored-error _ "cannot delete the Redis instance")
  ]

module _ {W : Type 0} (e : External W) ⦃v : Vendor⦄ where
  -- Update leaves a cache alone that is not in the state "Succeeded": it returns no error, calls
  -- nothing and changes nothing.
  pub update_redis-busy :
      (s : Session Redis W)
      → s.object.at_provider.provisioning_state ≢ "Succeeded"
      → update_redis e s ≡ ((no_details, none), s)
  unfolding update_redis
  update_redis-busy s h = ground (arith, eq_iff s.object.at_provider.provisioning_state "Succeeded")
