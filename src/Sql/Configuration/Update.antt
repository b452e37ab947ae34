-- ===== src/Sql/Configuration/Update.antt =====
-- What Observe says of a server configuration that Azure answers with.
use provider_azure.Prelude.{
  String, ◌≡◌, refl, ◌≢◌, ◌↔◌, ◌⊎◌, inl, inr, Bool, true, false, Option, none, some, arith, eq_iff,
  if◌then◌else◌,
}
use provider_azure.Go.Errors.{Err, ok}
use provider_azure.Go.Effect.{Session}
use provider_azure.Vendor.{Vendor, Documented, available, unavailable}
use provider_azure.Azure.Convert.{to_string}
use provider_azure.Managed.{Observed, no_observation}
use provider_azure.Sql.Configuration.{Engine, ServerConfiguration, AzureConfiguration}
use provider_azure.Sql.Configuration.Client.{
  update_configuration_observation, is_configuration_up_to_date,
}
use provider_azure.Sql.Configuration.Controller.{
  External, Texts, texts_of, observe_configuration, is_reset, refreshed, with_name, fetched,
  fetch_last_operation,
}
use provider_azure.Sql.Configuration.Deletion.{observe_configuration-ok}

-- `LateInitializer.LateInitializeStringPtr`: a value is kept, and one that is nil is taken from Azure,
-- which is a change if there is something to take.
pub record LateInitializes (f : Option String → Option String → Option String × Bool) : Type 0 where
  pub kept : (s : String) (from : Option String) → f (some s) from ≡ (some s, false)
  pub taken : (s : String) → f none (some s) ≡ (some s, true)
  pub absent : f none none ≡ (none, false)

-- Either an error beside the empty observation, or one that compares what the user asks for, if
-- anything, with what Azure has.
abbrev pub Compared :
    {W : Type 0} ⦃v : Vendor⦄
    → Option String
    → Option String
    → Observed × Session ServerConfiguration W
    → Type 0
Compared value has r =
    ((r.0.1 ≢ none) × (r.0.0 ≡ no_observation))
    ⊎ ((r.0.1 ≡ none)
        × (r.0.0.resource_exists ≡ true)
        × ((r.0.0.resource_up_to_date ≡ true)
            ↔ ((value ≡ none) ⊎ (to_string value ≡ to_string has)))
        × ((r.0.0.resource_late_initialized ≡ true) ↔ ((value ≡ none) × (has ≢ none)))
        × (r.1.object.conditions.ready
            ≡ some (if r.0.0.resource_up_to_date then available else unavailable)))

module _ {W : Type 0} (e : External W) ⦃v : Vendor⦄ (d : Documented v) where
  fetched-Compared :
      (texts : Texts) (changed : Bool) (value : Option String) (az : AzureConfiguration)
      (x : Option Err) (t : Session ServerConfiguration W)
      → t.object.at_provider.value ≡ to_string az.value
      → (to_string t.object.for_provider.value ≡ to_string az.value)
        ↔ ((value ≡ none) ⊎ (to_string value ≡ to_string az.value))
      → (changed ≡ true) ↔ ((value ≡ none) × (az.value ≢ none))
      → Compared value az.value (fetched texts e changed az x t)
  unfolding is_configuration_up_to_date
  fetched-Compared texts changed value az (some x) t h p c =
      inl ((λ k. cc (k, d.wrap_error x "cannot fetch last operation")), refl)
  fetched-Compared texts changed value az none t h p c =
      let here = to_string t.object.for_provider.value in
      let there = to_string az.value in
      let same = eq_iff here there in
      inr (
        refl,
        refl,
        (λ k. p.0 (same.0 k), λ k. same.1 (p.1 k)),
        c,
        ground (
          arith,
          h,
          same,
          eq_iff there here,
          d.set_condition_type available t.object.conditions,
          d.set_condition_type unavailable t.object.conditions,
        ),
      )

  elim_none :
      (s : String) (has : Option String)
      → (◌≡◌ {A = Option String} (some s) none) ⊎ (to_string (some s) ≡ to_string has)
      → to_string (some s) ≡ to_string has
  elim_none s has (inl h) = ground arith
  elim_none s has (inr h) = h

  late_initialize-value :
      LateInitializes e.late_initialize
      → (value has : Option String)
      → let (value', changed) = e.late_initialize value has in
        ((to_string value' ≡ to_string has) ↔ ((value ≡ none) ⊎ (to_string value ≡ to_string has)))
        × ((changed ≡ true) ↔ ((value ≡ none) × (has ≢ none)))
  late_initialize-value l (some s) has =
      rw (l.kept s has) (((λ h. inr h), elim_none s has), (λ h. cc, (λ h. ground (arith, h.0))))
  late_initialize-value l none (some s) =
      rw (l.taken s) ((λ h. inl refl, λ h. refl), (λ h. (refl, λ k. cc), λ h. refl))
  late_initialize-value l none none =
      rw l.absent ((λ h. inl refl, λ h. refl), (λ h. cc, λ h. absurd (h.1 refl)))

  with_name-for_provider :
      (texts : Texts) (c : ServerConfiguration)
      → (with_name texts e c).for_provider ≡ c.for_provider
  with_name-for_provider texts c = ground arith

  -- Where Azure answers with the configuration, and the object is not one that was deleted and reset,
  -- either an error is returned beside the empty observation, or the configuration exists; it is up
  -- to date exactly if the user asks for no value or for the one that Azure has; it is
  -- late-initialised exactly if the user asks for none and Azure has one; and the object is marked as
  -- available or unavailable by whether it is up to date.
  pub observe_configuration-Compared :
      (g : Engine) (s : Session ServerConfiguration W) (az : AzureConfiguration) (w : W)
      → LateInitializes e.late_initialize
      → is_reset (texts_of g) e s.object ≡ false
      → e.client.get s.object.for_provider.resource_group_name s.object.for_provider.server_name
          s.object.for_provider.name s.world
        ≡ (ok az, w)
      → Compared s.object.for_provider.value az.value (observe_configuration e g s)
  unfolding fetch_last_operation update_configuration_observation
  observe_configuration-Compared g s az w l n h =
      let c = s.object in
      let value = late_initialize-value l c.for_provider.value az.value in
      let same = with_name-for_provider (texts_of g) c in
      let polled =
        fetch_last_operation (texts_of g) e (record {
          object = refreshed (texts_of g) e az (with_name (texts_of g) e c);
          world = w;
        }) in
      let changed = (e.late_initialize c.for_provider.value az.value).1 in
      rw (observe_configuration-ok e d g s az w h, n)
        (fetched-Compared (texts_of g) changed c.for_provider.value az polled.0 polled.1 refl
          (rw same value.0) value.1)
