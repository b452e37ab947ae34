-- ===== src/Sql/Configuration/Deletion.antt =====
-- How the deletion of a server configuration comes to its end.
use provider_azure.Prelude.{
  String, ◌≡◌, refl, sym, ap, ◌∙◌, subst, Bool, true, Option, none, some, arith, eq_iff, Bool-cases,
  inl, inr,
}
use provider_azure.Go.Errors.{Err, ok}
use provider_azure.Sql.Postgresql.Client.{started}
use provider_azure.Go.Effect.{Session}
use provider_azure.Vendor.{Vendor, Documented}
use provider_azure.Vendor.Standard.{Documented-standard}
use provider_azure.Azure.Convert.{to_string}
use provider_azure.Azure.Convert.RoundTrip.{to_string-some}
use provider_azure.Azure.Operation.Polling.{fetch_async_operation_lem}
use provider_azure.Managed.{no_observation}
use provider_azure.Sql.Configuration.{
  Engine, mysql, postgresql, ServerConfiguration, AzureConfiguration,
}
use provider_azure.Sql.Configuration.Client.{
  SentConfiguration, update_configuration_observation, with_operation,
}
use provider_azure.Sql.Configuration.Controller.{
  External, Texts, texts_of, observe_mysql, observe_postgresql, observe_configuration, is_reset,
  present, delete_managed, with_name, refreshed, fetched, fetch_last_operation,
}

-- The default value, managed by the system.
abbrev pub reset_of : ServerConfiguration → SentConfiguration
reset_of cr = record { value = some cr.at_provider.default_value; source = some "system-default" }

-- Both objects are for one configuration.
abbrev SamePlace : ServerConfiguration → ServerConfiguration → Type 0
SamePlace c c' =
    (c.for_provider.resource_group_name ≡ c'.for_provider.resource_group_name)
    × (c.for_provider.server_name ≡ c'.for_provider.server_name)
    × (c.for_provider.name ≡ c'.for_provider.name)

module _ {W : Type 0} (e : External W) ⦃v : Vendor⦄ where
  observe_configuration-is_reset :
      (g : Engine) (s : Session ServerConfiguration W) (az : AzureConfiguration) (w : W)
      → is_reset (texts_of g) e s.object ≡ true
      → e.client.get s.object.for_provider.resource_group_name s.object.for_provider.server_name
          s.object.for_provider.name s.world
        ≡ (ok az, w)
      → observe_configuration e g s
        ≡ ((no_observation, none), record { object = s.object; world = w })
  unfolding observe_mysql observe_postgresql
  observe_configuration-is_reset mysql s az w r h = rw h (ground arith)
  observe_configuration-is_reset postgresql s az w r h = rw h (ground arith)

module _ {W : Type 0} (e : External W) ⦃v : Vendor⦄ (d : Documented v) where
  fetched-is_reset :
      (texts : Texts) (changed : Bool) (az : AzureConfiguration) (x : Option Err)
      (t : Session ServerConfiguration W)
      → is_reset texts e t.object ≡ true
      → is_reset texts e (fetched texts e changed az x t).1.object ≡ true
  fetched-is_reset texts changed az none t h = h
  fetched-is_reset texts changed az (some x) t h = h

  refreshed-is_reset :
      (texts : Texts) (c : ServerConfiguration) (az : AzureConfiguration) (value : String)
      → c.deleted ≡ true
      → az.value ≡ some value
      → az.default_value ≡ some value
      → az.source ≡ some "system-default"
      → is_reset texts e (refreshed texts e az c) ≡ true
  unfolding update_configuration_observation
  refreshed-is_reset texts c az value h p q r =
      let source = ap to_string r ∙ to_string-some d "system-default" in
      let same = ap to_string (p ∙ sym q) in
      ground (
        arith,
        (eq_iff (to_string az.source) "system-default").1 source,
        (eq_iff (to_string az.value) (to_string az.default_value)).1 same,
      )

  with_name-deleted :
      (texts : Texts) (c : ServerConfiguration)
      → c.deleted ≡ true
      → (with_name texts e c).deleted ≡ true
  with_name-deleted texts c h = ground arith

  present-is_reset :
      (g : Engine) (s : Session ServerConfiguration W) (az : AzureConfiguration) (value : String)
      → s.object.deleted ≡ true
      → az.value ≡ some value
      → az.default_value ≡ some value
      → az.source ≡ some "system-default"
      → is_reset (texts_of g) e (present (texts_of g) e az s).1.object ≡ true
  unfolding fetch_last_operation
  present-is_reset g s az value h p q r =
      let texts = texts_of g in
      let c = with_name texts e s.object in
      let polled =
        fetch_last_operation texts e
          (record { object = refreshed texts e az c; world = s.world }) in
      let reset = refreshed-is_reset texts c az value (with_name-deleted texts s.object h) p q r in
      let changed = (e.late_initialize s.object.for_provider.value az.value).1 in
      elim (Bool-cases (is_reset texts e s.object)) [
        | inl done ↦ rw done done
        | inr more ↦ rw more (fetched-is_reset texts changed az polled.0 polled.1 reset)
      ]

  delete_managed-object :
      (texts : Texts) (s : Session ServerConfiguration W) (url : String) (w : W)
      → e.client.create_or_update s.object.for_provider.resource_group_name
          s.object.for_provider.server_name s.object.for_provider.name
          (reset_of s.object)
          s.world
        ≡ (ok url, w)
      → let t = (delete_managed texts e s).1.object in
        (t.at_provider.last_operation.method ≡ "PUT")
        × (t.at_provider.last_operation.polling_url ≡ url)
        × (t ≡ with_operation t.at_provider.last_operation s.object)
  unfolding delete_managed fetch_last_operation
  delete_managed-object texts s url w h =
      let kept = fetch_async_operation_lem e.futures (started "PUT" url) w in
      rw (h, Documented-standard d) (kept.0, kept.1, refl)

  pub observe_configuration-ok :
      (g : Engine) (s : Session ServerConfiguration W) (az : AzureConfiguration) (w : W)
      → e.client.get s.object.for_provider.resource_group_name s.object.for_provider.server_name
          s.object.for_provider.name s.world
        ≡ (ok az, w)
      → observe_configuration e g s
        ≡ present (texts_of g) e az (record { object = s.object; world = w })
  unfolding observe_mysql observe_postgresql
  observe_configuration-ok mysql s az w h = rw h refl
  observe_configuration-ok postgresql s az w h = rw h refl

  fetched-place :
      (texts : Texts) (changed : Bool) (az : AzureConfiguration) (x : Option Err)
      (c : ServerConfiguration) (t : Session ServerConfiguration W)
      → SamePlace t.object c
      → SamePlace (fetched texts e changed az x t).1.object c
  fetched-place texts changed az none c t h = h
  fetched-place texts changed az (some x) c t h = h

  with_name-place : (texts : Texts) (c : ServerConfiguration) → SamePlace (with_name texts e c) c
  with_name-place texts c = ground arith

  present-place :
      (texts : Texts) (s : Session ServerConfiguration W) (az : AzureConfiguration)
      → SamePlace (present texts e az s).1.object s.object
  unfolding fetch_last_operation
  present-place texts s az =
      let polled =
        fetch_last_operation texts e (record {
          object = refreshed texts e az (with_name texts e s.object);
          world = s.world;
        }) in
      let changed = (e.late_initialize s.object.for_provider.value az.value).1 in
      elim (Bool-cases (is_reset texts e s.object)) [
        | inl done ↦ rw done (refl, refl, refl)
        | inr more ↦ rw more (
            fetched-place texts changed az polled.0 s.object polled.1
              (with_name-place texts s.object))
      ]

  -- Observe of a reset configuration, and Observe again.
  twice :
      (g : Engine) (c : ServerConfiguration) (az az' : AzureConfiguration) (value : String)
      (w w' next next' : W)
      → let p = c.for_provider in
        let u = (observe_configuration e g (record { object = c; world = w })).1.object in
        c.deleted ≡ true
        → e.client.get p.resource_group_name p.server_name p.name w ≡ (ok az, w')
        → az.value ≡ some value
        → az.default_value ≡ some value
        → az.source ≡ some "system-default"
        → e.client.get p.resource_group_name p.server_name p.name next ≡ (ok az', next')
        → observe_configuration e g (record { object = u; world = next })
          ≡ ((no_observation, none), record { object = u; world = next' })
  twice g c az az' value w w' next next' del get p q src again =
      let texts = texts_of g in
      let s : Session ServerConfiguration W = record { object = c; world = w' } in
      let place = present-place texts s az in
      let o = (present texts e az s).1.object in
      let reset = present-is_reset g s az value del p q src in
      let found : e.client.get o.for_provider.resource_group_name o.for_provider.server_name
            o.for_provider.name next
          ≡ (ok az', next') =
        rw (place.0, place.1, place.2) again in
      rw (observe_configuration-ok g (record { object = c; world = w }) az w' get) (
        observe_configuration-is_reset e g (record { object = o; world = next }) az' next' reset
          found)

  -- The deletion of a configuration comes to its end at the second observation, whatever happens to
  -- Azure meanwhile. If Azure accepts the put by which Delete resets the configuration to its default
  -- value, then Delete records that operation. If Azure answers the next Observe with the default
  -- value, managed by the system, then whether or not that Observe can poll the operation, every
  -- Observe after it that Azure answers with the configuration says that it is gone, returns no
  -- error and calls and changes nothing more.
  pub observe_configuration-delete_managed :
      (g : Engine) (s : Session ServerConfiguration W) (url : String) (az az' : AzureConfiguration)
      (after w w' next next' : W)
      → s.object.deleted ≡ true
      → let p = s.object.for_provider in
        let value = s.object.at_provider.default_value in
        let t = (delete_managed (texts_of g) e s).1.object in
        let u = (observe_configuration e g (record { object = t; world = w })).1.object in
        e.client.create_or_update p.resource_group_name p.server_name p.name
            (record { value = some value; source = some "system-default" })
            s.world
          ≡ (ok url, after)
        → e.client.get p.resource_group_name p.server_name p.name w ≡ (ok az, w')
        → az.value ≡ some value
        → az.default_value ≡ some value
        → az.source ≡ some "system-default"
        → e.client.get p.resource_group_name p.server_name p.name next ≡ (ok az', next')
        → (t.at_provider.last_operation.method ≡ "PUT")
          × (t.at_provider.last_operation.polling_url ≡ url)
          × (observe_configuration e g (record { object = u; world = next })
              ≡ ((no_observation, none), record { object = u; world = next' }))
  observe_configuration-delete_managed g s url az az' after w w' next next' del put get p q src
        again =
      let done = delete_managed-object (texts_of g) s url after put in
      let c =
        with_operation (delete_managed (texts_of g) e s).1.object.at_provider.last_operation
          s.object in
      let end =
        twice g c az az' s.object.at_provider.default_value w w' next next' del get p q src again in
      (
        done.0,
        done.1,
        subst
            (λ o.
              observe_configuration e g (record {
                object = (observe_configuration e g (record { object = o; world = w })).1.object;
                world = next;
              })
              ≡ (
                (no_observation, none),
                record {
                  object = (observe_configuration e g (record { object = o; world = w })).1.object;
                  world = next';
                },
              ))
            (sym done.2) end,
      )
