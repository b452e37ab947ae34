-- ===== src/Sql/Postgresql/Creation.antt =====
-- A PostgreSQL server from its creation until Azure has it, over any number of reconciles.
use provider_azure.Prelude.{
  String, ◌≡◌, refl, ◌∙◌, ◌≢◌, ◌⊎◌, inl, inr, Bool-cases, true, Option, none, some, ◌==◌, arith,
  eq_iff,
}
use provider_azure.Go.Errors.{Err, Result, ok, err}
use provider_azure.Go.Effect.{Session}
use provider_azure.Vendor.{Vendor, Documented, creating}
use provider_azure.Azure.Convert.{is_not_found}
use provider_azure.Azure.Operation.{future_json}
use provider_azure.Azure.Operation.Polling.{
  fetch_async_operation_lem, IsCreating, fetch_async_operation-IsCreating,
  status-fetch_async_operation,
}
use provider_azure.Managed.{Observed}
use provider_azure.Sql.Types.{SqlServer}
use provider_azure.Sql.Postgresql.Params.{Server}
use provider_azure.Sql.Postgresql.Client.{get_server, create_server}
use provider_azure.Sql.Postgresql.Lifecycle.{method-create_server}
use provider_azure.Sql.Postgresql.Controller.{
  External, observe_server, create_managed, observed, updated, fetched, missing, created, generated,
  create_keeping, get_password, fetch_last_operation,
}

-- Observe returns an error, or says that the server exists.
abbrev pub NotAbsent : Observed → Type 0
NotAbsent o = (o.1 ≢ none) ⊎ (o.0.resource_exists ≡ true)

module _ {W : Type 0} (e : External W) ⦃v : Vendor⦄ where
  -- Azure answers to the next observation with an error; and if this is that it does not have the
  -- server, it says that the recorded operation is in progress.
  pub record Unfinished (s : Session SqlServer W) : Type 0 where
    pub reply : Err
    pub after_get : W
    pub answer :
        e.client.get s.object.for_provider.resource_group_name s.object.external_name s.world
        ≡ (err reply, after_get)
    pub in_progress :
        is_not_found (some reply) ≡ true
        → (e.futures.done_with_context
            (future_json s.object.at_provider.last_operation)
            after_get).0.status
          ≡ "InProgress"

  -- What an object can become by being observed meanwhile, time and again; before each observation
  -- the world may change in any way.
  pub data Watched (r : SqlServer) : Session SqlServer W → Type 0 where
    start : (w : W) → Watched r (record { object = r; world = w })
    again :
        {t : Session SqlServer W} (w : W)
        → Watched r t
        → Unfinished t
        → Watched r (record { object = (observe_server e t).1.object; world = w })

  missing-object : (y : Option Err) (s : Session SqlServer W) → (missing e y s).1.object ≡ s.object
  missing-object (some x) s = refl
  missing-object none s = refl

  observe-IsCreating :
      (s : Session SqlServer W)
      → IsCreating s.object.at_provider.last_operation
      → Unfinished s
      → IsCreating (observe_server e s).1.object.at_provider.last_operation
  unfolding observe_server get_server fetch_last_operation
  observe-IsCreating s c u =
      let f = fetch_last_operation e (record s { world = u.after_get }) in
      let same = missing-object f.0 f.1 in
      let k =
        fetch_async_operation-IsCreating e.futures s.object.at_provider.last_operation u.after_get
          c in
      rw (u.answer) (elim (Bool-cases (is_not_found (some u.reply))) [
        | inl n ↦ rw n (rw same k)
        | inr n ↦ rw n c
      ])

  Watched-IsCreating :
      {r : SqlServer} {t : Session SqlServer W}
      → IsCreating r.at_provider.last_operation
      → Watched r t
      → IsCreating t.object.at_provider.last_operation
  Watched-IsCreating c (start w) = c
  Watched-IsCreating c (again {t = t} w o u) = observe-IsCreating t (Watched-IsCreating c o) u

module _ {W : Type 0} (e : External W) ⦃v : Vendor⦄ (d : Documented v) where
  method-created :
      (pw : String) (s t : Session SqlServer W) (x : Option Err)
      → create_server e.client pw s ≡ (x, t)
      → (created e pw x t).0.1 ≡ none
      → (created e pw x t).1.object.at_provider.last_operation.method ≡ "PUT"
  unfolding fetch_last_operation
  method-created pw s t (some y) c h =
      absurd (cc (h, d.wrap_error y "cannot create PostgreSQLServer"))
  method-created pw s t none c h =
      (fetch_async_operation_lem e.futures t.object.at_provider.last_operation t.world).0
      ∙ method-create_server e s t pw c

  method-generated :
      (r : Result String) (s : Session SqlServer W)
      → (generated e r s).0.1 ≡ none
      → (generated e r s).1.object.at_provider.last_operation.method ≡ "PUT"
  method-generated (err x) s h = absurd (cc (h, d.wrap_error x "cannot generate admin password"))
  method-generated (ok pw) s h =
      let p = create_server e.client pw s in method-created pw s p.1 p.0 refl h

  method-create_keeping :
      (r : String × Option Err) (s : Session SqlServer W)
      → (create_keeping e r s).0.1 ≡ none
      → (create_keeping e r s).1.object.at_provider.last_operation.method ≡ "PUT"
  method-create_keeping (pw, some x) s h = absurd (cc h)
  method-create_keeping (pw, none) s h = elim (Bool-cases (pw == "")) [
    | inl q ↦ rw q (method-generated (e.new_password s.world).0 _ (rw q at h))
    | inr q ↦
        rw q (let p = create_server e.client pw s in method-created pw s p.1 p.0 refl (rw q at h))
  ]

  method-create_managed :
      (s : Session SqlServer W)
      → (create_managed e s).0.1 ≡ none
      → (create_managed e s).1.object.at_provider.last_operation.method ≡ "PUT"
  unfolding create_managed
  method-create_managed s h =
      let asked = record s {
        object = record (s.object) { conditions = v.set_condition creating s.object.conditions };
      } in
      let p = get_password e asked in method-create_keeping p.0 p.1 h

  fails : (x : Err) (t : String) → v.wrap (some x) t ≢ none
  fails x t h = cc (h, d.wrap_error x t)

  in_motion :
      (y : Option Err) (t : Session SqlServer W)
      → t.object.at_provider.last_operation.method ≡ "PUT"
      → (y ≡ none → t.object.at_provider.last_operation.status ≡ "InProgress")
      → NotAbsent (missing e y t).0
  in_motion (some x) t m p = inl (fails x "cannot fetch last operation")
  in_motion none t m p =
      let op = t.object.at_provider.last_operation in
      inr (ground (arith, p refl, eq_iff op.method "PUT", eq_iff op.status "InProgress"))

  missing-NotAbsent :
      (s : Session SqlServer W)
      → IsCreating s.object.at_provider.last_operation
      → (e.futures.done_with_context
          (future_json s.object.at_provider.last_operation)
          s.world).0.status
        ≡ "InProgress"
      → NotAbsent (missing e (fetch_last_operation e s).0 (fetch_last_operation e s).1).0
  unfolding fetch_last_operation
  missing-NotAbsent s c p =
      let op = s.object.at_provider.last_operation in
      in_motion _ _ (fetch_async_operation-IsCreating e.futures op s.world c).0
        (λ h. status-fetch_async_operation e.futures op s.world c h ∙ p)

  fetched-NotAbsent :
      (x : Option Err) (server : Server) (s : Session SqlServer W)
      → NotAbsent (fetched e x server s).0
  fetched-NotAbsent (some x) server s = inl (fails x "cannot fetch last operation")
  fetched-NotAbsent none server s = inr refl

  updated-NotAbsent :
      (x : Option Err) (server : Server) (s : Session SqlServer W)
      → NotAbsent (updated e x server s).0
  updated-NotAbsent (some x) server s = inl (fails x "cannot update PostgreSQL custom resource")
  updated-NotAbsent none server s = fetched-NotAbsent _ server _

  observed-NotAbsent :
      (r : Result Server) (s : Session SqlServer W)
      → IsCreating s.object.at_provider.last_operation
      → ((x : Err)
          → r ≡ err x
          → is_not_found (some x) ≡ true
          → (e.futures.done_with_context
              (future_json s.object.at_provider.last_operation)
              s.world).0.status
            ≡ "InProgress")
      → NotAbsent (observed e r s).0
  observed-NotAbsent (ok server) s c p = updated-NotAbsent _ server _
  observed-NotAbsent (err x) s c p = elim (Bool-cases (is_not_found (some x))) [
    | inl n ↦ rw n (missing-NotAbsent s c (p x refl n))
    | inr n ↦ rw n (inl (fails x "cannot get PostgreSQLServer"))
  ]

  -- No answer of Azure makes Observe report a server absent that is being created, so that it is not
  -- created a second time. Suppose that Create has returned no error and has recorded a URL to poll.
  -- The object may then have been observed any number of times, while Azure answered with an error,
  -- and, where the error was that it does not have the server, said that the operation was in
  -- progress. Then the next observation returns an error or says that the server exists, if Azure
  -- says that the operation is in progress in case it still does not have the server.
  pub observe_server-Watched :
      (s t : Session SqlServer W) (r : Result Server) (w : W)
      → (create_managed e s).0.1 ≡ none
      → (create_managed e s).1.object.at_provider.last_operation.polling_url ≢ ""
      → Watched e (create_managed e s).1.object t
      → e.client.get t.object.for_provider.resource_group_name t.object.external_name t.world
        ≡ (r, w)
      → ((x : Err)
          → r ≡ err x
          → is_not_found (some x) ≡ true
          → (e.futures.done_with_context
              (future_json t.object.at_provider.last_operation)
              w).0.status
            ≡ "InProgress")
      → NotAbsent (observe_server e t).0
  unfolding observe_server get_server
  observe_server-Watched s t r w h u o g p = rw g (
      observed-NotAbsent r (record t { world = w })
        (Watched-IsCreating e (method-create_managed s h, u) o) p)
