-- ===== src/Connect/Naming.antt =====
-- The external names that the controllers of configurations give, by the credentials.
use Prim.Native.String.{◌++◌}
use provider_azure.Prelude.{String, Bool, true, ◌≡◌, ◌∙◌, ap, Option, none, some, List, arith}
use provider_azure.Go.Errors.{Err}
use provider_azure.Go.Effect.{Session}
use provider_azure.Vendor.{Vendor, Documented}
use provider_azure.Azure.Auth.{Managed, AuthEnv, index}
use provider_azure.Azure.Connect.{Connected}
use provider_azure.Azure.Operation.{Futures}
use provider_azure.Sql.Configuration.{Engine, mysql, postgresql, ServerConfiguration}
use provider_azure.Sql.Configuration.Client.{ConfigurationsClient, update_configuration}
use provider_azure.Sql.Configuration.Controller.{
  External, texts_of, generate_ext_name, create_configuration,
}
use provider_azure.Connect.Databases.{connect_mysql_configuration, connect_postgresql_configuration}
use provider_azure.Connect.Consistency.{Credits, connect_subscription-Credits}

module _ {W A S : Type 0} (auth : AuthEnv W A S) ⦃v : Vendor⦄
    (new_client : String → Option A → ConfigurationsClient W)
    (sender_of : ConfigurationsClient W → Futures W)
    (late_initialize : Option String → Option String → Option String × Bool) where
  abbrev pub connect_configuration : Engine → Managed → W → Connected (External W) W
  connect_configuration mysql =
      connect_mysql_configuration auth new_client sender_of late_initialize
  connect_configuration postgresql =
      connect_postgresql_configuration auth new_client sender_of late_initialize

  -- The external client for a subscription and an authorizer.
  abbrev external_of : String → Option A → External W
  external_of subscription a =
      let cl = new_client subscription a in
      record {
        client = cl;
        futures = sender_of cl;
        subscription_id = subscription;
        late_initialize = late_initialize;
      }

  module _ (d : Documented v) where
    connect_configuration-Credits :
        (engine : Engine) (mg : Managed) (w : W) (e : External W) (w' : W)
        → connect_configuration engine mg w ≡ ((some e, none), w')
        → (m : List (String × String)) × (a : Option A) × Credits auth m a
          × (e ≡ external_of (index m "subscriptionId") a)
    unfolding connect_mysql_configuration connect_postgresql_configuration
    connect_configuration-Credits mysql mg w e w' h =
        connect_subscription-Credits auth d external_of mg w e w' h
    connect_configuration-Credits postgresql mg w e w' h =
        connect_subscription-Credits auth d external_of mg w e w' h

create_configuration-external_name :
    {W : Type 0} ⦃v : Vendor⦄ (engine : Engine) (e : External W)
    (s t : Session ServerConfiguration W) (x : Option Err)
    → create_configuration (texts_of engine) e s ≡ ((true, x), t)
    → t.object.external_name
      ≡ generate_ext_name
          (texts_of engine)
          e
          s.object.for_provider.resource_group_name
          s.object.for_provider.server_name
          s.object.for_provider.name
unfolding create_configuration update_configuration generate_ext_name
create_configuration-external_name engine e s t x h = ground (arith, h)

module _ {W A S : Type 0} (auth : AuthEnv W A S) ⦃v : Vendor⦄ (d : Documented v)
    (new_client : String → Option A → ConfigurationsClient W)
    (sender_of : ConfigurationsClient W → Futures W)
    (late_initialize : Option String → Option String → Option String × Bool) where
  -- For MySQL and for PostgreSQL: where Connect returns an external client, and Create with it says
  -- that the external name was assigned, there is one set of credentials from which the authorizer of
  -- the client was made without an error, and of whose subscription the client is; and the name that
  -- the object then has spells that subscription, the provider of the engine, and the resource group,
  -- the server and the name of the object's specification.
  pub create_configuration-connect_configuration :
      (engine : Engine) (mg : Managed) (w : W) (e : External W) (w' : W)
      (s t : Session ServerConfiguration W) (x : Option Err)
      → connect_configuration auth new_client sender_of late_initialize engine mg w
        ≡ ((some e, none), w')
      → create_configuration (texts_of engine) e s ≡ ((true, x), t)
      → (m : List (String × String)) × (a : Option A) × Credits auth m a
        × (e.client ≡ new_client (index m "subscriptionId") a)
        × (t.object.external_name
            ≡ "/subscriptions/"
              ++ (index m "subscriptionId"
                  ++ ("/resourceGroups/"
                      ++ (s.object.for_provider.resource_group_name
                          ++ ("/providers/"
                              ++ ((texts_of engine).provider
                                  ++ ("/servers/"
                                      ++ (s.object.for_provider.server_name
                                          ++ ("/configurations/"
                                              ++ s.object.for_provider.name)))))))))
  unfolding generate_ext_name
  create_configuration-connect_configuration engine mg w e w' s t x h c =
      let (m, a, k, f) =
        connect_configuration-Credits auth new_client sender_of late_initialize d engine mg w e w'
          h in
      let n = create_configuration-external_name engine e s t x c in
      (
        m,
        a,
        k,
        cc (ap (λ (e : External W). e.client) f),
        n
            ∙ ap
                (λ (e : External W).
                  generate_ext_name (texts_of engine) e s.object.for_provider.resource_group_name
                    s.object.for_provider.server_name s.object.for_provider.name)
                f,
      )
