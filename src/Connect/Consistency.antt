-- ===== src/Connect/Consistency.antt =====
-- What the clients that Connect makes have to do with the credentials of the managed resource.
use provider_azure.Prelude.{
  String, ◌≡◌, refl, sym, ◌∙◌, ◌⊎◌, inl, inr, Option, Option-cases, none, some, List,
}
use provider_azure.Go.Errors.{Err, Result, ok, err}
use provider_azure.Go.Maps.{GoMap}
use provider_azure.Vendor.{Vendor, Documented}
use provider_azure.Azure.Auth.{Managed, AuthEnv, index, config_of, get_auth_info}
use provider_azure.Azure.Auth.Consistency.{get_auth_info-MadeFrom}
use provider_azure.Azure.Connect.{
  Connected, credential, connect, connect_subscription, connect_subscription,
}
use provider_azure.Aks.Sdk.{AggregateClient}
use provider_azure.Aks.Controller.{External}
use provider_azure.Connect.Aks.{
  Adal, AksSdk, refreshed, with_token, with_oauth, with_client, new_aggregate_client,
  connect_cluster,
}

module _ {W A S : Type 0} (auth : AuthEnv W A S) where
  -- Some text of credentials decodes to `m`, and `a` is the authorizer that was made, without an
  -- error, from the client configuration that `m` spells out.
  abbrev pub Credits : List (String × String) → Option A → Type 0
  Credits m a =
      (text : String) × (before after : W) × (auth.unmarshal text ≡ ok m)
      × (auth.authorizer (config_of auth m) before ≡ (a, none, after))

module _ {W A S : Type 0} (auth : AuthEnv W A S) ⦃v : Vendor⦄ (d : Documented v) where
  -- Connect returns the error of GetAuthInfo, or makes something of consistent credentials.
  connect-cases :
      {E : Type 0} (failed : Option Err → Option Err)
      (make : GoMap String → Option A → W → Connected E W) (mg : Managed) (w : W)
      → ((x : Err) × (w' : W) × (connect auth failed make mg w ≡ ((none, failed (some x)), w')))
        ⊎ ((m : List (String × String)) × (a : Option A) × (w' : W) × Credits auth m a
            × (connect auth failed make mg w ≡ make (some m) a w'))
  unfolding connect
  connect-cases failed make mg w =
      let r = get_auth_info auth mg w in
      elim (Option-cases (get_auth_info auth mg w).0.error) [
        | inl e ↦
            let (text, m, before, u, c, a) = get_auth_info-MadeFrom auth d mg w e in
            inr (m, r.0.authorizer, r.1, (text, before, r.1, u, a), rw e (rw c refl))
        | inr (x, e) ↦ inl (x, r.1, rw e refl)
      ]

  -- An external client that is made for a subscription and an authorizer gets both from one set of
  -- credentials.
  pub connect_subscription-Credits :
      {E : Type 0} (make : String → Option A → E) (mg : Managed) (w : W) (e : E) (w' : W)
      → connect_subscription auth make mg w ≡ ((some e, none), w')
      → (m : List (String × String)) × (a : Option A) × Credits auth m a
        × (e ≡ make (index m "subscriptionId") a)
  unfolding connect_subscription
  connect_subscription-Credits make mg w e w' h =
      elim (connect-cases (λ x. x)
        (λ creds a w. ((some (make (credential creds "subscriptionId") a), none), w)) mg w) [
          | inl (x, w1, q) ↦ absurd (cc (h, q))
          | inr (m, a, w1, k, q) ↦ (m, a, k, cc (h, q))
        ]

module _ {W A C T : Type 0} (adal : Adal W C T) ⦃v : Vendor⦄ (sdk : AksSdk W A T)
    (m : List (String × String)) (a : Option A) where
  -- The token of `c` was made from the credentials `m` and was refreshed without an error.
  abbrev pub Refreshed : AggregateClient W → W → Type 0
  Refreshed c after =
      (cfg : C) × (token : T) × (before : W) × (adal.new_oauth_config
          (index m "activeDirectoryEndpointUrl") (index m "tenantId")
        ≡ ok cfg)
      × (adal.new_service_principal_token cfg (index m "clientId") (index m "clientSecret")
            (index m "activeDirectoryGraphResourceId")
          ≡ ok token)
      × (adal.refresh token before ≡ (none, after))
      × (c.managed_clusters ≡ sdk.new_managed_clusters_client (index m "subscriptionId") a)
      × (c.role_assignments ≡ sdk.new_role_assignments_client (index m "subscriptionId") a)
      × (c.applications
          ≡ sdk.new_applications_client (index m "tenantId")
              (some (sdk.new_bearer_authorizer token)))
      × (c.service_principals
          ≡ sdk.new_service_principals_client (index m "tenantId")
              (some (sdk.new_bearer_authorizer token)))

  refreshed-Refreshed :
      (cfg : C) (token : T) (w : W) (r : Option Err × W) (c : AggregateClient W) (w' : W)
      → adal.new_oauth_config (index m "activeDirectoryEndpointUrl") (index m "tenantId") ≡ ok cfg
      → adal.new_service_principal_token cfg
          (index m "clientId")
          (index m "clientSecret")
          (index m "activeDirectoryGraphResourceId")
        ≡ ok token
      → adal.refresh token w ≡ r
      → refreshed adal sdk (some m) a token r ≡ ((some c, none), w')
      → Refreshed c w'
  refreshed-Refreshed cfg token w (some e, w1) c w' o t f h = absurd (cc h)
  refreshed-Refreshed cfg token w (none, w1) c w' o t f h =
      (cfg, token, w, o, t, cc (f, h), cc h, cc h, cc h, cc h)

  with_token-Refreshed :
      (cfg : C) (w : W) (r : Result T) (c : AggregateClient W) (w' : W)
      → adal.new_oauth_config (index m "activeDirectoryEndpointUrl") (index m "tenantId") ≡ ok cfg
      → adal.new_service_principal_token cfg
          (index m "clientId")
          (index m "clientSecret")
          (index m "activeDirectoryGraphResourceId")
        ≡ r
      → with_token adal sdk (some m) a r w ≡ ((some c, none), w')
      → Refreshed c w'
  with_token-Refreshed cfg w (err e) c w' o t h = absurd (cc h)
  with_token-Refreshed cfg w (ok token) c w' o t h =
      refreshed-Refreshed cfg token w (adal.refresh token w) c w' o t refl h

  with_oauth-Refreshed :
      (w : W) (r : Result C) (c : AggregateClient W) (w' : W)
      → adal.new_oauth_config (index m "activeDirectoryEndpointUrl") (index m "tenantId") ≡ r
      → with_oauth adal sdk (some m) a r w ≡ ((some c, none), w')
      → Refreshed c w'
  with_oauth-Refreshed w (err e) c w' o h = absurd (cc h)
  with_oauth-Refreshed w (ok cfg) c w' o h = with_token-Refreshed cfg w _ c w' o refl h

  new_aggregate_client-Refreshed :
      (w : W) (c : AggregateClient W) (w' : W)
      → new_aggregate_client adal sdk (some m) a w ≡ ((some c, none), w')
      → Refreshed c w'
  unfolding new_aggregate_client
  new_aggregate_client-Refreshed w c w' h = with_oauth-Refreshed w _ c w' refl h

module _ {W A S C T : Type 0} (auth : AuthEnv W A S) (adal : Adal W C T) ⦃v : Vendor⦄
    (d : Documented v) where
  with_client-inv :
      (external_of : AggregateClient W → External W) (r : Connected (AggregateClient W) W)
      (e : External W) (w' : W)
      → with_client auth adal external_of r ≡ ((some e, none), w')
      → (c : AggregateClient W) × (r ≡ ((some c, none), w')) × (e ≡ external_of c)
  with_client-inv external_of ((c, some x), w) e w' h = absurd (cc h)
  with_client-inv external_of ((none, none), w) e w' h = absurd (cc h)
  with_client-inv external_of ((some c, none), w) e w' h = (c, cc h, cc h)

  -- Where Connect of the AKS controller returns an external client, all of it comes from one set of
  -- credentials: they were decoded from a text, the authorizer was made from them without an error,
  -- and so was a token of the service principal, which has been refreshed without an error. The
  -- clients of the clusters and of the role assignments are made for the credentials' subscription
  -- and get that authorizer, those of the applications and of the service principals are made for
  -- their tenant and get a bearer authorizer of that token.
  pub connect_cluster-Refreshed :
      (sdk : AksSdk W A T) (external_of : AggregateClient W → External W) (mg : Managed) (w : W)
      (e : External W) (w' : W)
      → connect_cluster auth adal sdk external_of mg w ≡ ((some e, none), w')
      → (m : List (String × String)) × (a : Option A) × (c : AggregateClient W) × Credits auth m a
        × Refreshed adal sdk m a c w'
        × (e ≡ external_of c)
  unfolding connect_cluster
  connect_cluster-Refreshed sdk external_of mg w e w' h =
      elim (connect-cases auth d (λ x. x)
        (λ creds a w. with_client auth adal external_of (new_aggregate_client adal sdk creds a w))
        mg w) [
          | inl (x, w1, q) ↦ absurd (cc (h, q))
          | inr (m, a, w1, k, q) ↦
              let (c, r, f) = with_client-inv external_of _ e w' (sym q ∙ h) in
              (m, a, c, k, new_aggregate_client-Refreshed adal sdk m a w1 c w' r, f)
        ]
