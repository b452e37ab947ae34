-- ===== src/Azure/Connect.antt =====
-- What the methods `Connect` of the controllers have in common: GetAuthInfo, and a client of the SDK
-- for the subscription of the credentials, with the authorizer.
use provider_azure.Prelude.{String, Option, none, some}
use provider_azure.Go.Errors.{Err}
use provider_azure.Go.Maps.{GoMap, entries}
use provider_azure.Vendor.{Vendor}
use provider_azure.Azure.Auth.{Managed, AuthEnv, AuthInfo, index, get_auth_info}

-- An external client and an error, of which one is nil, with the world after the calls.
abbrev pub Connected : Type 0 → Type 0 → Type 0
Connected E W = (Option E × Option Err) × W

-- `creds[key]`, where the map may be nil.
abbrev pub credential : GoMap String → String → String
credential creds key = index (entries creds) key

module _ {W A S : Type 0} (auth : AuthEnv W A S) ⦃v : Vendor⦄ where
  abbrev pub on_auth :
      {E : Type 0}
      → (Option Err → Option Err)
      → (GoMap String → Option A → W → Connected E W)
      → AuthInfo A × W
      → Connected E W
  on_auth failed make (info, w) = elim info.error [
    | some e ↦ ((none, failed (some e)), w)
    | none ↦ make info.content info.authorizer w
  ]

  -- By what becomes of an error of GetAuthInfo, and what is made of the credentials.
  unfoldable pub connect :
      {E : Type 0}
      → (Option Err → Option Err)
      → (GoMap String → Option A → W → Connected E W)
      → Managed
      → W
      → Connected E W
  connect failed make mg w = on_auth failed make (get_auth_info auth mg w)

  -- The common case: the error is returned as it is, and the client is made without a call.
  unfoldable pub connect_subscription :
      {E : Type 0} → (String → Option A → E) → Managed → W → Connected E W
  unfolding connect
  connect_subscription make =
      connect (λ x. x) λ creds a w. ((some (make (credential creds "subscriptionId") a), none), w)
