-- ===== src/Azure/Auth/Consistency.antt =====
-- What a successful GetAuthInfo has done.
use provider_azure.Prelude.{String, ◌≡◌, refl, Option, none, some, List}
use provider_azure.Go.Errors.{Err, Result, ok, err}
use provider_azure.Vendor.{Vendor, Documented}
use provider_azure.Vendor.Standard.{wrap_nil_inv}
use provider_azure.Azure.Auth.{
  Managed, SecretKeySelector, AuthEnv, AuthInfo, config_of, get_auth_info, authorize, with_secret,
  with_provider, with_data, with_config, tracked, route, use_provider, use_provider_config,
}

module _ {W A S : Type 0} (env : AuthEnv W A S) where
  -- The content is what some text of credentials decodes to, and the authorizer was made, without an
  -- error, from the client configuration that this content spells out.
  abbrev pub MadeFrom : AuthInfo A × W → Type 0
  MadeFrom r =
      (text : String) × (m : List (String × String)) × (before : W) × (env.unmarshal text ≡ ok m)
      × (r.0.content ≡ some m)
      × (env.authorizer (config_of env m) before ≡ (r.0.authorizer, none, r.1))

module _ {W A S : Type 0} (env : AuthEnv W A S) ⦃v : Vendor⦄ (d : Documented v) where
  authorize-MadeFrom :
      (text : String) (r : Result (List (String × String))) (w : W)
      → env.unmarshal text ≡ r
      → (authorize env r w).0.error ≡ none
      → MadeFrom env (authorize env r w)
  authorize-MadeFrom text (err e) w u h =
      cc (h, d.wrap_error e "cannot unmarshal the data in credentials secret")
  authorize-MadeFrom text (ok m) w u h = (text, m, w, u, refl, made)
    where
      reply : Option A × Option Err × W
      reply = env.authorizer (config_of env m) w

      made : reply ≡ (reply.0, none, reply.2)
      made = λ i. (reply.0, wrap_nil_inv d reply.1 _ h i, reply.2)

  with_secret-MadeFrom :
      (ref : SecretKeySelector) (r : Result (List (String × String)) × W)
      → (with_secret env ref r).0.error ≡ none
      → MadeFrom env (with_secret env ref r)
  with_secret-MadeFrom ref (err e, w) h = cc
  with_secret-MadeFrom ref (ok entries, w) h = authorize-MadeFrom _ _ w refl h

  with_provider-MadeFrom :
      (r : Result SecretKeySelector × W)
      → (with_provider env r).0.error ≡ none
      → MadeFrom env (with_provider env r)
  with_provider-MadeFrom (err e, w) h = cc (h, d.wrap_error e "cannot get referenced Provider")
  with_provider-MadeFrom (ok ref, w) h = with_secret-MadeFrom ref _ h

  with_data-MadeFrom :
      (r : Result String × W) → (with_data env r).0.error ≡ none → MadeFrom env (with_data env r)
  with_data-MadeFrom (err e, w) h = cc (h, d.wrap_error e "cannot get credentials")
  with_data-MadeFrom (ok text, w) h = authorize-MadeFrom text _ w refl h

  with_config-MadeFrom :
      (r : Result S × W) → (with_config env r).0.error ≡ none → MadeFrom env (with_config env r)
  with_config-MadeFrom (err e, w) h = cc (h, d.wrap_error e "cannot get referenced ProviderConfig")
  with_config-MadeFrom (ok s, w) h = with_data-MadeFrom _ h

  tracked-MadeFrom :
      (name : String) (r : Option Err × W)
      → (tracked env name r).0.error ≡ none
      → MadeFrom env (tracked env name r)
  tracked-MadeFrom name (some e, w) h = cc (h, d.wrap_error e "cannot track ProviderConfig usage")
  tracked-MadeFrom name (none, w) h = with_config-MadeFrom _ h

  route-MadeFrom :
      (mg : Managed) (config provider : Option String) (w : W)
      → (route env mg config provider w).0.error ≡ none
      → MadeFrom env (route env mg config provider w)
  unfolding use_provider use_provider_config
  route-MadeFrom mg (some name) provider w h = tracked-MadeFrom name _ h
  route-MadeFrom mg none (some name) w h = with_provider-MadeFrom _ h
  route-MadeFrom mg none none w h = cc

  -- Where GetAuthInfo returns no error, its content is what some text of credentials decodes to, and
  -- its authorizer was made, without an error, from the client configuration that this content
  -- spells out.
  pub get_auth_info-MadeFrom :
      (mg : Managed) (w : W)
      → (get_auth_info env mg w).0.error ≡ none
      → MadeFrom env (get_auth_info env mg w)
  unfolding get_auth_info
  get_auth_info-MadeFrom mg w h = route-MadeFrom mg mg.provider_config_ref mg.provider_ref w h
