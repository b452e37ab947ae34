-- ===== src/Aks/Steps.antt =====
-- pkg/clients/compute/aks.go: how ensureApplication, ensureServicePrincipal and ensureRoleAssignment
-- can end, told by what the calls of Azure answer.
use Prim.Native.String.{◌++◌}
use provider_azure.Prelude.{
  String, ◌≡◌, refl, sym, ap, ◌≢◌, inl, inr, Bool-cases, true, false, Option, none, some, List, [],
  ◌∷◌, arith, eq_iff, ◌==◌,
}
use provider_azure.Go.Errors.{Err, Result, ok, err}
use provider_azure.Vendor.{Vendor}
use provider_azure.Azure.Convert.{is_not_found, to_string_ptr}
use provider_azure.Aks.Sdk.{
  PasswordCredential, Application, ApplicationCreateParameters, ServicePrincipal, RoleAssignment,
  Listing, AggregateClient,
}
use provider_azure.Aks.Params.{network_contributor_role_id, name_filter, principal_filter}
use provider_azure.Aks.Client.{
  new_password_credential, with_credential, listed, updated, principal_found, assigned,
  create_assignment, with_name, ensure_application, ensure_service_principal,
  ensure_role_assignment,
}

module _ {W : Type 0} (c : AggregateClient W) ⦃v : Vendor⦄ where
  -- A credential with the secret, and the answer of the search for the applications of a name.
  abbrev pub Searched : String → String → W → PasswordCredential → Listing Application → W → Type 0
  Searched name secret w pc answer w2 =
      (w1 : W) × (new_password_credential c secret w ≡ ((pc, none), w1))
      × (pc.value ≡ v.string_ptr secret)
      × (c.applications.list_complete (name_filter name) w1 ≡ (answer, w2))

  -- The application is there only if one of the name was found and took the credential, or one that
  -- has the name and the credential was created after the search had found none.
  pub data ApplicationStep (name secret : String) (w : W) : Result Application → W → Type 0 where
    no_credential :
        (pc : PasswordCredential) (x : Err) (w1 : W)
        → new_password_credential c secret w ≡ ((pc, some x), w1)
        → ApplicationStep name secret w (err x) w1
    not_searched :
        (pc : PasswordCredential) (a : Application) (l : List Application) (x : Err) (w2 : W)
        → Searched name secret w pc (a ∷ l, some x) w2
        → ApplicationStep name secret w (err x) w2
    not_updated :
        (pc : PasswordCredential) (a : Application) (l : List Application) (x : Err) (w2 w3 : W)
        → Searched name secret w pc (a ∷ l, none) w2
        → c.applications.update_password_credentials (v.string a.object_id) (pc ∷ []) w2
          ≡ (some x, w3)
        → ApplicationStep name secret w (err x) w3
    application_found :
        (pc : PasswordCredential) (a : Application) (l : List Application) (w2 w3 : W)
        → Searched name secret w pc (a ∷ l, none) w2
        → c.applications.update_password_credentials (v.string a.object_id) (pc ∷ []) w2
          ≡ (none, w3)
        → ApplicationStep name secret w (ok a) w3
    application_created :
        (pc : PasswordCredential) (x : Option Err) (p : ApplicationCreateParameters)
        (r : Result Application) (w2 w3 : W)
        → Searched name secret w pc ([], x) w2
        → p.display_name ≡ v.string_ptr name
        → p.password_credentials ≡ some (pc ∷ [])
        → c.applications.create p w2 ≡ (r, w3)
        → ApplicationStep name secret w r w3

  listed-step :
      (name secret : String) (w w1 : W) (pc : PasswordCredential) (r : Listing Application × W)
      → new_password_credential c secret w ≡ ((pc, none), w1)
      → pc.value ≡ v.string_ptr secret
      → c.applications.list_complete (name_filter name) w1 ≡ r
      → ApplicationStep name secret w (listed c name pc r).0 (listed c name pc r).1
  listed-step name secret w w1 pc (([], x), w2) q s l =
      application_created pc x _ _ w2 _ (w1, q, s, l) refl refl refl
  listed-step name secret w w1 pc ((a ∷ l, some x), w2) q s h =
      not_searched pc a l x w2 (w1, q, s, h)
  listed-step name secret w w1 pc ((a ∷ l, none), w2) q s h = go _ refl
    where
      go :
          (r : Option Err × W)
          → c.applications.update_password_credentials (v.string a.object_id) (pc ∷ []) w2 ≡ r
          → ApplicationStep name secret w (updated c a r).0 (updated c a r).1
      go (some x, w3) u = not_updated pc a l x w2 w3 (w1, q, s, h) u
      go (none, w3) u = application_found pc a l w2 w3 (w1, q, s, h) u

  pub ensure_application-step :
      (name secret : String) (w : W)
      → let r = ensure_application c name secret w in ApplicationStep name secret w r.0 r.1
  unfolding ensure_application
  ensure_application-step name secret w = go _ refl
    where
      go :
          (r : (PasswordCredential × Option Err) × W)
          → new_password_credential c secret w ≡ r
          → ApplicationStep name secret w (with_credential c name r).0 (with_credential c name r).1
      go ((pc, some x), w1) q = no_credential pc x w1 q
      go ((pc, none), w1) q =
          listed-step name secret w w1 pc _ q
            (sym (ap (λ (y : (PasswordCredential × Option Err) × W). y.0.0.value) q)) refl

  -- The principal is there only if it was found by the application's identifier and could be read, or
  -- was created for that application, enabled, after Azure had answered that there is none.
  pub data PrincipalStep (app_id : String) (w : W) : Result ServicePrincipal → W → Type 0 where
    principal_read :
        (id : Option String) (r : Result ServicePrincipal) (w1 w2 : W)
        → c.applications.get_service_principals_id_by_app_id app_id w ≡ (ok id, w1)
        → c.service_principals.get (v.string id) w1 ≡ (r, w2)
        → PrincipalStep app_id w r w2
    principal_created :
        (x : Err) (r : Result ServicePrincipal) (w1 w2 : W)
        → c.applications.get_service_principals_id_by_app_id app_id w ≡ (err x, w1)
        → is_not_found (some x) ≡ true
        → c.service_principals.create
            (record { app_id = v.string_ptr app_id; account_enabled = v.bool_ptr true })
            w1
          ≡ (r, w2)
        → PrincipalStep app_id w r w2
    principal_unknown :
        (x : Err) (w1 : W)
        → c.applications.get_service_principals_id_by_app_id app_id w ≡ (err x, w1)
        → is_not_found (some x) ≡ false
        → PrincipalStep app_id w (err x) w1

  pub ensure_service_principal-step :
      (app_id : String) (w : W)
      → let r = ensure_service_principal c app_id w in PrincipalStep app_id w r.0 r.1
  unfolding ensure_service_principal
  ensure_service_principal-step app_id w = go _ refl
    where
      go :
          (r : Result (Option String) × W)
          → c.applications.get_service_principals_id_by_app_id app_id w ≡ r
          → PrincipalStep app_id w (principal_found c app_id r).0 (principal_found c app_id r).1
      go (ok id, w1) q = principal_read id _ w1 _ q refl
      go (err x, w1) q = elim (Bool-cases (is_not_found (some x))) [
        | inl t ↦ rw t (principal_created x _ w1 _ q t refl)
        | inr f ↦ rw f (principal_unknown x w1 q f)
      ]

  -- There is no error only if no subnet is given, or the principal has a role there, or the role of
  -- network contributor was given to it.
  pub data RoleStep (principal scope : String) (w : W) : Option Err → W → Type 0 where
    no_scope : scope ≡ "" → RoleStep principal scope w none w
    no_name :
        (name : String) (x : Err) (w1 : W)
        → scope ≢ ""
        → c.runtime.new_uuid w ≡ ((name, some x), w1)
        → RoleStep principal scope w (some x) w1
    role_found :
        (name : String) (a : RoleAssignment) (l : List RoleAssignment) (x : Option Err) (w1 w2 : W)
        → scope ≢ ""
        → c.runtime.new_uuid w ≡ ((name, none), w1)
        → c.role_assignments.list_for_scope_complete scope (principal_filter principal) w1
          ≡ ((a ∷ l, x), w2)
        → RoleStep principal scope w x w2
    role_created :
        (name : String) (x r : Option Err) (w1 w2 w3 : W)
        → scope ≢ ""
        → c.runtime.new_uuid w ≡ ((name, none), w1)
        → c.role_assignments.list_for_scope_complete scope (principal_filter principal) w1
          ≡ (([], x), w2)
        → c.role_assignments.create scope name
            (record {
              role_definition_id =
                  to_string_ptr
                    ("/subscriptions/"
                      ++ (c.role_assignments.subscription_id ++ network_contributor_role_id))
                    [];
              principal_id = to_string_ptr principal [];
            })
            w2
          ≡ (r, w3)
        → RoleStep principal scope w r w3

  assigned-step :
      (principal scope name : String) (w w1 : W) (r : Listing RoleAssignment × W)
      → scope ≢ ""
      → c.runtime.new_uuid w ≡ ((name, none), w1)
      → c.role_assignments.list_for_scope_complete scope (principal_filter principal) w1 ≡ r
      → let z =
          assigned c (create_assignment c principal network_contributor_role_id scope name) r in
        RoleStep principal scope w z.0 z.1
  assigned-step principal scope name w w1 (([], x), w2) s u h =
      role_created name x _ w1 w2 _ s u h refl
  assigned-step principal scope name w w1 ((a ∷ l, x), w2) s u h = role_found name a l x w1 w2 s u h

  with_name-step :
      (principal scope : String) (w : W) (r : (String × Option Err) × W)
      → scope ≢ ""
      → c.runtime.new_uuid w ≡ r
      → let z = with_name c principal network_contributor_role_id scope r in
        RoleStep principal scope w z.0 z.1
  with_name-step principal scope w ((name, some x), w1) s u = no_name name x w1 s u
  with_name-step principal scope w ((name, none), w1) s u =
      assigned-step principal scope name w w1 _ s u refl

  pub ensure_role_assignment-step :
      (principal scope : String) (w : W)
      → let r = ensure_role_assignment c principal network_contributor_role_id scope w in
        RoleStep principal scope w r.0 r.1
  unfolding ensure_role_assignment
  ensure_role_assignment-step principal scope w = elim (Bool-cases (scope == "")) [
    | inl t ↦ rw t (no_scope ((eq_iff scope "").0 t))
    | inr f ↦
        rw f (with_name-step principal scope w _ (λ e. ground (arith, eq_iff scope "", e, f)) refl)
  ]
