-- ===== src/References/Settled.antt =====
-- What is resolved stays resolved.
use provider_azure.Prelude.{◌≡◌, refl, ap, subst, ◌≢◌, ◌⊎◌, inl, inr, Option, none}
use provider_azure.Go.Errors.{Err, Result, ok, err}
use provider_azure.Go.Effect.{M, Session, pure}
use provider_azure.Vendor.{Vendor, Documented}
use provider_azure.References.{
  Referenced, Target, Extractor, ResolutionRequest, ResolutionResponse, Resolver, resource_group,
  subnet, external_name, subnet_id,
}
use provider_azure.References.Resolve.{Field, request_of, resolved, answered, resolve}
use provider_azure.References.Database.{
  RuleReferences, rule_group, rule_subnet, rule_server, resolve_rule,
}

-- What crossplane-runtime's documentation says of resolving for an object that is not being deleted,
-- with references and selectors that do not ask to be resolved always: a value that is set is kept,
-- with the reference beside it; without a reference and a selector there is nothing to do; and
-- otherwise a value that is empty is an error.
pub record ResolvesOnce {W : Type 0} (resolver : Resolver W) : Type 0 where
  pub keeps :
      (q : ResolutionRequest) (w : W)
      → q.current_value ≢ ""
      → resolver q w
        ≡ (ok (record { resolved_value = q.current_value; resolved_reference = q.reference }), w)
  pub idle :
      (q : ResolutionRequest) (w : W)
      → q.reference ≡ none
      → q.selector ≡ none
      → resolver q w
        ≡ (ok (record { resolved_value = q.current_value; resolved_reference = none }), w)
  pub filled :
      (q : ResolutionRequest) (w : W) (p : ResolutionResponse)
      → (resolver q w).0 ≡ ok p
      → (p.resolved_value ≢ "")
        ⊎ ((q.reference ≡ none) × (q.selector ≡ none) × (p.resolved_reference ≡ none))

module _ {W : Type 0} (resolver : Resolver W) (once : ResolvesOnce resolver) where
  settled :
      (to : Target) (extract : Extractor) (f : Referenced) (p : ResolutionResponse) (w w' : W)
      → (resolver (request_of to extract f) w).0 ≡ ok p
      → resolver (request_of to extract (resolved p f)) w' ≡ (ok p, w')
  settled to extract f p w w' h = elim (once.filled (request_of to extract f) w p h) [
    | inl n ↦ once.keeps (request_of to extract (resolved p f)) w' n
    | inr (r, s, e) ↦ rw e (
        once.idle (request_of to extract (record f { value = p.resolved_value; reference = none }))
          w' refl s)
  ]

module _ {W : Type 0} (resolver : Resolver W) ⦃v : Vendor⦄ (d : Documented v) where
  -- A step that has returned no error has had an answer, and so have the steps after it.
  answered-none :
      {R : Type 0} (field : Field R) (next : M R W (Option Err)) (r : Result ResolutionResponse)
      (s t : Session R W)
      → answered resolver field next r s ≡ (none, t)
      → (p : ResolutionResponse) × (r ≡ ok p)
        × (next (record {
          object = field.set (resolved p (field.get s.object)) s.object;
          world = s.world;
        })
            ≡ (none, t))
  answered-none field next (err x) s t h =
      absurd (cc (d.wrap_error x field.path, ap (λ (o : Option Err × Session _ W). o.0) h))
  answered-none field next (ok p) s t h = (p, refl, h)

  resolve-none :
      {R : Type 0} (field : Field R) (to : Target) (extract : Extractor) (next : M R W (Option Err))
      (s t : Session R W)
      → resolve resolver field to extract next s ≡ (none, t)
      → let (r, w) = resolver (request_of to extract (field.get s.object)) s.world in
        (p : ResolutionResponse) × (r ≡ ok p)
        × (next
              (record { object = field.set (resolved p (field.get s.object)) s.object; world = w })
            ≡ (none, t))
  resolve-none field to extract next s t h =
      let (r, w) = resolver (request_of to extract (field.get s.object)) s.world in
      answered-none field next r (record { object = s.object; world = w }) t h

  -- Once the references of a virtual network rule have been resolved without an error, to resolve
  -- them again returns no error either, calls nothing and changes nothing, for a rule that is not
  -- being deleted.
  pub resolve_rule_idem :
      (once : ResolvesOnce resolver) (to : Target) (s t : Session RuleReferences W)
      → resolve_rule resolver to s ≡ (none, t)
      → resolve_rule resolver to t ≡ (none, t)
  resolve_rule_idem once to s t h =
      let stop : M RuleReferences W (Option Err) = pure none in
      let last = resolve resolver rule_server to external_name stop in
      let rest = resolve resolver rule_subnet subnet subnet_id last in
      let r = s.object in
      let w1 =
        (resolver (request_of resource_group external_name r.resource_group_name) s.world).1 in
      let w2 = (resolver (request_of subnet subnet_id r.virtual_network_subnet_id) w1).1 in
      let w3 = (resolver (request_of to external_name r.server_name) w2).1 in
      let (p, q, h1) = resolve-none rule_group resource_group external_name rest s t h in
      let r1 = record r { resource_group_name = resolved p r.resource_group_name } in
      let (p2, q2, h2) =
        resolve-none rule_subnet subnet subnet_id last (record { object = r1; world = w1 }) t h1 in
      let r2 = record r1 { virtual_network_subnet_id = resolved p2 r.virtual_network_subnet_id } in
      let (p3, q3, h3) =
        resolve-none rule_server to external_name stop (record { object = r2; world = w2 }) t h2 in
      subst (λ (u : Session RuleReferences W). resolve_rule resolver to u ≡ (none, u))
        (ap (λ (o : Option Err × Session RuleReferences W). o.1) h3)
        (rw
          (
            settled resolver once resource_group external_name r.resource_group_name p s.world w3 q,
            settled resolver once subnet subnet_id r.virtual_network_subnet_id p2 w1 w3 q2,
            settled resolver once to external_name r.server_name p3 w2 w3 q3,
          )
          refl)
