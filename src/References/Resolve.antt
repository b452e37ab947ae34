-- ===== src/References/Resolve.antt =====
-- One step of ResolveReferences.
use provider_azure.Prelude.{String, Option, some}
use provider_azure.Go.Errors.{Err, Result, ok, err}
use provider_azure.Go.Effect.{M, ◌>>=◌, ◌>>◌, pure, get_object, modify, call}
use provider_azure.Vendor.{Vendor}
use provider_azure.References.{
  Referenced, Target, Extractor, ResolutionRequest, ResolutionResponse, Resolver,
}

abbrev pub request_of : Target → Extractor → Referenced → ResolutionRequest
request_of to extract f = record {
  current_value = f.value;
  reference = f.reference;
  selector = f.selector;
  to = to;
  extract = extract;
}

abbrev pub resolved : ResolutionResponse → Referenced → Referenced
resolved rsp f = record f { value = rsp.resolved_value; reference = rsp.resolved_reference }

-- Where a field stands in a record of fields.
pub record Field (R : Type 0) : Type 0 where
  pub path : String
  pub get : R → Referenced
  pub set : Referenced → R → R

module _ {W : Type 0} (resolver : Resolver W) ⦃v : Vendor⦄ where
  abbrev pub answered :
      {R : Type 0} → Field R → M R W (Option Err) → Result ResolutionResponse → M R W (Option Err)
  answered field next (err x) = pure (v.wrap (some x) field.path)
  answered field next (ok rsp) = do modify (λ r. field.set (resolved rsp (field.get r)) r); next

  -- An error ends the method; otherwise the field is set and the method goes on with `next`.
  abbrev pub resolve :
      {R : Type 0} → Field R → Target → Extractor → M R W (Option Err) → M R W (Option Err)
  resolve field to extract next = do
    r ← get_object
    rsp ← call (resolver (request_of to extract (field.get r)))
    answered field next rsp
