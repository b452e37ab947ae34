-- ===== src/References.antt =====
-- ResolveReferences of the API types: apis/<group>/referencers.go. Before a controller sees an object,
-- its fields that name another object are filled in from a reference or a selector. An object is the
-- record of these fields; `reference.NewAPIResolver(...).Resolve` of crossplane-runtime is a
-- parameter.
pub mod Resolve
pub mod Database
pub mod Groups
pub mod Settled
pub mod Tests
use provider_azure.Prelude.{String, Bool, Option, none, some}
use provider_azure.Go.Errors.{Result}
use provider_azure.Go.Maps.{GoMap}
use provider_azure.Network.Types.{Subnet}

-- `xpv1.Reference` and `xpv1.Selector`
pub record Reference : Type 0 where
  pub name : String

pub record Selector : Type 0 where
  pub match_controller_ref : Option Bool
  pub match_labels : GoMap String

-- A field, with the reference and the selector beside it.
pub record Referenced : Type 0 where
  pub value : String
  pub reference : Option Reference
  pub selector : Option Selector

-- `reference.To`, the kind of the other object.
pub data Target : Type 0 where
  resource_group virtual_network subnet mysql_server postgresql_server dns_zone : Target

-- What is taken of the other object: `reference.ExternalName()`, or SubnetID().
pub data Extractor : Type 0 where
  external_name subnet_id : Extractor

-- The function that SubnetID() returns, on an object that may be a subnet.
abbrev pub extract_subnet_id : Option Subnet → String
extract_subnet_id none = ""
extract_subnet_id (some s) = s.status.id

pub record ResolutionRequest : Type 0 where
  pub current_value : String
  pub reference : Option Reference
  pub selector : Option Selector
  pub to : Target
  pub extract : Extractor

pub record ResolutionResponse : Type 0 where
  pub resolved_value : String
  pub resolved_reference : Option Reference

abbrev pub Resolver : Type 0 → Type 0
Resolver W = ResolutionRequest → W → Result ResolutionResponse × W
