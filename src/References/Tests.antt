-- ===== src/References/Tests.antt =====
-- A rule whose subnet is selected: the world counts the calls to the API server.
use provider_azure.Prelude.{
  ℕ, ◌+◌, ◌≡◌, refl, Option, none, some, true, arith, eq_iff, ◌==◌, if◌then◌else◌,
}
use provider_azure.Go.Errors.{Result, ok}
use provider_azure.Go.Effect.{Session}
use provider_azure.Vendor.Standard.{standard, standard-Documented}
use provider_azure.References.{
  Reference, Selector, Referenced, mysql_server, ResolutionResponse, Resolver,
}
use provider_azure.References.Database.{RuleReferences, resolve_rule}
use provider_azure.References.Settled.{ResolvesOnce, resolve_rule_idem}

-- What the references of an empty value lead to.
abbrev look_up : Option Reference → Option Selector → ℕ → Result ResolutionResponse × ℕ
look_up none none w = (ok (record { resolved_value = ""; resolved_reference = none }), w)
look_up none (some s) w = (
  ok (record { resolved_value = "id"; resolved_reference = some (record { name = "n" }) }),
  w + 1,
)
look_up (some r) s w = (ok (record { resolved_value = "id"; resolved_reference = some r }), w + 1)

abbrev resolver : Resolver ℕ
resolver q w =
    if q.current_value == ""
    then look_up q.reference q.selector w
    else (ok (record { resolved_value = q.current_value; resolved_reference = q.reference }), w)

once : ResolvesOnce resolver
once = record {
  keeps = λ q w n. ground (arith, eq_iff q.current_value "");
  idle = λ q w r s. ground (arith, eq_iff q.current_value "");
  filled = λ q w p h. ground (arith, eq_iff q.current_value "", eq_iff "id" "");
}

abbrev selected : Referenced
selected = record {
  value = "";
  reference = none;
  selector = some (record { match_controller_ref = some true; match_labels = none });
}

abbrev named : Referenced
named = record { value = "rg"; reference = none; selector = none }

abbrev before : Session RuleReferences ℕ
before = record {
  object = record {
    resource_group_name = named;
    virtual_network_subnet_id = selected;
    server_name = named;
  };
  world = 0;
}

abbrev after : Session RuleReferences ℕ
after = record {
  object = record (before.object) {
    virtual_network_subnet_id = record selected {
      value = "id";
      reference = some (record { name = "n" });
    };
  };
  world = 1;
}

resolve_rule_idem_example : resolve_rule resolver ⦃v = standard⦄ mysql_server after ≡ (none, after)
resolve_rule_idem_example =
    resolve_rule_idem resolver ⦃v = standard⦄ standard-Documented once mysql_server before after
      refl
