-- ===== src/Workflow/Examples.antt =====
-- `_topological` of backend/app/agent.py on a plan of two steps, the second of which comes first.
use shou_ba_shou_jiaoxue_ai.Prelude.{
  String, ◌≡◌, refl, true, false, none, List, [], ◌∷◌, arith, ◌==◌, contains,
}
use shou_ba_shou_jiaoxue_ai.Schemas.{RollbackMode, PlanStep}
use shou_ba_shou_jiaoxue_ai.Value.{end}
use shou_ba_shou_jiaoxue_ai.Schemas.{low}
use shou_ba_shou_jiaoxue_ai.Result.{ok}
use shou_ba_shou_jiaoxue_ai.Texts.{sorted, insert_text, text_leb}
use shou_ba_shou_jiaoxue_ai.Policy.Cycle.{
  dependencies, enter, set_entry, has_cycle, has_key, needs_of, visit, visit_all, search, is_cycle,
}
use shou_ba_shou_jiaoxue_ai.Schemas.{eq}
use shou_ba_shou_jiaoxue_ai.Value.{Fields, str}
use shou_ba_shou_jiaoxue_ai.Prelude.{Option, none, some, contains, true}
use shou_ba_shou_jiaoxue_ai.Store.Table.{find}
use shou_ba_shou_jiaoxue_ai.Security.Roles.{includes}
use shou_ba_shou_jiaoxue_ai.Policy.Tools.{spec_of, tool_registry, effective_risk, stronger}
use shou_ba_shou_jiaoxue_ai.Policy.Steps.{
  Context, investigation, required_observation_fields, is_unbound, step_issues, risk_issues,
  rollback_of, accepted_step, check_step, with_rollback_risk,
}
use shou_ba_shou_jiaoxue_ai.Policy.Compiler.{
  compile, decision, check_steps, plan_issues, has_blocking, has_duplicate, join,
}
use shou_ba_shou_jiaoxue_ai.Workflow.Executable.{accepted_plan_orders}
use shou_ba_shou_jiaoxue_ai.Workflow.Topological.{
  discard, release, release_all, free, ready, rounds, topological, steps_of, step_of,
}
use shou_ba_shou_jiaoxue_ai.Workflow.Ordered.{InOrder}
use shou_ba_shou_jiaoxue_ai.Workflow.Complete.{topological-InOrder}
use shou_ba_shou_jiaoxue_ai.Workflow.Total.{topological-total}

abbrev step_with : String → List String → PlanStep
step_with id depends_on = record {
  id = id;
  tool_name = "query_metrics";
  tool_input = end;
  evidence_ids = [];
  depends_on = depends_on;
  preconditions = [];
  success_criteria = [];
  rollback = record { mode = RollbackMode.manual; tool_name = none; tool_input = end };
  risk = low;
}

abbrev plan : List PlanStep
plan = step_with "S2" ("S1" ∷ []) ∷ step_with "S1" [] ∷ []

abbrev in_order : List PlanStep
in_order = step_with "S1" [] ∷ step_with "S2" ("S1" ∷ []) ∷ []

orders : topological plan ≡ ok in_order
unfolding topological dependencies enter set_entry rounds ready free sorted insert_text text_leb
    release_all release discard steps_of step_of ◌==◌
orders = refl

topological-InOrder_example :
    (ids : List String) × (in_order ≡ steps_of plan ids)
    × InOrder (dependencies plan) [] ids
    × ((k : String) → contains ids k ≡ has_key (dependencies plan) k)
topological-InOrder_example = topological-InOrder plan in_order orders

acyclic : has_cycle plan ≡ false
unfolding has_cycle dependencies enter set_entry has_key needs_of visit visit_all search is_cycle
    contains ◌==◌
acyclic = refl

known :
    (k y : String)
    → contains (needs_of (dependencies plan) k) y ≡ true
    → has_key (dependencies plan) y ≡ true
unfolding dependencies enter set_entry has_key needs_of contains ◌==◌
known k y h = ground (arith, h)

topological-total_example : (steps : List PlanStep) × (topological plan ≡ ok steps)
topological-total_example = topological-total plan acyclic known

-- A plan that the compiler accepts.
abbrev validates : String → Fields → Option Fields
validates name input = some input

abbrev digest : List PlanStep → String
digest steps = "sha256"

abbrev looks : List PlanStep
looks =
    record (step_with "S1" []) {
      success_criteria =
          record {
            name = "__result_status__";
            operator = eq;
            value = str "succeeded";
            description = "";
          }
          ∷ [];
    }
    ∷ []

abbrev context : Context
context = record {
  max_steps = 12;
  phase = investigation;
  allowed_evidence_ids = [];
  observation_ids = [];
  experiment_id = none;
  observation_context = end;
}

looks_pass : (compile validates digest context looks).1.accepted ≡ true
unfolding compile decision check_steps plan_issues has_blocking has_duplicate join check_step
    accepted_step rollback_of step_issues risk_issues is_unbound required_observation_fields
    with_rollback_risk spec_of tool_registry effective_risk stronger find includes contains
    has_cycle dependencies enter set_entry has_key needs_of visit visit_all search is_cycle ◌==◌
looks_pass = refl

accepted_plan_orders_example :
    (steps : List PlanStep) × (topological (compile validates digest context looks).0 ≡ ok steps)
accepted_plan_orders_example = accepted_plan_orders validates digest context looks looks_pass
