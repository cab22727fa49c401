-- ===== src/Policy/Examples.antt =====
-- The plan compiler of backend/app/policy.py on a plan of two steps.
use shou_ba_shou_jiaoxue_ai.Prelude.{
  String, ◌≡◌, refl, ◌↔◌, true, false, Option, none, some, List, [], ◌∷◌, ◌==◌, contains,
}
use shou_ba_shou_jiaoxue_ai.Schemas.{Check, RollbackMode, PlanStep}
use shou_ba_shou_jiaoxue_ai.Value.{Fields, str, end, field, int, get}
use shou_ba_shou_jiaoxue_ai.Schemas.{low, eq}
use shou_ba_shou_jiaoxue_ai.Store.Table.{find}
use shou_ba_shou_jiaoxue_ai.Security.Roles.{includes, meets}
use shou_ba_shou_jiaoxue_ai.Policy.Tools.{spec_of, tool_registry, effective_risk, stronger}
use shou_ba_shou_jiaoxue_ai.Policy.Cycle.{
  has_cycle, dependencies, has_key, needs_of, visit, visit_all, search, is_cycle, set_entry,
}
use shou_ba_shou_jiaoxue_ai.Policy.Acyclic.{Cyclic, Grounded}
use shou_ba_shou_jiaoxue_ai.Policy.Exact.{has_cycle_iff}
use shou_ba_shou_jiaoxue_ai.Policy.Steps.{
  Context, remediation, required_observation_fields, is_unbound, observes, step_issues, risk_issues,
  checked_rollback, rollback_of, accepted_step, check_step, with_rollback_role, with_rollback_risk,
}
use shou_ba_shou_jiaoxue_ai.Policy.Compiler.{
  compile, decision, check_steps, plan_issues, has_blocking, has_duplicate, add_all, join,
}
use shou_ba_shou_jiaoxue_ai.Policy.Safety.{IsAccepted, compile-IsAccepted}

-- Every input is valid, and every plan has one digest.
abbrev validates : String → Fields → Option Fields
validates name input = some input

abbrev digest : List PlanStep → String
digest plan = "sha256"

abbrev succeeds : List Check
succeeds =
    record { name = "__result_status__"; operator = eq; value = str "succeeded"; description = "" }
    ∷ []

abbrev look : PlanStep
look = record {
  id = "S1";
  tool_name = "query_metrics";
  tool_input = field "experiment_id" (str "EXP-ABCDEFGH") end;
  evidence_ids = "OBS-1" ∷ [];
  depends_on = [];
  preconditions = [];
  success_criteria = succeeds;
  rollback = record { mode = RollbackMode.manual; tool_name = none; tool_input = end };
  risk = low;
}

abbrev scale : PlanStep
scale = record {
  id = "S2";
  tool_name = "scale_workers";
  tool_input = field "experiment_id" (str "EXP-ABCDEFGH") end;
  evidence_ids = "OBS-1" ∷ [];
  depends_on = "S1" ∷ [];
  preconditions = [];
  success_criteria = succeeds;
  rollback = record {
    mode = RollbackMode.tool;
    tool_name = some "scale_workers";
    tool_input = field "experiment_id" (str "EXP-ABCDEFGH") end;
  };
  risk = low;
}

abbrev two_steps : List PlanStep
two_steps = look ∷ scale ∷ []

abbrev context : Context
context = record {
  max_steps = 12;
  phase = remediation;
  allowed_evidence_ids = "OBS-1" ∷ [];
  observation_ids = "OBS-1" ∷ [];
  experiment_id = some "EXP-ABCDEFGH";
  observation_context = field "queue_depth" (int 40) end;
}

two_steps_pass : (compile validates digest context two_steps).1.accepted ≡ true
unfolding compile decision check_steps plan_issues has_blocking has_duplicate add_all join
    check_step accepted_step rollback_of checked_rollback step_issues risk_issues is_unbound
    observes required_observation_fields with_rollback_role with_rollback_risk spec_of tool_registry
    effective_risk stronger find includes meets contains has_cycle dependencies has_key needs_of
    visit visit_all search is_cycle set_entry get ◌==◌
two_steps_pass = refl

compile-IsAccepted_example :
    IsAccepted validates digest context two_steps
      (compile validates digest context two_steps).0
      (compile validates digest context two_steps).1
compile-IsAccepted_example = compile-IsAccepted validates digest context two_steps two_steps_pass

has_cycle_iff_example :
    ((has_cycle two_steps ≡ true) ↔ Cyclic (dependencies two_steps))
    × (has_cycle two_steps ≡ false
        → (k : String) → has_key (dependencies two_steps) k ≡ true
        → Grounded (dependencies two_steps) k)
has_cycle_iff_example = has_cycle_iff two_steps
