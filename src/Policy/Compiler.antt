-- ===== src/Policy/Compiler.antt =====
-- `PolicyCompiler.compile` of backend/app/policy.py. The digest of a plan (canonical JSON and
-- SHA-256) is a parameter, as is `model_validate`.
use shou_ba_shou_jiaoxue_ai.Prelude.{
  String, Bool, true, false, ◌||◌, Option, none, some, List, [], ◌∷◌, ◌++◌, map, ltb, if◌then◌else◌,
  length, contains,
}
use shou_ba_shou_jiaoxue_ai.Schemas.{PlanStep, PolicyIssue, PolicyDecision}
use shou_ba_shou_jiaoxue_ai.Value.{Fields}
use shou_ba_shou_jiaoxue_ai.Schemas.{low, empty_plan, plan_too_long, duplicate_step_id, cyclic_plan}
use shou_ba_shou_jiaoxue_ai.Texts.{sorted, add}
use shou_ba_shou_jiaoxue_ai.Policy.Cycle.{has_cycle}
use shou_ba_shou_jiaoxue_ai.Policy.Steps.{
  Context, Outcome, flag, is_blank, stronger_risk, check_step,
}

unfoldable pub has_duplicate : List PlanStep → Bool
has_duplicate [] = false
has_duplicate (s ∷ plan) = contains (map (λ (p : PlanStep). p.id) plan) s.id || has_duplicate plan

unfoldable pub has_blocking : List PolicyIssue → Bool
has_blocking [] = false
has_blocking (i ∷ issues) = i.blocking || has_blocking issues

unfoldable pub add_all : List String → List String → List String
add_all [] roles = roles
add_all (r ∷ rs) roles = add r (add_all rs roles)

unfoldable pub join : Outcome → Outcome → Outcome
join first rest = record {
  issues = first.issues ++ rest.issues;
  steps = first.steps ++ rest.steps;
  roles = add_all first.roles rest.roles;
  risk = stronger_risk first.risk rest.risk;
}

abbrev pub step_id : PlanStep → String
step_id s = s.id

-- The issues on the plan as a whole, before the loop.
unfoldable pub plan_issues : Context → List PlanStep → List PolicyIssue
unfolding has_duplicate
plan_issues c plan =
    flag (is_blank plan) empty_plan none
    ++ (flag (ltb c.max_steps (length plan)) plan_too_long none
        ++ flag (has_duplicate plan) duplicate_step_id none)

module _ (model_validate : String → Fields → Option Fields)
    (plan_digest : List PlanStep → String) where
  unfoldable pub check_steps : Context → List String → List PlanStep → Outcome
  unfolding join
  check_steps c ids [] = record { issues = []; steps = []; roles = []; risk = low }
  check_steps c ids (s ∷ plan) = join (check_step model_validate c ids s) (check_steps c ids plan)

  unfoldable pub decision : List PolicyIssue → Outcome → PolicyDecision
  decision issues out =
      let roles = sorted out.roles in
      if has_blocking issues
      then record {
        accepted = false;
        plan_hash = none;
        effective_risk = out.risk;
        required_roles = roles;
        issues = issues;
      }
      else record {
        accepted = true;
        plan_hash = some (plan_digest out.steps);
        effective_risk = out.risk;
        required_roles = roles;
        issues = issues;
      }

  unfoldable pub compile : Context → List PlanStep → List PlanStep × PolicyDecision
  unfolding decision
  compile c plan =
      let out = check_steps c (map step_id plan) plan in
      let issues =
        plan_issues c plan ++ (out.issues ++ flag (has_cycle out.steps) cyclic_plan none) in
      (out.steps, decision issues out)
