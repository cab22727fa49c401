-- ===== src/Policy/Accepted.antt =====
-- What an accepted step of backend/app/policy.py satisfies, and what it is compiled to.
use shou_ba_shou_jiaoxue_ai.Prelude.{
  ◌≤◌, String, ◌≡◌, refl, sym, ap, ◌∙◌, Bool, true, false, not, ◌||◌, Option, none, some, List,
  ◌++◌, arith, ◌==◌, eq_of_==, contains,
}
use shou_ba_shou_jiaoxue_ai.Schemas.{RiskLevel, risk_weight, PlanStep, IssueCode}
use shou_ba_shou_jiaoxue_ai.Value.{Fields}
use shou_ba_shou_jiaoxue_ai.Schemas.{
  rollback_tool_mismatch, automatic_rollback_not_allowed, unknown_rollback_tool,
  invalid_rollback_input, rollback_experiment_binding_mismatch,
}
use shou_ba_shou_jiaoxue_ai.Approval.Gate.{text_of}
use shou_ba_shou_jiaoxue_ai.Policy.Tools.{ToolSpec, spec_of, effective_risk, stronger, stronger-ge}
use shou_ba_shou_jiaoxue_ai.Policy.Steps.{
  Context, flag, accepted_step, rollback_of, checked_rollback, step_issues, risk_issues, is_unbound,
  automatic_rollback_tools, is_tool, with_rollback_risk,
}
use shou_ba_shou_jiaoxue_ai.Policy.Compiler.{has_blocking}
use shou_ba_shou_jiaoxue_ai.Policy.Legal.{
  has_blocking-append, with_rollback_role-holds, with_rollback_risk-ge, has_blocking-three,
  step_issues-IsLegal, IsSafeRollback, IsLegal,
}

-- An accepted step and what it is compiled to, under the roles and the risk of the whole plan.
pub record IsCompiled (model_validate : String → Fields → Option Fields) (c : Context)
    (ids : List String) (roles : List String) (risk : RiskLevel) (step step' : PlanStep)
    : Type 0 where
  pub spec : ToolSpec
  pub input : Fields
  pub registered : spec_of step.tool_name ≡ some spec
  pub valid : model_validate step.tool_name step.tool_input ≡ some input
  pub legal : IsLegal c ids step spec input
  pub undo : is_tool step.rollback.mode ≡ true → IsSafeRollback model_validate c step
  pub role : contains roles spec.required_role ≡ true
  pub registered_risk : risk_weight spec.risk ≤ risk_weight risk
  pub declared_risk : risk_weight step.risk ≤ risk_weight risk
  pub compiled : step' ≡ record step {
    risk = effective_risk step;
    tool_input = input;
    rollback = (rollback_of model_validate c step).plan;
  }

module _ (model_validate : String → Fields → Option Fields) (c : Context) where
  rollback-IsSafe :
      (step : PlanStep)
      → has_blocking (checked_rollback model_validate c step).issues ≡ false
      → IsSafeRollback model_validate c step
  unfolding checked_rollback
  rollback-IsSafe step h =
      go (spec_of name) refl (model_validate name step.rollback.tool_input) refl
    where
      name : String
      name = text_of step.rollback.tool_name

      other : Bool
      other = not (text_of step.rollback.tool_name == step.tool_name)

      banned : Bool
      banned = not (contains automatic_rollback_tools (text_of step.rollback.tool_name))

      three :
          (b : Bool) (code : IssueCode)
          → has_blocking (
              (flag other rollback_tool_mismatch (some step.id)
                ++ flag banned automatic_rollback_not_allowed (some step.id))
              ++ flag b code (some step.id))
            ≡ other || (banned || b)
      three b code =
          has_blocking-three other banned b rollback_tool_mismatch automatic_rollback_not_allowed
            code (some step.id)

      go :
          (o : Option ToolSpec)
          → spec_of name ≡ o
          → (v : Option Fields) → model_validate name step.rollback.tool_input ≡ v
          → IsSafeRollback model_validate c step
      go none s v e = absurd (ground (arith, s, h, three true unknown_rollback_tool))
      go (some spec) s none e = absurd (ground (arith, s, e, h, three true invalid_rollback_input))
      go (some spec) s (some input) e =
          let q : other || (banned || is_unbound c.experiment_id input) ≡ false =
            sym (three (is_unbound c.experiment_id input) rollback_experiment_binding_mismatch)
            ∙ ground (arith, s, e, h) in
          record {
            own_tool = eq_of_== name step.tool_name (ground (arith, q));
            allowed = ground (arith, q);
            input = input;
            valid = e;
            bound = ground (arith, q);
          }

  module _ (ids roles : List String) (risk : RiskLevel) where
    pub accepted_step-IsCompiled :
        (step : PlanStep) (spec : ToolSpec) (input : Fields)
        → spec_of step.tool_name ≡ some spec
        → model_validate step.tool_name step.tool_input ≡ some input
        → has_blocking (accepted_step model_validate c ids step spec input).issues ≡ false
        → ((r : String)
            → contains (accepted_step model_validate c ids step spec input).roles r ≡ true
            → contains roles r ≡ true)
        → risk_weight (accepted_step model_validate c ids step spec input).risk ≤ risk_weight risk
        → IsCompiled model_validate c ids roles risk step (record step {
          risk = effective_risk step;
          tool_input = input;
          rollback = (rollback_of model_validate c step).plan;
        })
    unfolding accepted_step rollback_of effective_risk
    accepted_step-IsCompiled step spec input reg val h held strong = record {
      spec = spec;
      input = input;
      registered = reg;
      valid = val;
      legal = step_issues-IsLegal c ids step spec input s;
      undo = λ m. rollback-IsSafe step (ground (arith, m, b));
      role =
          held spec.required_role
            (with_rollback_role-holds (rollback_of model_validate c step).spec spec.required_role);
      registered_risk = omega (arith, fst_le, strong);
      declared_risk = omega (arith, snd_le, strong);
      compiled = refl;
    }
      where
        s : has_blocking (step_issues c ids step spec input) ≡ false
        s = ground (
          arith,
          h,
          has_blocking-append (step_issues c ids step spec input)
              (risk_issues step spec ++ (rollback_of model_validate c step).issues),
        )

        b : has_blocking (rollback_of model_validate c step).issues ≡ false
        b = ground (
          arith,
          h,
          has_blocking-append (step_issues c ids step spec input)
              (risk_issues step spec ++ (rollback_of model_validate c step).issues),
          has_blocking-append (risk_issues step spec) (rollback_of model_validate c step).issues,
        )

        grows :
            risk_weight (effective_risk step)
            ≤ risk_weight
                (with_rollback_risk (rollback_of model_validate c step).spec (effective_risk step))
        grows = with_rollback_risk-ge (rollback_of model_validate c step).spec (effective_risk step)

        eff : effective_risk step ≡ stronger spec.risk step.risk
        eff = ground (arith, reg)

        fst_le :
            risk_weight spec.risk
            ≤ risk_weight
                (with_rollback_risk (rollback_of model_validate c step).spec (effective_risk step))
        fst_le = omega (arith, (stronger-ge spec.risk step.risk).0, grows, ap risk_weight eff)

        snd_le :
            risk_weight step.risk
            ≤ risk_weight
                (with_rollback_risk (rollback_of model_validate c step).spec (effective_risk step))
        snd_le = omega (arith, (stronger-ge spec.risk step.risk).1, grows, ap risk_weight eff)
