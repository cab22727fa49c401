-- ===== src/Policy/Legal.antt =====
-- The issues of backend/app/policy.py that block a plan, and what their absence from a step says.
use shou_ba_shou_jiaoxue_ai.Prelude.{
  ◌≤◌, String, ◌≡◌, refl, sym, ◌∙◌, Bool, true, false, not, ◌&&◌, ◌||◌, Option, none, some, List,
  [], ◌∷◌, ◌++◌, arith, ==_refl, contains,
}
use shou_ba_shou_jiaoxue_ai.Schemas.{RiskLevel, risk_weight, PlanStep, IssueCode, PolicyIssue}
use shou_ba_shou_jiaoxue_ai.Value.{Fields}
use shou_ba_shou_jiaoxue_ai.Security.Roles.{includes, meets}
use shou_ba_shou_jiaoxue_ai.Approval.Gate.{text_of}
use shou_ba_shou_jiaoxue_ai.Policy.Tools.{ToolSpec}
use shou_ba_shou_jiaoxue_ai.Texts.{contains-add}
use shou_ba_shou_jiaoxue_ai.Policy.Steps.{
  Context, flag, is_blank, step_issues, risk_issues, is_unbound, observes,
  required_observation_fields, automatic_rollback_tools, is_investigation, with_rollback_role,
  with_rollback_risk,
}
use shou_ba_shou_jiaoxue_ai.Policy.Compiler.{has_blocking, add_all}

pub has_blocking-append :
    (xs ys : List PolicyIssue) → has_blocking (xs ++ ys) ≡ has_blocking xs || has_blocking ys
unfolding has_blocking
has_blocking-append [] ys = refl
has_blocking-append (x ∷ xs) ys = ground (arith, has_blocking-append xs ys)

pub has_blocking-flag :
    (b : Bool) (code : IssueCode) (id : Option String) → has_blocking (flag b code id) ≡ b
unfolding has_blocking
has_blocking-flag true code id = refl
has_blocking-flag false code id = refl

pub has_blocking-risk_issues :
    (step : PlanStep) (spec : ToolSpec) → has_blocking (risk_issues step spec) ≡ false
unfolding has_blocking risk_issues
has_blocking-risk_issues step spec = ground arith

pub contains-add_all :
    (z : String) (xs ys : List String) → contains (add_all xs ys) z ≡ contains xs z || contains ys z
unfolding contains add_all
contains-add_all z [] ys = refl
contains-add_all z (x ∷ xs) ys =
    ground (arith, contains-add x z (add_all xs ys), contains-add_all z xs ys)

-- The rollback of a step is the tool of the step itself, allowed to run by itself, with an input that
-- is valid and bound to the incident's experiment.
pub record IsSafeRollback (model_validate : String → Fields → Option Fields) (c : Context)
    (step : PlanStep) : Type 0 where
  pub own_tool : text_of step.rollback.tool_name ≡ step.tool_name
  pub allowed : contains automatic_rollback_tools (text_of step.rollback.tool_name) ≡ true
  pub input : Fields
  pub valid : model_validate (text_of step.rollback.tool_name) step.rollback.tool_input ≡ some input
  pub bound : is_unbound c.experiment_id input ≡ false

-- A step for a registered tool with a valid input: bound to the incident's experiment, reading only
-- during an investigation, resting on evidence that exists (for a write, on an observation), with an
-- observation that its tool asks for, dependencies in the plan, and a criterion of success.
pub record IsLegal (c : Context) (ids : List String) (step : PlanStep) (spec : ToolSpec)
    (input : Fields) : Type 0 where
  pub bound : is_unbound c.experiment_id input ≡ false
  pub reads_only : is_investigation c.phase ≡ true → spec.read_only ≡ true
  pub evidence : includes step.evidence_ids c.allowed_evidence_ids ≡ true
  pub observed : spec.read_only ≡ false → meets c.observation_ids step.evidence_ids ≡ true
  pub applicable :
      is_blank (required_observation_fields step.tool_name)
        || observes c.observation_context (required_observation_fields step.tool_name)
      ≡ true
  pub depends : includes step.depends_on ids ≡ true
  pub checkable : is_blank step.success_criteria ≡ false

pub with_rollback_role-holds :
    (o : Option ToolSpec) (r : String) → contains (with_rollback_role o (r ∷ [])) r ≡ true
unfolding with_rollback_role contains
with_rollback_role-holds none r = ground (arith, ==_refl r)
with_rollback_role-holds (some spec) r =
    ground (arith, contains-add spec.required_role r (r ∷ []), ==_refl r)

pub with_rollback_risk-ge :
    (o : Option ToolSpec) (r : RiskLevel) → risk_weight r ≤ risk_weight (with_rollback_risk o r)
unfolding with_rollback_risk
with_rollback_risk-ge none r = omega arith
with_rollback_risk-ge (some spec) r = ground arith

pub has_blocking-three :
    (a b d : Bool) (x y z : IssueCode) (id : Option String)
    → has_blocking ((flag a x id ++ flag b y id) ++ flag d z id) ≡ a || (b || d)
unfolding has_blocking
has_blocking-three true b d x y z id = refl
has_blocking-three false true d x y z id = refl
has_blocking-three false false true x y z id = refl
has_blocking-three false false false x y z id = refl

has_blocking-step_issues :
    (c : Context) (ids : List String) (step : PlanStep) (spec : ToolSpec) (input : Fields)
    → has_blocking (step_issues c ids step spec input)
      ≡ is_unbound c.experiment_id input
        || (is_investigation c.phase && not spec.read_only
            || (not (includes step.evidence_ids c.allowed_evidence_ids)
                || (not spec.read_only && not (meets c.observation_ids step.evidence_ids)
                    || (not (is_blank (required_observation_fields step.tool_name))
                          && not (
                              observes c.observation_context
                                (required_observation_fields step.tool_name))
                        || (not (includes step.depends_on ids)
                            || is_blank step.success_criteria)))))
unfolding step_issues
has_blocking-step_issues c ids step spec input = simp (has_blocking-append, has_blocking-flag)

pub step_issues-IsLegal :
    (c : Context) (ids : List String) (step : PlanStep) (spec : ToolSpec) (input : Fields)
    → has_blocking (step_issues c ids step spec input) ≡ false
    → IsLegal c ids step spec input
step_issues-IsLegal c ids step spec input h =
    let s = sym (has_blocking-step_issues c ids step spec input) ∙ h in
    record {
      bound = ground (arith, s);
      reads_only = λ p. ground (arith, s);
      evidence = ground (arith, s);
      observed = λ w. ground (arith, s);
      applicable = ground (arith, s);
      depends = ground (arith, s);
      checkable = ground (arith, s);
    }
