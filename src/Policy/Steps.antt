-- ===== src/Policy/Steps.antt =====
-- One pass of the loop of `PolicyCompiler.compile` in backend/app/policy.py. pydantic's
-- `model_validate` followed by `model_dump`, by the name of the tool, is a parameter.
use shou_ba_shou_jiaoxue_ai.Prelude.{
  ℕ, String, Bool, true, false, not, ◌&&◌, Option, none, some, List, [], ◌∷◌, ◌++◌, ltb, ◌==◌,
  if◌then◌else◌, contains,
}
use shou_ba_shou_jiaoxue_ai.Schemas.{
  RiskLevel, risk_weight, RollbackMode, RollbackPlan, PlanStep, IssueCode, PolicyIssue,
}
use shou_ba_shou_jiaoxue_ai.Value.{holds_text, Fields, get}
use shou_ba_shou_jiaoxue_ai.Schemas.{
  low, unknown_tool, invalid_tool_input, experiment_binding_mismatch, write_during_investigation,
  unknown_evidence, write_without_observation, tool_not_supported_by_observation,
  unknown_dependency, missing_success_criteria, risk_upgraded, rollback_tool_mismatch,
  automatic_rollback_not_allowed, unknown_rollback_tool, invalid_rollback_input,
  rollback_experiment_binding_mismatch,
}
use shou_ba_shou_jiaoxue_ai.Security.Roles.{includes, meets}
use shou_ba_shou_jiaoxue_ai.Approval.Gate.{truthy, text_of}
use shou_ba_shou_jiaoxue_ai.Policy.Tools.{ToolSpec, spec_of, effective_risk}
use shou_ba_shou_jiaoxue_ai.Texts.{add}

pub data Phase : Type 0 where
  investigation remediation : Phase

-- The arguments of `compile` beside the plan, and the compiler's `max_steps`.
pub record Context : Type 0 where
  pub max_steps : ℕ
  pub phase : Phase
  pub allowed_evidence_ids : List String
  pub observation_ids : List String
  pub experiment_id : Option String
  pub observation_context : Fields

abbrev pub is_investigation : Phase → Bool
is_investigation investigation = true
is_investigation remediation = false

unfoldable pub required_observation_fields : String → List String
required_observation_fields name =
    if name == "restart_service"
    then "pool_waiters" ∷ "instances" ∷ []
    else if name == "scale_workers"
    then "queue_depth" ∷ "oldest_age_s" ∷ []
    else if name == "rotate_credential"
    then "http_401_rate" ∷ []
    else if name == "refresh_cache"
    then "stale_sample_rate" ∷ "cache_version" ∷ "db_version" ∷ []
    else []

abbrev pub automatic_rollback_tools : List String
automatic_rollback_tools = "scale_workers" ∷ []

-- experiment_id and input.get("experiment_id") != experiment_id
unfoldable pub is_unbound : Option String → Fields → Bool
is_unbound e input = truthy e && not (holds_text (get input "experiment_id") (text_of e))

-- required & set(context)
unfoldable pub observes : Fields → List String → Bool
observes facts [] = false
observes facts (k ∷ ks) = elim (get facts k) [ none ↦ observes facts ks | some v ↦ true ]

abbrev pub is_blank {ℓ} : {A : Type ℓ} → List A → Bool
is_blank [] = true
is_blank (x ∷ xs) = false

-- if b: issues.append(…)
abbrev pub flag : Bool → IssueCode → Option String → List PolicyIssue
flag true code step_id = record { code = code; step_id = step_id; blocking = true } ∷ []
flag false code step_id = []

abbrev pub stronger_risk : RiskLevel → RiskLevel → RiskLevel
stronger_risk m r = if ltb (risk_weight m) (risk_weight r) then r else m

abbrev pub is_tool : RollbackMode → Bool
is_tool RollbackMode.tool = true
is_tool RollbackMode.manual = false

-- What one pass of the loop, or the rest of it, adds: the set and the maximum do not depend on the
-- order in which the passes contribute.
pub record Outcome : Type 0 where
  pub issues : List PolicyIssue
  pub steps : List PlanStep
  pub roles : List String
  pub risk : RiskLevel

abbrev pub refused : IssueCode → String → Outcome
refused code id = record { issues = flag true code (some id); steps = []; roles = []; risk = low }

-- The rollback that the compiled step carries, and the specification that its input met.
pub record Rollback : Type 0 where
  pub issues : List PolicyIssue
  pub plan : RollbackPlan
  pub spec : Option ToolSpec

unfoldable pub with_rollback_role : Option ToolSpec → List String → List String
with_rollback_role none roles = roles
with_rollback_role (some spec) roles = add spec.required_role roles

unfoldable pub with_rollback_risk : Option ToolSpec → RiskLevel → RiskLevel
with_rollback_risk none risk = risk
with_rollback_risk (some spec) risk = stronger_risk risk spec.risk

-- The tests on a registered tool with a valid input, in the order of the code, up to the risk.
unfoldable pub step_issues : Context → List String → PlanStep → ToolSpec → Fields → List PolicyIssue
step_issues c ids step spec input =
    flag (is_unbound c.experiment_id input) experiment_binding_mismatch (some step.id)
    ++ (flag (is_investigation c.phase && not spec.read_only) write_during_investigation
          (some step.id)
        ++ (flag (not (includes step.evidence_ids c.allowed_evidence_ids)) unknown_evidence
              (some step.id)
            ++ (flag (not spec.read_only && not (meets c.observation_ids step.evidence_ids))
                  write_without_observation (some step.id)
                ++ (flag
                      (not (is_blank (required_observation_fields step.tool_name))
                        && not (
                            observes c.observation_context
                              (required_observation_fields step.tool_name)))
                      tool_not_supported_by_observation (some step.id)
                    ++ (flag (not (includes step.depends_on ids)) unknown_dependency (some step.id)
                        ++ flag (is_blank step.success_criteria) missing_success_criteria
                            (some step.id))))))

-- RISK_UPGRADED does not block.
unfoldable pub risk_issues : PlanStep → ToolSpec → List PolicyIssue
risk_issues step spec =
    if ltb (risk_weight step.risk) (risk_weight spec.risk)
    then record { code = risk_upgraded; step_id = some step.id; blocking = false } ∷ []
    else []

module _ (model_validate : String → Fields → Option Fields) where
  unfoldable pub checked_rollback : Context → PlanStep → Rollback
  checked_rollback c step =
      let name = text_of step.rollback.tool_name in
      let issues =
        flag (not (name == step.tool_name)) rollback_tool_mismatch (some step.id)
        ++ flag (not (contains automatic_rollback_tools name)) automatic_rollback_not_allowed
            (some step.id) in
      elim (spec_of name) [
        | none ↦ record {
          issues = issues ++ flag true unknown_rollback_tool (some step.id);
          plan = step.rollback;
          spec = none;
        }
        | some spec ↦ elim (model_validate name step.rollback.tool_input) [
          | none ↦ record {
            issues = issues ++ flag true invalid_rollback_input (some step.id);
            plan = step.rollback;
            spec = none;
          }
          | some input ↦ record {
            issues =
                issues
                ++ flag (is_unbound c.experiment_id input) rollback_experiment_binding_mismatch
                    (some step.id);
            plan = record step.rollback { tool_input = input };
            spec = some spec;
          }
        ]
      ]

  unfoldable pub rollback_of : Context → PlanStep → Rollback
  unfolding checked_rollback
  rollback_of c step =
      if is_tool step.rollback.mode
      then checked_rollback c step
      else record { issues = []; plan = step.rollback; spec = none }

  -- One pass of the loop, for a tool that is registered and an input that is valid.
  unfoldable pub accepted_step : Context → List String → PlanStep → ToolSpec → Fields → Outcome
  accepted_step c ids step spec input =
      let back = rollback_of c step in
      record {
        issues = step_issues c ids step spec input ++ (risk_issues step spec ++ back.issues);
        steps =
            record step { risk = effective_risk step; tool_input = input; rollback = back.plan }
            ∷ [];
        roles = with_rollback_role back.spec (spec.required_role ∷ []);
        risk = with_rollback_risk back.spec (effective_risk step);
      }

  unfoldable pub check_step : Context → List String → PlanStep → Outcome
  unfolding accepted_step
  check_step c ids step = elim (spec_of step.tool_name) [
    | none ↦ refused unknown_tool step.id
    | some spec ↦ elim (model_validate step.tool_name step.tool_input) [
      | none ↦ refused invalid_tool_input step.id
      | some input ↦ accepted_step c ids step spec input
    ]
  ]
