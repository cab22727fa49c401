-- ===== src/Workflow/Verify.antt =====
-- `_node_verify` of backend/app/agent.py: each action is judged by an independent read, and when one
-- does not hold the actions are compensated in reverse order.
use shou_ba_shou_jiaoxue_ai.Prelude.{
  ℕ, ◌/◌, String, Bool, true, false, not, leb, ◌&&◌, Option, none, some, List, [], ◌∷◌, ◌++◌, ◌==◌,
  if◌then◌else◌,
}
use shou_ba_shou_jiaoxue_ai.Schemas.{
  RunStatus, RiskLevel, ToolStatus, Node, is_success, Check, RollbackMode, PlanStep, ToolResult,
  VerificationResult, RunRecord,
}
use shou_ba_shou_jiaoxue_ai.Value.{Value, Fields, bool, num, str, end, field, int, get, update}
use shou_ba_shou_jiaoxue_ai.Schemas.{low, eq}
use mathlib.Core.List.{reverse}
use Prim.Native.String.{count}
use shou_ba_shou_jiaoxue_ai.Result.{Result, ok, err, value_error, key_error, type_error}
use shou_ba_shou_jiaoxue_ai.Texts.{joined}
use shou_ba_shou_jiaoxue_ai.Approval.Gate.{truthy, text_of, audited}
use shou_ba_shou_jiaoxue_ai.Approval.Actions.{system_agent, execution_actor}
use shou_ba_shou_jiaoxue_ai.Policy.Tools.{ToolSpec, spec_of}
use shou_ba_shou_jiaoxue_ai.Workflow.Checks.{check_passes, remove_prefix, same_value}
use shou_ba_shou_jiaoxue_ai.Workflow.Topological.{topological}
use shou_ba_shou_jiaoxue_ai.Workflow.Engine.{
  Lease, Engine, Action, pure, raise, lift, modify, with_run, ◌>>=◌, ◌>>◌, checkpoint, use_tool,
  moved_to,
}
use shou_ba_shou_jiaoxue_ai.Workflow.Nodes.{targeted, manual_rollback, status_check}

-- next((result for result in reversed(tool_results) if result.step_id == id and …), None)
unfoldable pub action_result : String → List ToolResult → Option ToolResult
action_result id [] = none
action_result id (r ∷ rs) = elim (action_result id rs) [
  | some later ↦ some later
  | none ↦ if r.step_id == id && is_success r.status then some r else none
]

-- A step that the engine adds to the plan: it depends on nothing and is not compensated.
abbrev pub added_step : PlanStep → String → String → Fields → Check → RiskLevel → PlanStep
added_step step prefix tool_name tool_input criterion risk = record {
  id = joined prefix (remove_prefix step.id "step-");
  tool_name = tool_name;
  tool_input = tool_input;
  evidence_ids = step.evidence_ids;
  depends_on = [];
  preconditions = [];
  success_criteria = criterion ∷ [];
  rollback = manual_rollback;
  risk = risk;
}

-- `PlanStep(…)` validates the id: `step-` and at most 80 characters. The ids of a plan have met that, so
-- only the length of a longer one can fail.
unfoldable pub checked_step : PlanStep → Result PlanStep
checked_step step =
    if leb (count step.id) 85
    then ok step
    else err (value_error "String should match pattern '^step-[a-z0-9-]{2,80}$'")

unfoldable pub verify_step_of : RunRecord → PlanStep → PlanStep
verify_step_of run step =
    added_step step "step-verify-" "query_metrics"
      (targeted run (field "window_minutes" (int 5) end)) (status_check "验证指标读取成功") low

unfoldable pub all_pass : Fields → String → List Check → Bool
all_pass context result_status [] = true
all_pass context result_status (c ∷ cs) =
    check_passes context result_status c && all_pass context result_status cs

-- The text of a status, which `_check` compares.
abbrev pub status_text : ToolStatus → String
status_text ToolStatus.succeeded = "succeeded"
status_text ToolStatus.failed = "failed"
status_text ToolStatus.skipped = "skipped"
status_text ToolStatus.unknown = "unknown"

unfoldable pub step_passed : PlanStep → ToolResult → ToolResult → Bool
step_passed step action read =
    is_success read.status
    && all_pass (update action.output read.output) (status_text read.status) step.success_criteria

abbrev pub verdict : String → Bool → String → String → VerificationResult
verdict id passed good bad = record {
  step_id = id;
  passed = passed;
  summary = if passed then good else bad;
}

abbrev pub add_verification : VerificationResult → RunRecord → RunRecord
add_verification v run = record run { verification = run.verification ++ v ∷ [] }

module _ {W : Type 0} (engine : Engine W) (lease : Lease) where
  unfoldable pub judge_read : PlanStep → ToolResult → ToolResult → Action W Bool
  judge_read step action read = do
    modify (
        add_verification
          (verdict step.id (step_passed step action read) "成功条件全部满足。" "至少一个成功条件不满足。"))
    checkpoint engine lease
    pure (step_passed step action read)

  unfoldable pub verify_with : String → PlanStep → RunRecord → Option ToolResult → Action W Bool
  verify_with plan_hash step run none =
      modify (add_verification (verdict step.id false "" "找不到成功的动作结果。")) >> pure false
  verify_with plan_hash step run (some action) =
      lift (checked_step (verify_step_of run step))
      >>= (λ reading. use_tool engine reading plan_hash system_agent >>= judge_read step action)

  -- One turn of the loop of `_node_verify`.
  unfoldable pub verify_step : String → PlanStep → Action W Bool
  unfolding judge_read
  verify_step plan_hash step =
      with_run (λ run. verify_with plan_hash step run (action_result step.id run.tool_results))

  unfoldable pub verify_steps : String → List PlanStep → Action W Bool
  verify_steps plan_hash [] = pure true
  verify_steps plan_hash (step ∷ steps) = do
    passed ← verify_step plan_hash step
    rest ← verify_steps plan_hash steps
    pure (passed && rest)

  -- int(value)
  unfoldable pub as_int : Option Value → Result ℕ
  as_int none = err (key_error "target_replicas")
  as_int (some (num n)) = ok (n / 1000)
  as_int (some (bool b)) = ok (if b then 1 else 0)
  as_int (some (str s)) = elim (engine.parse_int s) [
    | none ↦ err (value_error "invalid literal for int()")
    | some n ↦ ok n
  ]
  as_int (some _) = err type_error

  replicas_check : ℕ → Check
  replicas_check target = record {
    name = "replicas";
    operator = eq;
    value = int target;
    description = "副本数恢复到执行前观测值";
  }

  replicas_are : ℕ → Option Value → Bool
  replicas_are target none = false
  replicas_are target (some v) = same_value v (int target)

  -- The end of `_execute_automatic_rollback`: what the independent read says.
  unfoldable pub confirm : PlanStep → ℕ → ToolResult → Action W Bool
  unfolding replicas_are
  confirm step target read =
      let passed = is_success read.status && replicas_are target (get read.output "replicas") in
      do
        modify (
            add_verification (
              verdict (joined "step-rollback-" (remove_prefix step.id "step-")) passed
                "补偿动作已由独立状态读取确认。" "补偿动作没有通过独立状态确认。"))
        modify (
            audited "system"
              (if passed then "rollback.verified" else "rollback.verification_failed"))
        checkpoint engine lease
        pure passed

  unfoldable pub confirm_rollback : String → PlanStep → ToolResult → Action W Bool
  unfolding as_int replicas_check confirm
  confirm_rollback plan_hash step undone =
      if is_success undone.status
      then (do
        target ← lift (as_int (get step.rollback.tool_input "target_replicas"))
        reading ← with_run (λ run. lift (
            checked_step (
              added_step step "step-verify-rollback-" "get_service_status"
                (targeted run (field "include_instances" (bool true) end)) (replicas_check target)
                low)))
        use_tool engine reading plan_hash system_agent >>= confirm step target)
      else pure false

  unfoldable pub undo : String → PlanStep → RiskLevel → Action W Bool
  undo plan_hash step risk = do
    undoing ← lift (
        checked_step (
          added_step step "step-rollback-" (text_of step.rollback.tool_name)
            step.rollback.tool_input (status_check "补偿工具必须返回明确成功状态") risk))
    actor ← with_run (λ run. lift (execution_actor run))
    undone ← use_tool engine undoing plan_hash actor
    modify (audited actor.username "rollback.executed")
    checkpoint engine lease
    confirm_rollback plan_hash step undone

  -- A step that did not act needs no rollback.
  unfoldable pub rollback_acted :
      String → PlanStep → Option ToolResult → Option ToolSpec → Action W Bool
  rollback_acted plan_hash step none spec = pure true
  rollback_acted plan_hash step (some acted) none =
      raise (key_error (text_of step.rollback.tool_name))
  rollback_acted plan_hash step (some acted) (some spec) = undo plan_hash step spec.risk

  -- `_execute_automatic_rollback` for a step whose rollback mode is a tool.
  unfoldable pub automatic_rollback : PlanStep → Action W Bool
  automatic_rollback step = with_run (λ run.
      if truthy step.rollback.tool_name && truthy run.policy.plan_hash
      then rollback_acted (text_of run.policy.plan_hash) step
          (action_result step.id run.tool_results) (spec_of (text_of step.rollback.tool_name))
      else pure false)

  unfoldable pub compensated :
      RollbackMode → PlanStep → Action W (List Bool × Bool) → Action W (List Bool × Bool)
  compensated RollbackMode.tool step steps = do
    passed ← automatic_rollback step
    rest ← steps
    pure (passed ∷ rest.0, rest.1)
  compensated RollbackMode.manual step steps = do
    modify (audited "system" "rollback.required")
    rest ← steps
    pure (rest.0, true)

  -- The loop over the reversed order: the outcomes of the automatic rollbacks, and whether one of
  -- the steps has to be rolled back by hand.
  unfoldable pub compensate : List PlanStep → Action W (List Bool × Bool)
  compensate [] = pure ([], false)
  compensate (step ∷ steps) = compensated step.rollback.mode step (compensate steps)

  -- `all(outcomes)`
  unfoldable pub all_true : List Bool → Bool
  all_true [] = true
  all_true (b ∷ bs) = b && all_true bs

  unfoldable pub is_empty : List Bool → Bool
  is_empty [] = true
  is_empty (b ∷ bs) = false

  unfoldable pub rollback_error : List Bool × Bool → RunRecord → RunRecord
  rollback_error (outcomes, manual_required) run =
      let attempted = not (is_empty outcomes) in
      let confirmed = all_true outcomes in
      if attempted && confirmed && not manual_required
      then record run {
        error_code = some "VERIFICATION_FAILED_ROLLED_BACK";
        error_detail = some "主动作没有满足成功条件；所有补偿动作已执行并由独立只读通道确认。";
      }
      else if attempted && not confirmed
      then record run {
        error_code = some "ROLLBACK_FAILED";
        error_detail = some "主动作验证失败，且至少一个自动补偿动作未能确认恢复。";
      }
      else record run {
        error_code = some "VERIFICATION_FAILED_MANUAL_ROLLBACK_REQUIRED";
        error_detail = some "主动作没有满足成功条件；计划要求人工执行或复核回滚。";
      }

  -- `if not all_passed`
  unfoldable pub roll_back : Action W (Unit {0})
  roll_back = do
    modify (λ run. record run { status = RunStatus.failed; current_node = Node.verify })
    order ← with_run (λ run. lift (topological run.plan))
    outcomes ← compensate (reverse order)
    modify (rollback_error outcomes)

  -- `_node_verify`
  unfoldable pub node_verify : Action W (Unit {0})
  node_verify = with_run (λ run.
      if truthy run.policy.plan_hash
      then (do
        passed ← verify_steps (text_of run.policy.plan_hash) run.plan
        if passed then modify (moved_to Node.finalize) else roll_back)
      else raise (value_error "plan hash missing during verification"))
