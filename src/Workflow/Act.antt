-- ===== src/Workflow/Act.antt =====
-- `_node_execute` and `_node_finalize` of backend/app/agent.py.
use shou_ba_shou_jiaoxue_ai.Prelude.{
  String, ◌&&◌, some, List, [], ◌∷◌, map, if◌then◌else◌, contains,
}
use shou_ba_shou_jiaoxue_ai.Schemas.{
  RunStatus, ToolStatus, Node, is_success, PlanStep, ToolResult, UserIdentity, RunRecord,
}
use shou_ba_shou_jiaoxue_ai.Value.{end}
use shou_ba_shou_jiaoxue_ai.Result.{value_error}
use shou_ba_shou_jiaoxue_ai.Texts.{joined, join_texts}
use shou_ba_shou_jiaoxue_ai.Security.Roles.{includes}
use shou_ba_shou_jiaoxue_ai.Approval.Gate.{truthy, text_of, audited}
use shou_ba_shou_jiaoxue_ai.Approval.Actions.{execution_actor}
use shou_ba_shou_jiaoxue_ai.Workflow.Checks.{observation_context, failed_checks}
use shou_ba_shou_jiaoxue_ai.Workflow.Topological.{topological}
use shou_ba_shou_jiaoxue_ai.Workflow.Engine.{
  Lease, Engine, Action, raise, lift, modify, with_run, ◌>>=◌, ◌>>◌, checkpoint, use_tool, or_text,
  handed_off, failed_run, moved_to,
}

-- {result.step_id for result in tool_results if result.status in {"succeeded", "skipped"}}
unfoldable pub completed_step_ids : List ToolResult → List String
completed_step_ids [] = []
completed_step_ids (r ∷ rs) =
    let rest = completed_step_ids rs in if is_success r.status then r.step_id ∷ rest else rest

module _ {W : Type 0} (engine : Engine W) (lease : Lease) where
  -- What follows a call in the loop of `_node_execute`, once it is audited and saved.
  unfoldable pub settled : ToolStatus → ToolResult → Action W (Unit {0}) → Action W (Unit {0})
  settled ToolStatus.succeeded result rest = rest
  settled ToolStatus.skipped result rest = rest
  settled ToolStatus.unknown result rest = modify (handed_off "写操作结果未知；禁止换幂等键继续，已转人工核对。")
  settled ToolStatus.failed result rest =
      modify (failed_run "TOOL_EXECUTION_FAILED" (or_text result.error result.summary))

  unfoldable pub execute_step :
      String → UserIdentity → PlanStep → Action W (Unit {0}) → Action W (Unit {0})
  execute_step plan_hash actor step rest = do
    result ← use_tool engine step plan_hash actor
    modify (audited actor.username "tool.executed")
    checkpoint engine lease
    settled result.status result rest

  -- `if failed_preconditions`, and what stands after it
  unfoldable pub guarded_step : List String → Action W (Unit {0}) → Action W (Unit {0})
  guarded_step [] go = go
  guarded_step (f ∷ failed) go =
      modify (handed_off (joined "执行前置条件已变化：" (join_texts "; " (f ∷ failed))))

  -- The loop of `_node_execute`; `completed` is `completed_step_ids`.
  unfoldable pub execute_steps :
      String → UserIdentity → List String → List PlanStep → Action W (Unit {0})
  execute_steps plan_hash actor completed [] = modify (moved_to Node.verify)
  execute_steps plan_hash actor completed (step ∷ steps) =
      let passed = execute_steps plan_hash actor completed steps in
      let next = execute_steps plan_hash actor (step.id ∷ completed) steps in
      if contains completed step.id
      then passed
      else if includes step.depends_on completed
      then with_run (λ run.
        guarded_step
          (failed_checks (observation_context run.observations end) "succeeded" step.preconditions)
          (execute_step plan_hash actor step next))
      else raise (value_error (joined "dependencies have not succeeded for " step.id))

  -- `_node_execute`
  unfoldable pub node_execute : Action W (Unit {0})
  node_execute = with_run (λ run.
      if run.policy.accepted && truthy run.policy.plan_hash
      then (do
        actor ← lift (execution_actor run)
        steps ← lift (topological run.plan)
        execute_steps (text_of run.policy.plan_hash) actor (completed_step_ids run.tool_results)
            steps)
      else raise (value_error "uncompiled plan cannot execute"))

-- [result.summary for result in tool_results if result.step_id in {…} and …]
unfoldable pub action_summaries : List String → List ToolResult → List String
action_summaries ids [] = []
action_summaries ids (r ∷ rs) =
    let rest = action_summaries ids rs in
    if contains ids r.step_id && is_success r.status then r.summary ∷ rest else rest

unfoldable pub finalized : RunRecord → RunRecord
finalized run = audited "system" "run.completed" (record run {
  status = RunStatus.completed;
  current_node = Node.completed;
  resolution =
      or_text
        (some (
          join_texts "；"
            (action_summaries (map (λ (s : PlanStep). s.id) run.plan) run.tool_results)))
        "验证完成，没有执行写动作。";
})

-- `_node_finalize`
unfoldable pub node_finalize : {W : Type 0} → Action W (Unit {0})
unfolding finalized
node_finalize = modify finalized
