-- ===== src/Workflow/Reach.antt =====
-- Every node of backend/app/agent.py, and `process`, changes the run, saves it under the lease or calls
-- a tool, and does nothing else.
use shou_ba_shou_jiaoxue_ai.Prelude.{
  ℕ, zero, suc, String, refl, Bool, ◌&&◌, Option, none, some, List, [], ◌∷◌,
}
use shou_ba_shou_jiaoxue_ai.Schemas.{
  RiskLevel, Node, is_success, RollbackMode, PlanStep, ToolResult, RunRecord,
}
use shou_ba_shou_jiaoxue_ai.Value.{get}
use mathlib.Core.List.{reverse}
use shou_ba_shou_jiaoxue_ai.Result.{Result, ok, err}
use shou_ba_shou_jiaoxue_ai.Approval.Gate.{truthy, text_of, is_closed, gate}
use shou_ba_shou_jiaoxue_ai.Approval.Actions.{execution_actor, system_agent}
use shou_ba_shou_jiaoxue_ai.Policy.Tools.{ToolSpec, spec_of}
use shou_ba_shou_jiaoxue_ai.Workflow.Topological.{topological}
use shou_ba_shou_jiaoxue_ai.Workflow.Engine.{Lease, Engine, State, Action}
use shou_ba_shou_jiaoxue_ai.Workflow.Nodes.{
  node_intake, node_retrieve, node_investigate, node_diagnose, node_policy, node_gate, gated,
}
use shou_ba_shou_jiaoxue_ai.Workflow.Act.{node_finalize}
use shou_ba_shou_jiaoxue_ai.Workflow.Verify.{
  node_verify, verify_step, verify_steps, action_result, automatic_rollback, undo, confirm_rollback,
  compensate, roll_back, judge_read, confirm, as_int, verify_with, checked_step, verify_step_of,
  rollback_acted, compensated,
}
use shou_ba_shou_jiaoxue_ai.Workflow.Process.{
  run_node, handler_of, transitions, process_run, work, is_running, visit, noted,
}
use shou_ba_shou_jiaoxue_ai.Workflow.Steps.{Steps, done, edited, Steps-trans, checkpoint-Steps}
use shou_ba_shou_jiaoxue_ai.Workflow.Free.{
  any, Free, IsFree, seq, tool, save, lifted, branch, node_observe-IsFree, node_execute-IsFree,
}

module _ {W : Type 0} (engine : Engine W) (lease : Lease) where
  verify_with-IsFree :
      (plan_hash : String) (step : PlanStep) (run : RunRecord) (o : Option ToolResult)
      → IsFree engine lease (verify_with engine lease plan_hash step run o)
  unfolding verify_with judge_read
  verify_with-IsFree plan_hash step run none s = edited refl refl tt done
  verify_with-IsFree plan_hash step run (some action) s =
      lifted engine lease (checked_step (verify_step_of run step)) _
        (λ reading.
          tool engine lease reading plan_hash system_agent _
            (λ r t. edited refl refl tt (save engine lease _ (λ u. done) _)))
        s

  verify_step-IsFree :
      (plan_hash : String) (step : PlanStep)
      → IsFree engine lease (verify_step engine lease plan_hash step)
  unfolding verify_step
  verify_step-IsFree plan_hash step s =
      verify_with-IsFree plan_hash step s.run (action_result step.id s.run.tool_results) s

  verify_steps-IsFree :
      (plan_hash : String) (steps : List PlanStep)
      → IsFree engine lease (verify_steps engine lease plan_hash steps)
  unfolding verify_steps
  verify_steps-IsFree plan_hash [] s = done
  verify_steps-IsFree plan_hash (step ∷ steps) s =
      seq engine lease (verify_step engine lease plan_hash step) _
        (verify_step-IsFree plan_hash step)
        (λ passed.
          seq engine lease (verify_steps engine lease plan_hash steps) _
            (verify_steps-IsFree plan_hash steps) (λ rest t. done))
        s

  confirm_rollback-IsFree :
      (plan_hash : String) (step : PlanStep) (undone : ToolResult)
      → IsFree engine lease (confirm_rollback engine lease plan_hash step undone)
  unfolding confirm_rollback confirm
  confirm_rollback-IsFree plan_hash step undone =
      branch engine lease (is_success undone.status) _ _
        (lifted engine lease (as_int engine lease (get step.rollback.tool_input "target_replicas"))
          _
          (λ target. λ s.
            lifted engine lease (checked_step _) _
              (λ reading.
                tool engine lease reading plan_hash system_agent _
                  (λ r t. edited refl refl tt (save engine lease _ (λ u. done) _)))
              s))
        (λ t. done)

  undo-IsFree :
      (plan_hash : String) (step : PlanStep) (risk : RiskLevel)
      → IsFree engine lease (undo engine lease plan_hash step risk)
  unfolding undo
  undo-IsFree plan_hash step risk s =
      lifted engine lease (checked_step _) _
        (λ undoing t.
          lifted engine lease (execution_actor t.run) _
            (λ actor. tool engine lease undoing plan_hash actor _ (λ undone. (λ u.
              edited refl refl tt
                ((save engine lease _ (confirm_rollback-IsFree plan_hash step undone)) _))))
            t)
        s

  rollback_acted-IsFree :
      (plan_hash : String) (step : PlanStep) (o : Option ToolResult) (spec : Option ToolSpec)
      → IsFree engine lease (rollback_acted engine lease plan_hash step o spec)
  unfolding rollback_acted
  rollback_acted-IsFree plan_hash step none spec s = done
  rollback_acted-IsFree plan_hash step (some acted) none s = done
  rollback_acted-IsFree plan_hash step (some acted) (some spec) s =
      undo-IsFree plan_hash step spec.risk s

  automatic_rollback-IsFree :
      (step : PlanStep) → IsFree engine lease (automatic_rollback engine lease step)
  unfolding automatic_rollback
  automatic_rollback-IsFree step s =
      branch engine lease (truthy step.rollback.tool_name && truthy s.run.policy.plan_hash) _ _
        (rollback_acted-IsFree _ step (action_result step.id s.run.tool_results)
          (spec_of (text_of step.rollback.tool_name)))
        (λ t. done) s

  compensated-IsFree :
      (mode : RollbackMode) (step : PlanStep) (steps : Action W (List Bool × Bool))
      → IsFree engine lease steps
      → IsFree engine lease (compensated engine lease mode step steps)
  unfolding compensated
  compensated-IsFree RollbackMode.tool step steps p s =
      seq engine lease (automatic_rollback engine lease step) _ (automatic_rollback-IsFree step)
        (λ passed. seq engine lease steps _ p (λ rest t. done)) s
  compensated-IsFree RollbackMode.manual step steps p s =
      edited refl refl tt (seq engine lease steps _ p (λ rest t. done) _)

  compensate-IsFree : (steps : List PlanStep) → IsFree engine lease (compensate engine lease steps)
  unfolding compensate
  compensate-IsFree [] s = done
  compensate-IsFree (step ∷ steps) s =
      compensated-IsFree step.rollback.mode step (compensate engine lease steps)
        (compensate-IsFree steps) s

  roll_back-IsFree : IsFree engine lease (roll_back engine lease)
  unfolding roll_back
  roll_back-IsFree s = edited refl refl tt (
      lifted engine lease (topological s.run.plan) _
        (λ order.
          seq engine lease (compensate engine lease (reverse order)) _
            (compensate-IsFree (reverse order)) (λ outcomes t. edited refl refl tt done))
        _)

  node_verify-IsFree : IsFree engine lease (node_verify engine lease)
  unfolding node_verify
  node_verify-IsFree s =
      branch engine lease (truthy s.run.policy.plan_hash) _ _
        (seq engine lease (verify_steps engine lease (text_of s.run.policy.plan_hash) s.run.plan) _
          (verify_steps-IsFree (text_of s.run.policy.plan_hash) s.run.plan)
          (λ passed.
            branch engine lease passed _ _ (λ t. edited refl refl tt done) roll_back-IsFree))
        (λ t. done) s

  node_retrieve-IsFree : IsFree engine lease (node_retrieve engine)
  unfolding node_retrieve
  node_retrieve-IsFree s =
      lifted engine lease (engine.search _ 6 _) _ (λ hits t. edited refl refl tt done) s

  node_diagnose-IsFree : IsFree engine lease (node_diagnose engine)
  unfolding node_diagnose
  node_diagnose-IsFree s =
      lifted engine lease (engine.propose _ _ _) _ (λ p t. edited refl refl tt done) s

  node_gate-IsFree : IsFree engine lease (node_gate engine)
  unfolding node_gate
  node_gate-IsFree s = go (gate engine.quorum s.run)
    where
      go : (r : Result RunRecord) → Free engine lease s (gated engine r s).1
      go (err e) = done
      go (ok run) = edited refl refl tt done

  abbrev AllFree : Option (Action W (Unit {0})) → Type 0
  AllFree none = Unit
  AllFree (some handler) = IsFree engine lease handler

  handler_of-AllFree : (node : Node) → AllFree (handler_of engine lease node)
  unfolding handler_of node_intake node_investigate node_policy node_finalize
  handler_of-AllFree Node.intake = λ s. edited refl refl tt done
  handler_of-AllFree Node.retrieve = node_retrieve-IsFree
  handler_of-AllFree Node.investigate = λ s. edited refl refl tt done
  handler_of-AllFree Node.observe = node_observe-IsFree engine lease
  handler_of-AllFree Node.diagnose = node_diagnose-IsFree
  handler_of-AllFree Node.policy = λ s. edited refl refl tt done
  handler_of-AllFree Node.gate = node_gate-IsFree
  handler_of-AllFree Node.execute = node_execute-IsFree engine lease
  handler_of-AllFree Node.verify = node_verify-IsFree
  handler_of-AllFree Node.finalize = λ s. edited refl refl tt done
  handler_of-AllFree Node.queued = tt
  handler_of-AllFree Node.approval = tt
  handler_of-AllFree Node.completed = tt
  handler_of-AllFree Node.handed_off = tt
  handler_of-AllFree Node.cancelled = tt
  handler_of-AllFree (Node.other s) = tt

  noted-Free :
      (s : State W) (o : Result (Unit {0}) × State W)
      → Free engine lease s o.1
      → Free engine lease s (noted engine lease o)
  noted-Free s (ok d, t) p = p
  noted-Free s (err e, t) p =
      Steps-trans engine lease (any engine lease) p (edited refl refl tt done)

  run_node-IsFree :
      (handler : Action W (Unit {0}))
      → IsFree engine lease handler
      → IsFree engine lease (run_node engine lease handler)
  unfolding run_node
  run_node-IsFree handler p s =
      Steps-trans engine lease (any engine lease) (noted-Free s (handler s) (p s))
        (checkpoint-Steps engine lease (any engine lease) _)

  visit-IsFree :
      (o : Option (Action W (Unit {0}))) (rest : Action W (Unit {0}))
      → AllFree o
      → IsFree engine lease rest
      → IsFree engine lease (visit engine lease o rest)
  unfolding visit
  visit-IsFree none rest a p s = edited refl refl tt done
  visit-IsFree (some handler) rest a p s =
      seq engine lease (run_node engine lease handler) _ (run_node-IsFree handler a) (λ d. p) s

  pub transitions-IsFree : (n : ℕ) → IsFree engine lease (transitions engine lease n)
  unfolding transitions
  transitions-IsFree zero s =
      branch engine lease (is_running s.run.status) _ _ (λ t. edited refl refl tt done) (λ t. done)
        s
  transitions-IsFree (suc n) s =
      branch engine lease (is_running s.run.status) _ _
        (branch engine lease s.run.cancellation_requested _ _ (λ t. edited refl refl tt done)
          (visit-IsFree (handler_of engine lease s.run.current_node) _
            (handler_of-AllFree s.run.current_node) (transitions-IsFree n)))
        (λ t. done) s

  pub work-IsFree : (n : ℕ) → IsFree engine lease (work engine lease n)
  unfolding work
  work-IsFree n s = edited refl refl tt (
      save engine lease _
        (seq engine lease (transitions engine lease n) _ (transitions-IsFree n)
          (λ d. checkpoint-Steps engine lease (any engine lease)))
        _)

  -- All that processing a run does, beside changing it in memory, is saving it under the lease and
  -- calling tools.
  pub process_run-Steps :
      (n : ℕ) (s : State W)
      → Steps engine lease (any engine lease) s (process_run engine lease n s).1
  unfolding process_run
  process_run-Steps n s =
      branch engine lease (is_closed s.run.status) _ _ (λ t. done)
        (branch engine lease s.run.cancellation_requested _ _
          (λ t. edited refl refl tt (checkpoint-Steps engine lease (any engine lease) _))
          (work-IsFree n))
        s
