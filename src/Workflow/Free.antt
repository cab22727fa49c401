-- ===== src/Workflow/Free.antt =====
-- Actions of backend/app/agent.py that change the run, save it under the lease or call a tool, and do
-- nothing else: how they are put together, and the nodes that observe and execute.
use shou_ba_shou_jiaoxue_ai.Prelude.{
  String, refl, Bool, true, false, ◌&&◌, List, [], ◌∷◌, if◌then◌else◌, contains,
}
use shou_ba_shou_jiaoxue_ai.Schemas.{
  ToolStatus, is_success, PlanStep, ToolResult, UserIdentity, RunRecord,
}
use shou_ba_shou_jiaoxue_ai.Value.{end}
use shou_ba_shou_jiaoxue_ai.Result.{Result, ok, err}
use shou_ba_shou_jiaoxue_ai.Approval.Gate.{truthy}
use shou_ba_shou_jiaoxue_ai.Approval.Actions.{execution_actor, system_agent}
use shou_ba_shou_jiaoxue_ai.Security.Roles.{includes}
use shou_ba_shou_jiaoxue_ai.Workflow.Checks.{observation_context, failed_checks}
use shou_ba_shou_jiaoxue_ai.Workflow.Topological.{topological}
use shou_ba_shou_jiaoxue_ai.Workflow.Engine.{
  Lease, Engine, State, Action, ◌>>=◌, ◌>>◌, checkpoint, use_tool, modify, lift,
}
use shou_ba_shou_jiaoxue_ai.Workflow.Nodes.{node_observe, observed, observe_steps, observes_step}
use shou_ba_shou_jiaoxue_ai.Workflow.Act.{
  settled, execute_step, guarded_step, execute_steps, node_execute,
}
use shou_ba_shou_jiaoxue_ai.Workflow.Steps.{
  Rules, Steps, done, edited, resume-Steps, checkpoint-Steps, use_tool-Steps,
}

module _ {W : Type 0} (engine : Engine W) (lease : Lease) where
  -- Any tool call, and any change of the run.
  abbrev pub any : Rules W
  any = record { May = λ s step plan_hash actor. Unit; Keeps = λ r r'. Unit }

  abbrev pub Free : State W → State W → Type 0
  Free = Steps engine lease any

  -- An action that only does these things, wherever it starts.
  abbrev pub IsFree : {A : Type 0} → Action W A → Type 0
  IsFree m = (s : State W) → Free s (m s).1

  pub seq :
      {A B : Type 0} (m : Action W A) (next : A → Action W B)
      → IsFree m
      → ((a : A) → IsFree (next a))
      → IsFree (m >>= next)
  seq m next p q s = resume-Steps engine lease any (m s) next (p s) (λ a t e. q a t)

  pub edit : (f : RunRecord → RunRecord) → IsFree (modify f)
  edit f s = edited refl refl tt done

  pub then_edit :
      {A : Type 0} (f : RunRecord → RunRecord) (m : Action W A) → IsFree m → IsFree (modify f >> m)
  then_edit f m p s = edited refl refl tt (p _)

  pub tool :
      {A : Type 0} (step : PlanStep) (plan_hash : String) (actor : UserIdentity)
      (next : ToolResult → Action W A)
      → ((r : ToolResult) → IsFree (next r))
      → IsFree (use_tool engine step plan_hash actor >>= next)
  tool step plan_hash actor next q =
      seq (use_tool engine step plan_hash actor) next
        (λ s. use_tool-Steps engine lease any step plan_hash actor s tt) q

  pub save : {A : Type 0} (m : Action W A) → IsFree m → IsFree (checkpoint engine lease >> m)
  save m p = seq (checkpoint engine lease) (λ _. m) (checkpoint-Steps engine lease any) (λ _. p)

  pub lifted :
      {A B : Type 0} (r : Result A) (next : A → Action W B)
      → ((a : A) → IsFree (next a))
      → IsFree (lift r >>= next)
  lifted (err e) next q s = done
  lifted (ok a) next q s = q a s

  pub branch :
      {A : Type 0} (b : Bool) (m n : Action W A) → IsFree m → IsFree n → IsFree (if b then m else n)
  branch true m n p q = p
  branch false m n p q = q

  observe_steps-IsFree :
      (plan_hash : String) (steps : List PlanStep)
      → IsFree (observe_steps engine lease plan_hash steps)
  unfolding observe_steps observed
  observe_steps-IsFree plan_hash [] s = edited refl refl tt done
  observe_steps-IsFree plan_hash (step ∷ steps) s =
      branch (observes_step step.id s.run.observations) (observe_steps engine lease plan_hash steps)
        _ (observe_steps-IsFree plan_hash steps)
        (tool step plan_hash system_agent _ (λ r.
          branch (is_success r.status) _ _
            (λ t. edited refl refl tt (save _ (observe_steps-IsFree plan_hash steps) _))
            ((λ t. edited refl refl tt ((checkpoint-Steps engine lease any) _)))))
        s

  pub node_observe-IsFree : IsFree (node_observe engine lease)
  unfolding node_observe
  node_observe-IsFree s =
      branch (truthy s.run.investigation_policy.plan_hash) _ _
        (lifted (topological s.run.investigation_plan) _ (observe_steps-IsFree _)) (λ t. done) s

  guarded-IsFree :
      (failed : List String) (go : Action W (Unit {0}))
      → IsFree go
      → IsFree (guarded_step engine lease failed go)
  unfolding guarded_step
  guarded-IsFree [] go p = p
  guarded-IsFree (f ∷ failed) go p = edit _

  settled-IsFree :
      (status : ToolStatus) (r : ToolResult) (rest : Action W (Unit {0}))
      → IsFree rest
      → IsFree (settled engine lease status r rest)
  unfolding settled
  settled-IsFree ToolStatus.succeeded r rest p = p
  settled-IsFree ToolStatus.skipped r rest p = p
  settled-IsFree ToolStatus.unknown r rest p = edit _
  settled-IsFree ToolStatus.failed r rest p = edit _

  execute_steps-IsFree :
      (plan_hash : String) (actor : UserIdentity) (completed : List String) (steps : List PlanStep)
      → IsFree (execute_steps engine lease plan_hash actor completed steps)
  unfolding execute_steps execute_step
  execute_steps-IsFree plan_hash actor completed [] s = edited refl refl tt done
  execute_steps-IsFree plan_hash actor completed (step ∷ steps) s =
      branch (contains completed step.id) _ _ (execute_steps-IsFree plan_hash actor completed steps)
        (branch (includes step.depends_on completed) _ _
          (λ t.
            guarded-IsFree
              (failed_checks (observation_context t.run.observations end) "succeeded"
                step.preconditions)
              (execute_step engine lease plan_hash actor step
                (execute_steps engine lease plan_hash actor (step.id ∷ completed) steps))
              (tool step plan_hash actor _ (λ r. (λ t. edited refl refl tt (
                (save _ (
                    settled-IsFree r.status r _
                      (execute_steps-IsFree plan_hash actor (step.id ∷ completed) steps)))
                  _))))
              t)
          (λ t. done))
        s

  pub node_execute-IsFree : IsFree (node_execute engine lease)
  unfolding node_execute
  node_execute-IsFree s =
      branch (s.run.policy.accepted && truthy s.run.policy.plan_hash) _ _
        (lifted (execution_actor s.run) _
          (λ actor. lifted (topological s.run.plan) _ (execute_steps-IsFree _ actor _)))
        (λ t. done) s
