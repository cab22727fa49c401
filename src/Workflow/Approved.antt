-- ===== src/Workflow/Approved.antt =====
-- When `_node_execute` of backend/app/agent.py calls a tool.
use shou_ba_shou_jiaoxue_ai.Prelude.{
  String, ◌≡◌, refl, sym, ap, ◌∙◌, subst, inl, inr, true, ◌&&◌, ◌||◌, Option, none, some, List, [],
  ◌∷◌, ◌++◌, arith, Bool-cases, contains,
}
use shou_ba_shou_jiaoxue_ai.Schemas.{
  ToolStatus, is_success, PlanStep, ToolResult, UserIdentity, RunRecord,
}
use shou_ba_shou_jiaoxue_ai.Value.{end}
use mathlib.Core.List.Memᴰ.{Memᴰ as IsIn, head, tail}
use shou_ba_shou_jiaoxue_ai.Result.{Result, ok, err}
use shou_ba_shou_jiaoxue_ai.Store.Runs.{save_run_with_lease, write_version, candidate}
use shou_ba_shou_jiaoxue_ai.Security.Roles.{includes}
use shou_ba_shou_jiaoxue_ai.Approval.Gate.{truthy, text_of, audited}
use shou_ba_shou_jiaoxue_ai.Approval.Actions.{execution_actor}
use shou_ba_shou_jiaoxue_ai.Executor.Execute.{Tools, Order, execute, execute_valid, call}
use shou_ba_shou_jiaoxue_ai.Workflow.Checks.{observation_context, failed_checks}
use shou_ba_shou_jiaoxue_ai.Workflow.Topological.{topological}
use shou_ba_shou_jiaoxue_ai.Workflow.Engine.{
  Lease, Engine, State, Action, checkpoint, use_tool, called_with,
}
use shou_ba_shou_jiaoxue_ai.Workflow.Act.{
  completed_step_ids, settled, execute_step, guarded_step, execute_steps, node_execute,
}
use shou_ba_shou_jiaoxue_ai.Workflow.Steps.{
  Rules, Steps, done, edited, called, resume-Steps, checkpoint-Steps,
}

-- A call of the plan of `run` that is due: the plan is accepted, the call carries its hash and is
-- made by the principal that executes it; the step is one of the plan's order, its dependencies have
-- succeeded, and its preconditions hold on what was observed.
pub record IsDue {W : Type 0} (run : RunRecord) (s : State W) (step : PlanStep) (plan_hash : String)
    (actor : UserIdentity) : Type 0 where
  pub accepted : run.policy.accepted ≡ true
  pub hashed : run.policy.plan_hash ≡ some plan_hash
  pub nonempty : truthy (some plan_hash) ≡ true
  pub principal : execution_actor run ≡ ok actor
  pub order : List PlanStep
  pub ordered : topological run.plan ≡ ok order
  pub planned : IsIn step order
  pub ready : includes step.depends_on (completed_step_ids s.run.tool_results) ≡ true
  pub holds :
      failed_checks (observation_context s.run.observations end) "succeeded" step.preconditions ≡ []

-- The execution changes neither the results nor the observations of a run in memory: only a call adds
-- a result, its own.
abbrev pub due_calls : {W : Type 0} → RunRecord → Rules W
due_calls run = record {
  May = IsDue run;
  Keeps = λ r r'.
      (r'.tool_results ≡ r.tool_results)
      × (r'.observations ≡ r.observations)
      × (r'.plan ≡ r.plan)
      × (r'.policy ≡ r.policy);
}

-- A text that is there and not empty.
pub some-text_of :
    (o : Option String)
    → truthy o ≡ true
    → (o ≡ some (text_of o)) × (truthy (some (text_of o)) ≡ true)
some-text_of none h = ground arith
some-text_of (some x) h = (refl, h)

contains-append :
    (xs ys : List String) (x : String) → contains (xs ++ ys) x ≡ contains xs x || contains ys x
unfolding contains
contains-append [] ys x = refl
contains-append (z ∷ xs) ys x = ground (arith, contains-append xs ys x)

completed_step_ids-append :
    (rs ts : List ToolResult)
    → completed_step_ids (rs ++ ts) ≡ completed_step_ids rs ++ completed_step_ids ts
unfolding completed_step_ids
completed_step_ids-append [] ts = refl
completed_step_ids-append (r ∷ rs) ts = ground (arith, completed_step_ids-append rs ts)

-- Each id in the first list is in the second.
abbrev pub Covers : List String → List String → Type 0
Covers xs ys = (y : String) → contains xs y ≡ true → contains ys y ≡ true

includes_mono :
    (ids xs ys : List String) → Covers xs ys → includes ids xs ≡ true → includes ids ys ≡ true
unfolding includes
includes_mono [] xs ys c h = refl
includes_mono (i ∷ ids) xs ys c h =
    ground (arith, h, c i (ground (arith, h)), includes_mono ids xs ys c (ground (arith, h)))

module _ {W : Type 0} (engine : Engine W) (lease : Lease) where
  pub checkpoint-tool_results :
      (s : State W) → (checkpoint engine lease s).1.run.tool_results ≡ s.run.tool_results
  unfolding checkpoint save_run_with_lease write_version candidate
  checkpoint-tool_results s = ground arith

  pub execute-step_id :
      (tools : Tools W) (step : PlanStep) (o : Order) (previous : List ToolResult) (w : W)
      → (execute tools step o previous w).0.step_id ≡ step.id
  unfolding execute execute_valid call
  execute-step_id tools step o previous w = ground arith

  -- A step whose call has succeeded is completed, beside those that were.
  pub Covers-result :
      (result : ToolResult) (id : String) (completed : List String) (rs : List ToolResult)
      → result.step_id ≡ id
      → is_success result.status ≡ true
      → Covers completed (completed_step_ids rs)
      → Covers (id ∷ completed) (completed_step_ids (rs ++ result ∷ []))
  unfolding completed_step_ids contains
  Covers-result result id completed rs i h c y m = ground (
    arith,
    i,
    h,
    m,
    c y,
    completed_step_ids-append rs (result ∷ []),
    contains-append (completed_step_ids rs) (completed_step_ids (result ∷ [])) y,
  )

  module _ (run : RunRecord) (order : List PlanStep) (plan_hash : String) (actor : UserIdentity)
      (accepted : run.policy.accepted ≡ true) (hashed : run.policy.plan_hash ≡ some plan_hash)
      (nonempty : truthy (some plan_hash) ≡ true) (principal : execution_actor run ≡ ok actor)
      (ordered : topological run.plan ≡ ok order) where
    abbrev Done : State W → State W → Type 0
    Done = Steps engine lease (due_calls run)

    guarded_step-Done :
        (failed : List String) (go : Action W (Unit {0})) (s : State W)
        → (failed ≡ [] → Done s (go s).1)
        → Done s (guarded_step engine lease failed go s).1
    unfolding guarded_step
    guarded_step-Done [] go s p = p refl
    guarded_step-Done (f ∷ failed) go s p = edited refl refl (refl, refl, refl, refl) done

    settled-Done :
        (status : ToolStatus) (result : ToolResult) (rest : Action W (Unit {0})) (s : State W)
        → (is_success status ≡ true → Done s (rest s).1)
        → Done s (settled engine lease status result rest s).1
    unfolding settled
    settled-Done ToolStatus.succeeded result rest s p = p refl
    settled-Done ToolStatus.skipped result rest s p = p refl
    settled-Done ToolStatus.unknown result rest s p = edited refl refl (refl, refl, refl, refl) done
    settled-Done ToolStatus.failed result rest s p = edited refl refl (refl, refl, refl, refl) done

    -- After a call that succeeded, the id of its step is completed.
    execute_step-Done :
        (step : PlanStep) (rest : Action W (Unit {0})) (s : State W) (completed : List String)
        → IsDue run s step plan_hash actor
        → Covers completed (completed_step_ids s.run.tool_results)
        → ((t : State W)
            → Covers (step.id ∷ completed) (completed_step_ids t.run.tool_results)
            → Done t (rest t).1)
        → Done s (execute_step engine lease plan_hash actor step rest s).1
    unfolding execute_step use_tool
    execute_step-Done step rest s completed due c p =
        let t = (use_tool engine step plan_hash actor s).1 in
        let result = (called_with engine step plan_hash actor s).0 in
        let u : State W = record t { run = audited actor.username "tool.executed" t.run } in
        called step plan_hash actor due (
          edited refl refl (refl, refl, refl, refl)
            (resume-Steps engine lease (due_calls run) (checkpoint engine lease u)
              (λ _. settled engine lease result.status result rest)
              (checkpoint-Steps engine lease (due_calls run) u)
              (λ _ v e. settled-Done result.status result rest v (λ h. p v (
                subst (λ rs. Covers (step.id ∷ completed) (completed_step_ids rs))
                  (sym (
                    ap (λ (o : Result (Unit {0}) × State W). o.1.run.tool_results) (sym e)
                    ∙ checkpoint-tool_results u))
                  (Covers-result result step.id completed s.run.tool_results
                    (execute-step_id engine.tools step _ s.run.tool_results s.world) h c))))))

    execute_steps-Done :
        (completed : List String) (steps : List PlanStep) (s : State W)
        → ((x : PlanStep) → IsIn x steps → IsIn x order)
        → Covers completed (completed_step_ids s.run.tool_results)
        → Done s (execute_steps engine lease plan_hash actor completed steps s).1
    unfolding execute_steps
    execute_steps-Done completed [] s i c = edited refl refl (refl, refl, refl, refl) done
    execute_steps-Done completed (step ∷ steps) s i c =
        elim (Bool-cases (contains completed step.id)) [
          | inl d ↦
              rw (d, execute_steps) (execute_steps-Done completed steps s (λ x m. i x (tail m)) c)
          | inr d ↦ elim (Bool-cases (includes step.depends_on completed)) [
            | inr m ↦ rw (d, m, execute_steps) done
            | inl m ↦
                rw (d, m, execute_steps)
                  (guarded_step-Done _ _ s (λ f.
                    execute_step-Done step
                      (execute_steps engine lease plan_hash actor (step.id ∷ completed) steps) s
                      completed
                      (record {
                        accepted = accepted;
                        hashed = hashed;
                        nonempty = nonempty;
                        principal = principal;
                        order = order;
                        ordered = ordered;
                        planned = i step (head refl);
                        ready = includes_mono step.depends_on completed _ c m;
                        holds = f;
                      })
                      c
                      (λ t c'.
                        execute_steps-Done (step.id ∷ completed) steps t (λ x m. i x (tail m)) c')))
          ]
        ]

  -- Each call that the execution makes is due: the plan is accepted, and the call bears its hash and
  -- its principal; the step is in the plan's order, its dependencies have succeeded by then, and its
  -- preconditions hold on what was observed. Beside these calls it only saves the run under the lease
  -- and changes it in memory, where it leaves the results, the observations, the plan and the policy as
  -- they are: what has succeeded is what these calls and those before the execution have returned.
  pub node_execute-Steps :
      (s : State W) → Steps engine lease (due_calls s.run) s (node_execute engine lease s).1
  unfolding node_execute
  node_execute-Steps s =
      elim (Bool-cases (s.run.policy.accepted && truthy s.run.policy.plan_hash)) [
        | inr n ↦ rw (n, node_execute) done
        | inl y ↦ go y (execution_actor s.run) refl (topological s.run.plan) refl
      ]
    where
      go :
          s.run.policy.accepted && truthy s.run.policy.plan_hash ≡ true
          → (a : Result UserIdentity) → execution_actor s.run ≡ a
          → (o : Result (List PlanStep)) → topological s.run.plan ≡ o
          → Steps engine lease (due_calls s.run) s (node_execute engine lease s).1
      go y (err x) a o e = rw (y, a, node_execute) done
      go y (ok actor) a (err x) e = rw (y, a, e, node_execute) done
      go y (ok actor) a (ok order) e =
          rw (y, a, e, node_execute)
            (execute_steps-Done s.run order (text_of s.run.policy.plan_hash) actor
              (ground (arith, y)) (some-text_of s.run.policy.plan_hash (ground (arith, y))).0
              (some-text_of s.run.policy.plan_hash (ground (arith, y))).1 a e
              (completed_step_ids s.run.tool_results) order s (λ x m. m) (λ z m. m))
