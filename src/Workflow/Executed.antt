-- ===== src/Workflow/Executed.antt =====
-- What `_node_execute` of backend/app/agent.py has done when it lets a run go on.
use shou_ba_shou_jiaoxue_ai.Prelude.{
  String, ◌≡◌, refl, sym, ap, subst, inl, inr, true, ◌&&◌, List, [], ◌∷◌, ◌++◌, arith, ==_refl,
  Bool-cases, contains,
}
use shou_ba_shou_jiaoxue_ai.Schemas.{
  ToolStatus, Node, is_success, PlanStep, ToolResult, UserIdentity,
}
use shou_ba_shou_jiaoxue_ai.Value.{end}
use mathlib.Core.List.Memᴰ.{Memᴰ as IsIn, cases_cons, not-nil}
use shou_ba_shou_jiaoxue_ai.Result.{Result, ok, err}
use shou_ba_shou_jiaoxue_ai.Security.Roles.{includes}
use shou_ba_shou_jiaoxue_ai.Approval.Gate.{truthy}
use shou_ba_shou_jiaoxue_ai.Approval.Actions.{execution_actor}
use shou_ba_shou_jiaoxue_ai.Workflow.Checks.{observation_context, failed_checks}
use shou_ba_shou_jiaoxue_ai.Workflow.Topological.{topological}
use shou_ba_shou_jiaoxue_ai.Workflow.Engine.{
  Lease, Engine, State, Action, resume, checkpoint, use_tool, called_with,
}
use shou_ba_shou_jiaoxue_ai.Workflow.Act.{
  completed_step_ids, settled, execute_step, guarded_step, execute_steps, node_execute,
}
use shou_ba_shou_jiaoxue_ai.Workflow.Process.{is_running}
use shou_ba_shou_jiaoxue_ai.Workflow.Approved.{
  Covers, Covers-result, checkpoint-tool_results, execute-step_id,
}

module _ {W : Type 0} (engine : Engine W) (lease : Lease) where
  -- A run that goes on from here goes to its verification, and these steps have succeeded, beside
  -- those that had.
  abbrev pub Ran : List String → List PlanStep → Result (Unit {0}) × State W → Type 0
  Ran completed steps (err e, t) = Unit
  Ran completed steps (ok d, t) =
      is_running t.run.status ≡ true
      → (t.run.current_node ≡ Node.verify)
        × Covers completed (completed_step_ids t.run.tool_results)
        × ((x : PlanStep)
            → IsIn x steps
            → contains (completed_step_ids t.run.tool_results) x.id ≡ true)

  -- The rest of the loop, for any state in which these ids are completed.
  abbrev RunsOn : List String → List PlanStep → Action W (Unit {0}) → Type 0
  RunsOn completed steps m =
      (t : State W)
      → Covers completed (completed_step_ids t.run.tool_results)
      → Ran completed steps (m t)

  settled-Ran :
      (status : ToolStatus) (r : ToolResult) (completed : List String) (steps : List PlanStep)
      (rest : Action W (Unit {0})) (t : State W)
      → (is_success status ≡ true → Ran completed steps (rest t))
      → Ran completed steps (settled engine lease status r rest t)
  unfolding settled
  settled-Ran ToolStatus.succeeded r completed steps rest t p = p refl
  settled-Ran ToolStatus.skipped r completed steps rest t p = p refl
  settled-Ran ToolStatus.unknown r completed steps rest t p = λ g. ground (arith, g)
  settled-Ran ToolStatus.failed r completed steps rest t p = λ g. ground (arith, g)

  weaken :
      (completed : List String) (step : PlanStep) (steps : List PlanStep)
      (o : Result (Unit {0}) × State W)
      → Ran (step.id ∷ completed) steps o
      → Ran completed (step ∷ steps) o
  unfolding contains
  weaken completed step steps (err e, t) h = tt
  weaken completed step steps (ok d, t) h = λ g.
      let (n, c, all_in) = h g in
      (
        n,
        (λ y m. c y (ground (arith, m))),
        λ x i. elim (cases_cons i) [
          | inl e ↦ c x.id (ground (arith, ap (λ (p : PlanStep). p.id) e, ==_refl x.id))
          | inr j ↦ all_in x j
        ],
      )

  widen :
      (completed : List String) (step : PlanStep) (steps : List PlanStep)
      (o : Result (Unit {0}) × State W)
      → contains completed step.id ≡ true
      → Ran completed steps o
      → Ran completed (step ∷ steps) o
  widen completed step steps (err e, t) d h = tt
  widen completed step steps (ok x, t) d h = λ g.
      let (n, c, all_in) = h g in
      (
        n,
        c,
        λ x i. elim (cases_cons i) [
          | inl e ↦
              subst (λ (p : PlanStep). contains (completed_step_ids t.run.tool_results) p.id ≡ true)
                (sym e) (c step.id d)
          | inr j ↦ all_in x j
        ],
      )

  execute_step-Ran :
      (plan_hash : String) (actor : UserIdentity) (completed : List String) (step : PlanStep)
      (steps : List PlanStep) (rest : Action W (Unit {0})) (s : State W)
      → Covers completed (completed_step_ids s.run.tool_results)
      → RunsOn (step.id ∷ completed) steps rest
      → Ran (step.id ∷ completed) steps (execute_step engine lease plan_hash actor step rest s)
  unfolding execute_step use_tool
  execute_step-Ran plan_hash actor completed step steps rest s c p =
      let result = (called_with engine step plan_hash actor s).0 in
      go result (execute-step_id engine lease engine.tools step _ s.run.tool_results s.world)
        (checkpoint engine lease _) (checkpoint-tool_results engine lease _)
    where
      go :
          (result : ToolResult)
          → result.step_id ≡ step.id
          → (o : Result (Unit {0}) × State W)
          → o.1.run.tool_results ≡ s.run.tool_results ++ result ∷ []
          → Ran
              (step.id ∷ completed)
              steps
              (resume (λ d. settled engine lease result.status result rest) o)
      go result i (err e, t) h = tt
      go result i (ok d, t) h =
          settled-Ran result.status result (step.id ∷ completed) steps rest t (λ good. p t (
            subst (λ rs. Covers (step.id ∷ completed) (completed_step_ids rs)) (sym h)
              (Covers-result engine lease result step.id completed s.run.tool_results i good c)))

  guarded_step-Ran :
      (completed : List String) (steps : List PlanStep) (failed : List String)
      (go : Action W (Unit {0})) (s : State W)
      → Ran completed steps (go s)
      → Ran completed steps (guarded_step engine lease failed go s)
  unfolding guarded_step
  guarded_step-Ran completed steps [] go s p = p
  guarded_step-Ran completed steps (f ∷ failed) go s p = λ g. ground (arith, g)

  execute_steps-Ran :
      (plan_hash : String) (actor : UserIdentity) (completed : List String) (steps : List PlanStep)
      → RunsOn completed steps (execute_steps engine lease plan_hash actor completed steps)
  unfolding execute_steps
  execute_steps-Ran plan_hash actor completed [] s c = λ g. (refl, c, λ x i. absurd (not-nil i))
  execute_steps-Ran plan_hash actor completed (step ∷ steps) s c =
      elim (Bool-cases (contains completed step.id)) [
        | inl d ↦
            rw (d, execute_steps)
              (widen completed step steps _ d
                (execute_steps-Ran plan_hash actor completed steps s c))
        | inr d ↦ elim (Bool-cases (includes step.depends_on completed)) [
          | inr m ↦ rw (d, m, execute_steps) tt
          | inl m ↦
              rw (d, m, execute_steps)
                (guarded_step-Ran completed (step ∷ steps)
                  (failed_checks (observation_context s.run.observations end) "succeeded"
                    step.preconditions)
                  _ s
                  (weaken completed step steps _ (
                    execute_step-Ran plan_hash actor completed step steps _ s c
                      (execute_steps-Ran plan_hash actor (step.id ∷ completed) steps))))
        ]
      ]

  -- An execution that lets the run go on.
  abbrev pub LetsOn : List PlanStep → Result (Unit {0}) × State W → Type 0
  LetsOn plan (err e, t) = Unit
  LetsOn plan (ok d, t) =
      is_running t.run.status ≡ true
      → (t.run.current_node ≡ Node.verify)
        × ((order : List PlanStep) × (topological plan ≡ ok order)
            × ((x : PlanStep)
                → IsIn x order
                → contains (completed_step_ids t.run.tool_results) x.id ≡ true))

  -- When the execution leaves a run going, it goes on to its verification, and every step of the plan's
  -- order has a result that succeeded.
  pub node_execute-LetsOn : (s : State W) → LetsOn s.run.plan (node_execute engine lease s)
  unfolding node_execute
  node_execute-LetsOn s =
      elim (Bool-cases (s.run.policy.accepted && truthy s.run.policy.plan_hash)) [
        | inr n ↦ rw (n, node_execute) tt
        | inl y ↦ go y (execution_actor s.run) refl (topological s.run.plan) refl
      ]
    where
      lets :
          (order : List PlanStep) (o : Result (Unit {0}) × State W)
          → topological s.run.plan ≡ ok order
          → Ran (completed_step_ids s.run.tool_results) order o
          → LetsOn s.run.plan o
      lets order (err e, t) h p = tt
      lets order (ok d, t) h p = λ g. let (n, c, i) = p g in (n, (order, h, i))

      go :
          s.run.policy.accepted && truthy s.run.policy.plan_hash ≡ true
          → (a : Result UserIdentity) → execution_actor s.run ≡ a
          → (o : Result (List PlanStep)) → topological s.run.plan ≡ o
          → LetsOn s.run.plan (node_execute engine lease s)
      go y (err x) a o e = rw (y, a, node_execute) tt
      go y (ok actor) a (err x) e = rw (y, a, e, node_execute) tt
      go y (ok actor) a (ok order) e =
          rw (y, a, e, node_execute)
            (lets order _ e (
              execute_steps-Ran _ actor (completed_step_ids s.run.tool_results) order s (λ z m. m)))
