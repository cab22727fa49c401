-- ===== src/Workflow/Advance.antt =====
-- Each node of backend/app/agent.py that leaves the run going leaves it at a node of lower rank.
use shou_ba_shou_jiaoxue_ai.Prelude.{
  ℕ, ◌<◌, String, ◌≡◌, sym, subst, inl, inr, Bool, true, false, ◌&&◌, Option, none, some, List, [],
  ◌∷◌, arith, if◌then◌else◌, Bool-cases, contains,
}
use shou_ba_shou_jiaoxue_ai.Schemas.{
  ToolStatus, Node, is_success, PlanStep, ToolResult, UserIdentity, RunRecord,
}
use shou_ba_shou_jiaoxue_ai.Value.{end}
use shou_ba_shou_jiaoxue_ai.Result.{Result, ok, err}
use shou_ba_shou_jiaoxue_ai.Security.Roles.{includes}
use shou_ba_shou_jiaoxue_ai.Approval.Gate.{truthy, gate, needs_approval}
use shou_ba_shou_jiaoxue_ai.Approval.Actions.{execution_actor, system_agent}
use shou_ba_shou_jiaoxue_ai.Policy.Compiler.{compile}
use shou_ba_shou_jiaoxue_ai.Workflow.Checks.{observation_context, failed_checks}
use shou_ba_shou_jiaoxue_ai.Workflow.Topological.{topological}
use shou_ba_shou_jiaoxue_ai.Workflow.Engine.{
  Lease, Engine, State, Action, checkpoint, use_tool, called_with,
}
use shou_ba_shou_jiaoxue_ai.Workflow.Nodes.{
  node_intake, node_retrieve, node_investigate, node_observe, node_diagnose, node_policy, node_gate,
  observed, observe_steps, observes_step, investigated, proposed, judged, investigation_context,
  remediation_context, baseline_investigation_plan, planning_sources,
}
use shou_ba_shou_jiaoxue_ai.Workflow.Act.{
  settled, execute_step, guarded_step, execute_steps, node_execute, node_finalize, finalized,
}
use shou_ba_shou_jiaoxue_ai.Workflow.Process.{handler_of, is_running}
use shou_ba_shou_jiaoxue_ai.Workflow.Rank.{
  Goes, Out, Advances, rank, then_Out, branch_Out, checkpoint-Kept, node_verify-Advances,
}

module _ {W : Type 0} (engine : Engine W) (lease : Lease) where
  -- The same for a change of the run.
  branch_Goes :
      (k : ℕ) (b : Bool) (r q : RunRecord) → Goes k r → Goes k q → Goes k (if b then r else q)
  branch_Goes k true r q g h = g
  branch_Goes k false r q g h = h

  pub checkpoint-Out : (k : ℕ) (s : State W) → Goes k s.run → Out k (checkpoint engine lease s)
  checkpoint-Out k s g = go (checkpoint engine lease s) (checkpoint-Kept engine lease s)
    where
      go :
          (o : Result (Unit {0}) × State W)
          → (o.1.run.status ≡ s.run.status) × (o.1.run.current_node ≡ s.run.current_node)
          → Out k o
      go (err e, t) h = tt
      go (ok d, t) (a, b) =
          λ r. subst (λ n. rank n < k) (sym b) (g (subst (λ x. is_running x ≡ true) a r))

  observe_steps-Advances :
      (plan_hash : String) (steps : List PlanStep)
      → Advances 6 (observe_steps engine lease plan_hash steps)
  unfolding observe_steps observed use_tool
  observe_steps-Advances plan_hash [] s = λ g. omega arith
  observe_steps-Advances plan_hash (step ∷ steps) s =
      branch_Out 6 (observes_step step.id s.run.observations) s _ _
        (observe_steps-Advances plan_hash steps s)
        (branch_Out 6 (is_success (called_with engine step plan_hash system_agent s).0.status) _ _ _
          (then_Out 6 (checkpoint engine lease _) _ (λ d. observe_steps-Advances plan_hash steps))
          (checkpoint-Out 6 _ (λ g. ground (arith, g))))

  node_observe-Advances : Advances 6 (node_observe engine lease)
  unfolding node_observe
  node_observe-Advances s =
      branch_Out 6 (truthy s.run.investigation_policy.plan_hash) s _ _
        (then_Out 6 (topological s.run.investigation_plan, s) _ (observe_steps-Advances _)) tt

  settled-Advances :
      (status : ToolStatus) (r : ToolResult) (rest : Action W (Unit {0}))
      → Advances 2 rest
      → Advances 2 (settled engine lease status r rest)
  unfolding settled
  settled-Advances ToolStatus.succeeded r rest p s = p s
  settled-Advances ToolStatus.skipped r rest p s = p s
  settled-Advances ToolStatus.unknown r rest p s = λ g. ground (arith, g)
  settled-Advances ToolStatus.failed r rest p s = λ g. ground (arith, g)

  guarded_step-Advances :
      (failed : List String) (go : Action W (Unit {0}))
      → Advances 2 go
      → Advances 2 (guarded_step engine lease failed go)
  unfolding guarded_step
  guarded_step-Advances [] go p s = p s
  guarded_step-Advances (f ∷ failed) go p s = λ g. ground (arith, g)

  execute_steps-Advances :
      (plan_hash : String) (actor : UserIdentity) (completed : List String) (steps : List PlanStep)
      → Advances 2 (execute_steps engine lease plan_hash actor completed steps)
  unfolding execute_steps execute_step use_tool
  execute_steps-Advances plan_hash actor completed [] s = λ g. omega arith
  execute_steps-Advances plan_hash actor completed (step ∷ steps) s =
      branch_Out 2 (contains completed step.id) s _ _
        (execute_steps-Advances plan_hash actor completed steps s)
        (branch_Out 2 (includes step.depends_on completed) s _ _
          (guarded_step-Advances
            (failed_checks (observation_context s.run.observations end) "succeeded"
              step.preconditions)
            _
            (λ t. then_Out 2 (checkpoint engine lease _) _ (λ d.
              settled-Advances _ _ _
                (execute_steps-Advances plan_hash actor (step.id ∷ completed) steps)))
            s)
          tt)

  node_execute-Advances : Advances 2 (node_execute engine lease)
  unfolding node_execute
  node_execute-Advances s =
      branch_Out 2 (s.run.policy.accepted && truthy s.run.policy.plan_hash) s _ _
        (then_Out 2 (execution_actor s.run, s) _
          (λ actor t. then_Out 2 (topological s.run.plan, t) _ (execute_steps-Advances _ actor _)))
        tt

  node_investigate-Advances : Advances 7 (node_investigate engine)
  unfolding node_investigate investigated
  node_investigate-Advances s =
      branch_Goes 7 (truthy s.run.incident.experiment_id) _ _
        (branch_Goes 7
          (compile engine.tools.model_validate engine.plan_digest
            (investigation_context engine s.run) (baseline_investigation_plan s.run)).1.accepted
          _ _ (λ g. omega arith) (λ g. ground (arith, g)))
        (λ g. ground (arith, g))

  node_diagnose-Advances : Advances 5 (node_diagnose engine)
  unfolding node_diagnose proposed
  node_diagnose-Advances s =
      then_Out 5
        (engine.propose s.run.incident (planning_sources s.run.sources) s.run.observations, s) _
        (λ p t. branch_Goes 5 p.needs_handoff _ _ (λ g. ground (arith, g)) (λ g. omega arith))

  node_policy-Advances : Advances 4 (node_policy engine)
  unfolding node_policy judged
  node_policy-Advances s =
      branch_Goes 4
        (compile engine.tools.model_validate engine.plan_digest (remediation_context engine s.run)
          s.run.plan).1.accepted
        _ _ (λ g. omega arith) (λ g. ground (arith, g))

  node_gate-Advances : Advances 3 (node_gate engine)
  unfolding node_gate gate
  node_gate-Advances s = elim (Bool-cases (truthy s.run.policy.plan_hash)) [
    | inr n ↦ rw (n, node_gate) tt
    | inl y ↦ elim (Bool-cases (needs_approval s.run.risk_level)) [
      | inl a ↦ rw (y, a, node_gate) (λ g. ground (arith, g))
      | inr a ↦ rw (y, a, node_gate) (λ g. omega arith)
    ]
  ]

  unfoldable pub AllAdvance : ℕ → Option (Action W (Unit {0})) → Type 0
  AllAdvance k none = Unit
  AllAdvance k (some handler) = Advances k handler

  pub handler_of-AllAdvance : (node : Node) → AllAdvance (rank node) (handler_of engine lease node)
  unfolding handler_of node_intake node_retrieve node_finalize finalized AllAdvance
  handler_of-AllAdvance Node.intake = λ s g. omega arith
  handler_of-AllAdvance Node.retrieve =
      λ s. then_Out 8 (engine.search _ 6 _, s) _ (λ hits t g. omega arith)
  handler_of-AllAdvance Node.investigate = node_investigate-Advances
  handler_of-AllAdvance Node.observe = node_observe-Advances
  handler_of-AllAdvance Node.diagnose = node_diagnose-Advances
  handler_of-AllAdvance Node.policy = node_policy-Advances
  handler_of-AllAdvance Node.gate = node_gate-Advances
  handler_of-AllAdvance Node.execute = node_execute-Advances
  handler_of-AllAdvance Node.verify = node_verify-Advances engine lease
  handler_of-AllAdvance Node.finalize = λ s g. ground (arith, g)
  handler_of-AllAdvance Node.queued = tt
  handler_of-AllAdvance Node.approval = tt
  handler_of-AllAdvance Node.completed = tt
  handler_of-AllAdvance Node.handed_off = tt
  handler_of-AllAdvance Node.cancelled = tt
  handler_of-AllAdvance (Node.other x) = tt
