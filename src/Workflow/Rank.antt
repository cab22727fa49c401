-- ===== src/Workflow/Rank.antt =====
-- The order of the nodes of backend/app/agent.py: a node that leaves the run going leaves it at a later
-- node.
use shou_ba_shou_jiaoxue_ai.Prelude.{
  ℕ, ◌<◌, String, ◌≡◌, refl, ◌∙◌, inl, inr, Bool, true, false, ◌&&◌, Option, none, some, List, [],
  ◌∷◌, arith, if◌then◌else◌, Bool-cases,
}
use shou_ba_shou_jiaoxue_ai.Schemas.{
  RunStatus, RiskLevel, Node, is_success, RollbackMode, PlanStep, ToolResult, RunRecord,
}
use shou_ba_shou_jiaoxue_ai.Value.{get}
use mathlib.Core.List.{reverse}
use shou_ba_shou_jiaoxue_ai.Result.{Result, ok, err}
use shou_ba_shou_jiaoxue_ai.Store.Runs.{save_run_with_lease, write_version, candidate}
use shou_ba_shou_jiaoxue_ai.Approval.Gate.{truthy, text_of}
use shou_ba_shou_jiaoxue_ai.Approval.Actions.{execution_actor}
use shou_ba_shou_jiaoxue_ai.Policy.Tools.{ToolSpec, spec_of}
use shou_ba_shou_jiaoxue_ai.Workflow.Topological.{topological}
use shou_ba_shou_jiaoxue_ai.Workflow.Engine.{
  Lease, Engine, State, Action, resume, checkpoint, use_tool,
}
use shou_ba_shou_jiaoxue_ai.Workflow.Verify.{
  node_verify, verify_steps, action_result, automatic_rollback, checked_step, undo,
  confirm_rollback, compensate, roll_back, confirm, as_int, rollback_acted, compensated,
  rollback_error,
}
use shou_ba_shou_jiaoxue_ai.Workflow.Process.{is_running}

-- How many nodes may follow.
abbrev pub rank : Node → ℕ
rank Node.intake = 9
rank Node.retrieve = 8
rank Node.investigate = 7
rank Node.observe = 6
rank Node.diagnose = 5
rank Node.policy = 4
rank Node.gate = 3
rank Node.execute = 2
rank Node.verify = 1
rank _ = 0

-- A run that still goes has fewer than k nodes to come.
abbrev pub Goes : ℕ → RunRecord → Type 0
Goes k run = is_running run.status ≡ true → rank run.current_node < k

module _ {W : Type 0} where
  abbrev pub Out : ℕ → Result (Unit {0}) × State W → Type 0
  Out k (err e, t) = Unit
  Out k (ok d, t) = Goes k t.run

  abbrev pub Advances : ℕ → Action W (Unit {0}) → Type 0
  Advances k m = (s : State W) → Out k (m s)

  pub then_Out :
      {A : Type 0} (k : ℕ) (o : Result A × State W) (next : A → Action W (Unit {0}))
      → ((a : A) → Advances k (next a))
      → Out k (resume next o)
  then_Out k (err e, t) next p = tt
  then_Out k (ok a, t) next p = p a t

  pub branch_Out :
      (k : ℕ) (b : Bool) (s : State W) (m n : Action W (Unit {0}))
      → Out k (m s)
      → Out k (n s)
      → Out k ((if b then m else n) s)
  branch_Out k true s m n p q = p
  branch_Out k false s m n p q = q

  module _ (engine : Engine W) (lease : Lease) where
    pub checkpoint-Kept :
        (s : State W)
        → ((checkpoint engine lease s).1.run.status ≡ s.run.status)
          × ((checkpoint engine lease s).1.run.current_node ≡ s.run.current_node)
    unfolding checkpoint save_run_with_lease write_version candidate
    checkpoint-Kept s = ground arith

    -- Whatever it does, the status stays.
    abbrev Keeps : {A : Type 0} → Action W A → Type 0
    Keeps m = (s : State W) → (m s).1.run.status ≡ s.run.status

    resume-Keeps :
        {A B : Type 0} (s : State W) (o : Result A × State W) (next : A → Action W B)
        → o.1.run.status ≡ s.run.status
        → ((a : A) → Keeps (next a))
        → (resume next o).1.run.status ≡ s.run.status
    resume-Keeps s (err e, t) next h p = h
    resume-Keeps s (ok a, t) next h p = p a t ∙ h

    confirm_rollback-Keeps :
        (plan_hash : String) (step : PlanStep) (undone : ToolResult)
        → Keeps (confirm_rollback engine lease plan_hash step undone)
    unfolding confirm_rollback confirm use_tool
    confirm_rollback-Keeps plan_hash step undone s = elim (Bool-cases (is_success undone.status)) [
      | inr n ↦ rw (n, confirm_rollback) refl
      | inl y ↦
          rw (y, confirm_rollback)
            (resume-Keeps s
              (as_int engine lease (get step.rollback.tool_input "target_replicas"), s) _ refl
              (λ target t.
                resume-Keeps t (checked_step _, t) _ refl
                  (λ reading u.
                    resume-Keeps u (checkpoint engine lease _) _ (checkpoint-Kept _).0
                      (λ d x. refl))))
    ]

    undo-Keeps :
        (plan_hash : String) (step : PlanStep) (risk : RiskLevel)
        → Keeps (undo engine lease plan_hash step risk)
    unfolding undo use_tool
    undo-Keeps plan_hash step risk s =
        resume-Keeps s (checked_step _, s) _ refl
          (λ undoing v.
            resume-Keeps v (execution_actor v.run, v) _ refl
              (λ actor t.
                resume-Keeps t (checkpoint engine lease _) _ (checkpoint-Kept _).0
                  (λ d. confirm_rollback-Keeps plan_hash step _)))

    rollback_acted-Keeps :
        (plan_hash : String) (step : PlanStep) (o : Option ToolResult) (spec : Option ToolSpec)
        → Keeps (rollback_acted engine lease plan_hash step o spec)
    unfolding rollback_acted
    rollback_acted-Keeps plan_hash step none spec s = refl
    rollback_acted-Keeps plan_hash step (some acted) none s = refl
    rollback_acted-Keeps plan_hash step (some acted) (some spec) s =
        undo-Keeps plan_hash step spec.risk s

    automatic_rollback-Keeps : (step : PlanStep) → Keeps (automatic_rollback engine lease step)
    unfolding automatic_rollback
    automatic_rollback-Keeps step s =
        elim (Bool-cases (truthy step.rollback.tool_name && truthy s.run.policy.plan_hash)) [
          | inr n ↦ rw (n, automatic_rollback) refl
          | inl y ↦
              rw (y, automatic_rollback)
                (rollback_acted-Keeps (text_of s.run.policy.plan_hash) step
                  (action_result step.id s.run.tool_results)
                  (spec_of (text_of step.rollback.tool_name)) s)
        ]

    compensated-Keeps :
        (mode : RollbackMode) (step : PlanStep) (steps : Action W (List Bool × Bool))
        → Keeps steps
        → Keeps (compensated engine lease mode step steps)
    unfolding compensated
    compensated-Keeps RollbackMode.tool step steps p s =
        resume-Keeps s (automatic_rollback engine lease step s) _ (automatic_rollback-Keeps step s)
          (λ passed t. resume-Keeps t (steps t) _ (p t) (λ rest u. refl))
    compensated-Keeps RollbackMode.manual step steps p s =
        resume-Keeps s (steps _) _ (p _) (λ rest u. refl)

    compensate-Keeps : (steps : List PlanStep) → Keeps (compensate engine lease steps)
    unfolding compensate
    compensate-Keeps [] s = refl
    compensate-Keeps (step ∷ steps) s =
        compensated-Keeps step.rollback.mode step (compensate engine lease steps)
          (compensate-Keeps steps) s

    -- A run whose status is not running goes nowhere.
    stopped : (k : ℕ) (run : RunRecord) → is_running run.status ≡ false → Goes k run
    stopped k run h g = absurd (ground (arith, h, g))

    -- An action that keeps the status of a run that does not go.
    halted :
        {A : Type 0} (k : ℕ) (s : State W) (o : Result A × State W) (next : A → Action W (Unit {0}))
        → is_running s.run.status ≡ false
        → o.1.run.status ≡ s.run.status
        → ((a : A) (t : State W) → is_running t.run.status ≡ false → Out k (next a t))
        → Out k (resume next o)
    halted k s (err e, t) next h e' p = tt
    halted k s (ok a, t) next h e' p = p a t (ground (arith, h, e'))

    pub roll_back-Advances : (k : ℕ) → Advances k (roll_back engine lease)
    unfolding roll_back rollback_error
    roll_back-Advances k s =
        halted k
          (record s {
            run = record s.run { status = RunStatus.failed; current_node = Node.verify };
          })
          (topological s.run.plan, _) _ refl refl
          (λ order t h.
            halted k t (compensate engine lease (reverse order) t) _ h
              (compensate-Keeps (reverse order) t)
              (λ outcomes u h'.
                stopped k (rollback_error engine lease outcomes u.run) (ground (arith, h'))))

    pub node_verify-Advances : Advances 1 (node_verify engine lease)
    unfolding node_verify
    node_verify-Advances s =
        branch_Out 1 (truthy s.run.policy.plan_hash) s _ _
          (then_Out 1 (verify_steps engine lease (text_of s.run.policy.plan_hash) s.run.plan s) _
            (λ passed t.
              branch_Out 1 passed t _ (roll_back engine lease) (λ g. omega arith)
                (roll_back-Advances 1 t)))
          tt
