-- ===== src/Workflow/Limit.antt =====
-- The limit on transitions of `process` of backend/app/agent.py is never what ends a run.
use shou_ba_shou_jiaoxue_ai.Prelude.{
  ℕ, zero, suc, ◌≤◌, ◌<◌, ◌≡◌, refl, sym, ap, ◌∙◌, inl, inr, Bool, true, false, Option, none, some,
  arith, if◌then◌else◌, Bool-cases,
}
use shou_ba_shou_jiaoxue_ai.Schemas.{Node}
use shou_ba_shou_jiaoxue_ai.Result.{Result, ok, err}
use shou_ba_shou_jiaoxue_ai.Workflow.Engine.{Lease, Engine, State, Action, resume, checkpoint}
use shou_ba_shou_jiaoxue_ai.Workflow.Process.{
  run_node, handler_of, visit, transitions, is_running, noted,
}
use shou_ba_shou_jiaoxue_ai.Workflow.Rank.{Goes, Out, Advances, rank}
use shou_ba_shou_jiaoxue_ai.Workflow.Advance.{AllAdvance, checkpoint-Out, handler_of-AllAdvance}
use shou_ba_shou_jiaoxue_ai.Approval.Gate.{is_closed}
use shou_ba_shou_jiaoxue_ai.Workflow.Process.{process_run, work, node_limit}

module _ {W : Type 0} (engine : Engine W) (lease : Lease) where
  noted-Goes :
      (k : ℕ) (o : Result (Unit {0}) × State W) → Out k o → Goes k (noted engine lease o).run
  noted-Goes k (ok d, t) p = p
  noted-Goes k (err e, t) p = λ g. ground (arith, g)

  run_node-Out :
      (k : ℕ) (handler : Action W (Unit {0})) (s : State W)
      → Advances k handler
      → Out k (run_node engine lease handler s)
  unfolding run_node
  run_node-Out k handler s p =
      checkpoint-Out engine lease k (noted engine lease (handler s))
        (noted-Goes k (handler s) (p s))

  -- A run that does not go is left as it is, whatever the limit.
  transitions-idle :
      (n : ℕ) (s : State W)
      → is_running s.run.status ≡ false
      → transitions engine lease n s ≡ (ok tt, s)
  unfolding transitions
  transitions-idle zero s h = rw (h, transitions) refl
  transitions-idle (suc n) s h = rw (h, transitions) refl

  branch_same :
      (b : Bool) (s : State W) (m n m' n' : Action W (Unit {0}))
      → m s ≡ m' s
      → n s ≡ n' s
      → (if b then m else n) s ≡ (if b then m' else n') s
  branch_same true s m n m' n' p q = p
  branch_same false s m n m' n' p q = q

  resume_same :
      (k : ℕ) (o : Result (Unit {0}) × State W) (rest rest' : Action W (Unit {0}))
      → Out k o
      → ((t : State W) → Goes k t.run → rest t ≡ rest' t)
      → resume (λ d. rest) o ≡ resume (λ d. rest') o
  resume_same k (err e, t) rest rest' p q = refl
  resume_same k (ok d, t) rest rest' p q = q t p

  visit_same :
      (k : ℕ) (o : Option (Action W (Unit {0}))) (s : State W) (rest rest' : Action W (Unit {0}))
      → AllAdvance engine lease k o
      → ((t : State W) → Goes k t.run → rest t ≡ rest' t)
      → visit engine lease o rest s ≡ visit engine lease o rest' s
  unfolding visit AllAdvance
  visit_same k none s rest rest' a q = refl
  visit_same k (some handler) s rest rest' a q =
      resume_same k (run_node engine lease handler s) rest rest' (run_node-Out k handler s a) q

  transitions-limit :
      (n m : ℕ) (s : State W)
      → rank s.run.current_node < n
      → rank s.run.current_node < m
      → transitions engine lease n s ≡ transitions engine lease m s
  unfolding transitions
  transitions-limit zero m s p q = absurd (omega (arith, p))
  transitions-limit (suc n) zero s p q = absurd (omega (arith, q))
  transitions-limit (suc n) (suc m) s p q =
      branch_same (is_running s.run.status) s _ _ _ _
        (branch_same s.run.cancellation_requested s _ _ _ _ refl (
          visit_same (rank s.run.current_node) (handler_of engine lease s.run.current_node) s _ _
            (handler_of-AllAdvance engine lease s.run.current_node)
            (λ t g. elim (Bool-cases (is_running t.run.status)) [
              | inr h ↦ transitions-idle n t h ∙ sym (transitions-idle m t h)
              | inl h ↦ transitions-limit n m t (omega (arith, g h, p)) (omega (arith, g h, q))
            ])))
        refl

  rank-bound : (node : Node) → rank node < 10
  rank-bound Node.intake = omega arith
  rank-bound Node.retrieve = omega arith
  rank-bound Node.investigate = omega arith
  rank-bound Node.observe = omega arith
  rank-bound Node.diagnose = omega arith
  rank-bound Node.policy = omega arith
  rank-bound Node.gate = omega arith
  rank-bound Node.execute = omega arith
  rank-bound Node.verify = omega arith
  rank-bound Node.finalize = omega arith
  rank-bound Node.queued = omega arith
  rank-bound Node.approval = omega arith
  rank-bound Node.completed = omega arith
  rank-bound Node.handed_off = omega arith
  rank-bound Node.cancelled = omega arith
  rank-bound (Node.other x) = omega arith

  resume_then :
      (o : Result (Unit {0}) × State W) (m m' : Action W (Unit {0}))
      → ((t : State W) → m t ≡ m' t)
      → resume (λ d. m) o ≡ resume (λ d. m') o
  resume_then (err e, t) m m' p = refl
  resume_then (ok d, t) m m' p = p t

  work-limit :
      (n : ℕ) (s : State W) → 10 ≤ n → work engine lease n s ≡ work engine lease node_limit s
  unfolding work
  work-limit n s h = resume_then (checkpoint engine lease _) _ _ (λ t.
      ap (resume (λ d. checkpoint engine lease)) (
        transitions-limit n node_limit t (omega (arith, rank-bound t.run.current_node, h))
          (omega (arith, rank-bound t.run.current_node))))

  -- Ten transitions are enough for any run: the limit of 24 is never what ends its processing, since any
  -- limit from ten on gives the same result, the same run, the same tables and the same world.
  pub process_run-limit :
      (n : ℕ) (s : State W)
      → 10 ≤ n
      → process_run engine lease n s ≡ process_run engine lease node_limit s
  unfolding process_run work
  process_run-limit n s h =
      branch_same (is_closed s.run.status) s _ _ _ _ refl
        (branch_same s.run.cancellation_requested s _ _ _ _ refl (work-limit n s h))
