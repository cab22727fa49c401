-- ===== src/Workflow/Ended.antt =====
-- How the transitions of backend/app/agent.py end, and what a save that fails raises.
use shou_ba_shou_jiaoxue_ai.Prelude.{
  ℕ, zero, suc, ◌+◌, String, ◌≡◌, refl, Bool, true, false, Option, none, some, arith, if◌then◌else◌,
}
use shou_ba_shou_jiaoxue_ai.Schemas.{RunRecord}
use shou_ba_shou_jiaoxue_ai.Result.{Error, Result, ok, err, is_concurrency}
use shou_ba_shou_jiaoxue_ai.Store.Db.{Db}
use shou_ba_shou_jiaoxue_ai.Store.Runs.{write_version, save_run_with_lease}
use shou_ba_shou_jiaoxue_ai.Workflow.Engine.{
  Lease, Engine, State, Action, resume, checkpoint, saved,
}
use shou_ba_shou_jiaoxue_ai.Workflow.Process.{
  transitions, visit, is_running, handler_of, run_node, noted,
}

-- An action that returns leaves a run that does not go; one that raises was refused by the store.
abbrev pub Ended : {W : Type 0} → Result (Unit {0}) × State W → Type 0
Ended (err e, t) = is_concurrency e ≡ true
Ended (ok d, t) = is_running t.run.status ≡ false

pub branch_if :
    {W : Type 0} (P : Result (Unit {0}) × State W → Type 0) (b : Bool) (s : State W)
    (m n : Action W (Unit {0}))
    → (b ≡ true → P (m s))
    → (b ≡ false → P (n s))
    → P ((if b then m else n) s)
branch_if P true s m n p q = p refl
branch_if P false s m n p q = q refl

pub save_leased-err :
    (now : ℕ) (r : RunRecord) (id worker_id : String) (token : ℕ) (db : Db) (e : Error)
    → save_run_with_lease now r id worker_id token db ≡ err e
    → is_concurrency e ≡ true
unfolding save_run_with_lease write_version
save_leased-err now r id worker_id token db e h = ground (arith, h)

module _ {W : Type 0} (engine : Engine W) (lease : Lease) where
  pub checkpoint-raises :
      (s t : State W) (e : Error) → checkpoint engine lease s ≡ (err e, t) → is_concurrency e ≡ true
  unfolding checkpoint
  checkpoint-raises s t e h =
      go
        (save_run_with_lease (engine.clock s.ticks) s.run lease.job_id lease.worker_id
          lease.fencing_token s.db)
        refl h
    where
      go :
          (r : Result (RunRecord × Db))
          → save_run_with_lease
              (engine.clock s.ticks)
              s.run
              lease.job_id
              lease.worker_id
              lease.fencing_token
              s.db
            ≡ r
          → saved (record s { ticks = s.ticks + 1 }) r ≡ (err e, t)
          → is_concurrency e ≡ true
      go (ok x) r g = ground (arith, g)
      go (err x) r g =
          save_leased-err (engine.clock s.ticks) s.run lease.job_id lease.worker_id
            lease.fencing_token s.db e (ground (arith, r, g))

  visit-Ended :
      (o : Option (Action W (Unit {0}))) (rest : Action W (Unit {0})) (s : State W)
      → ((t : State W) → Ended (rest t))
      → Ended (visit engine lease o rest s)
  unfolding visit run_node
  visit-Ended none rest s p = refl
  visit-Ended (some handler) rest s p =
      go (checkpoint engine lease (noted engine lease (handler s)))
        (λ e t. checkpoint-raises (noted engine lease (handler s)) t e)
    where
      go :
          (o : Result (Unit {0}) × State W)
          → ((e : Error) (t : State W) → o ≡ (err e, t) → is_concurrency e ≡ true)
          → Ended (resume (λ d. rest) o)
      go (err e, t) r = r e t refl
      go (ok d, t) r = p t

  pub transitions-Ended : (n : ℕ) (s : State W) → Ended (transitions engine lease n s)
  unfolding transitions
  transitions-Ended zero s = branch_if Ended (is_running s.run.status) s _ _ (λ y. refl) (λ n. n)
  transitions-Ended (suc n) s =
      branch_if Ended (is_running s.run.status) s _ _
        (λ y.
          branch_if Ended s.run.cancellation_requested s _ _ (λ c. refl)
            (λ c.
              visit-Ended (handler_of engine lease s.run.current_node) _ s (transitions-Ended n)))
        (λ no. no)
