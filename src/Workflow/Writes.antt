-- ===== src/Workflow/Writes.antt =====
-- What `process` of backend/app/agent.py writes to the store of backend/app/store.py.
use shou_ba_shou_jiaoxue_ai.Prelude.{
  ℕ, ◌+◌, ◌<◌, String, ◌≡◌, refl, sym, ap, ◌∙◌, subst, inl, inr, Bool, true, false, some, List, [],
  ◌∷◌, arith, if◌then◌else◌, Bool-cases,
}
use shou_ba_shou_jiaoxue_ai.Schemas.{RunRecord, JobRecord}
use shou_ba_shou_jiaoxue_ai.Result.{Result, ok, err, lease_lost_error}
use shou_ba_shou_jiaoxue_ai.Store.Db.{Db, after}
use shou_ba_shou_jiaoxue_ai.Store.Jobs.{claim_job}
use shou_ba_shou_jiaoxue_ai.Store.Runs.{save_run_with_lease}
use shou_ba_shou_jiaoxue_ai.Store.Calls.{Call, save_leased, step, run}
use shou_ba_shou_jiaoxue_ai.Store.Update.{KeysUnique}
use shou_ba_shou_jiaoxue_ai.Store.Fencing.{IsFenced, claim_fences}
use shou_ba_shou_jiaoxue_ai.Approval.Gate.{is_closed}
use shou_ba_shou_jiaoxue_ai.Approval.Vote.{require_run}
use shou_ba_shou_jiaoxue_ai.Workflow.Engine.{
  Lease, Engine, State, Action, resume, checkpoint, saved, use_tool,
}
use shou_ba_shou_jiaoxue_ai.Workflow.Process.{
  process, process_run, work, started, cancelled_run, node_limit, outcome,
}
use shou_ba_shou_jiaoxue_ai.Workflow.Steps.{Steps, done, edited, called}
use shou_ba_shou_jiaoxue_ai.Workflow.Steps.{saved as saved_step}
use shou_ba_shou_jiaoxue_ai.Workflow.Free.{any}
use shou_ba_shou_jiaoxue_ai.Workflow.Reach.{process_run-Steps}

-- The call saves some run under the lease.
abbrev IsOwn : Lease → Call → Type 0
IsOwn lease c =
    (r : RunRecord) × (c ≡ save_leased r lease.job_id lease.worker_id lease.fencing_token)

abbrev pub AllOwn : Lease → List (ℕ × Call) → Type 0
AllOwn lease [] = Unit
AllOwn lease ((now, c) ∷ cs) = IsOwn lease c × AllOwn lease cs

module _ {W : Type 0} (engine : Engine W) (lease : Lease) where
  saved-after : (s : State W) (r : Result (RunRecord × Db)) → (saved s r).1.db ≡ after s.db r
  saved-after s (err e) = refl
  saved-after s (ok (r, db)) = refl

  checkpoint-db :
      (s : State W)
      → (checkpoint engine lease s).1.db
        ≡ step s.db (
          engine.clock s.ticks,
          save_leased s.run lease.job_id lease.worker_id lease.fencing_token,
        )
  unfolding checkpoint step
  checkpoint-db s =
      saved-after (record s { ticks = s.ticks + 1 })
        (save_run_with_lease (engine.clock s.ticks) s.run lease.job_id lease.worker_id
          lease.fencing_token s.db)

  pub Steps-run :
      {s t : State W}
      → Steps engine lease (any engine lease) s t
      → (cs : List (ℕ × Call)) × AllOwn lease cs × (t.db ≡ run s.db cs)
  unfolding run use_tool
  Steps-run done = ([], tt, refl)
  Steps-run (edited d w k p) = let (cs, a, e) = Steps-run p in (cs, a, e ∙ ap (λ x. run x cs) d)
  Steps-run {s = s} (saved_step p) =
      let (cs, a, e) = Steps-run p in
      (
        (engine.clock s.ticks, save_leased s.run lease.job_id lease.worker_id lease.fencing_token)
            ∷ cs,
        ((s.run, refl), a),
        e ∙ ap (λ x. run x cs) (checkpoint-db s),
      )
  Steps-run (called x plan_hash actor m p) = Steps-run p

  outcome-db : (o : Result (Unit {0}) × State W) → (outcome engine lease o).1.0 ≡ o.1.db
  outcome-db (err e, s) = refl
  outcome-db (ok d, s) = refl

  -- Whatever the run, the tools and the outcome, processing writes to the store only by saving a run
  -- under the worker's own lease: the tables after it are those after a list of such calls.
  pub process-run :
      (run_id : String) (db : Db) (w : W)
      → (cs : List (ℕ × Call)) × AllOwn lease cs
        × ((process engine lease run_id db w).1.0 ≡ run db cs)
  unfolding process run
  process-run run_id db w = go (require_run run_id db) refl
    where
      go :
          (r : Result RunRecord)
          → require_run run_id db ≡ r
          → (cs : List (ℕ × Call)) × AllOwn lease cs
            × ((process engine lease run_id db w).1.0 ≡ run db cs)
      go (err e) h = ([], tt, rw (h, process) refl)
      go (ok r) h =
          let s : State W = record { run = r; db = db; world = w; ticks = 0 } in
          let (cs, a, e) = Steps-run (process_run-Steps engine lease node_limit s) in
          (cs, a, rw (h, process) (outcome-db (process_run engine lease node_limit s) ∙ e))

  -- The lease is lost, and the run alone has changed.
  abbrev Raised : State W → Result (Unit {0}) × State W → Type 0
  Raised s out = (out.0 ≡ err lease_lost_error) × (out.1.db ≡ s.db) × (out.1.world ≡ s.world)

  resume-Raised :
      (s : State W) (out : Result (Unit {0}) × State W) (next : Action W (Unit {0}))
      → Raised s out
      → Raised s (resume (λ d. next) out)
  resume-Raised s (err e, t) next p = p
  resume-Raised s (ok d, t) next p = absurd (ground (arith, p.0))

  branch-Raised :
      (b : Bool) (s : State W) (m n : Action W (Unit {0}))
      → Raised s (m s)
      → Raised s (n s)
      → Raised s ((if b then m else n) s)
  branch-Raised true s m n p q = p
  branch-Raised false s m n p q = q

  checkpoint-Raised :
      (s : State W)
      → IsFenced lease.job_id lease.fencing_token s.db
      → Raised s (checkpoint engine lease s)
  unfolding checkpoint
  checkpoint-Raised s f =
      rw (f.save lease.worker_id (engine.clock s.ticks) s.run, checkpoint) (refl, refl, refl)

  process_run-Raised :
      (s : State W)
      → IsFenced lease.job_id lease.fencing_token s.db
      → is_closed s.run.status ≡ false
      → Raised s (process_run engine lease node_limit s)
  unfolding process_run work
  process_run-Raised s f o =
      rw (o, process_run)
        (branch-Raised s.run.cancellation_requested s _ (work engine lease node_limit)
          (checkpoint-Raised (record s { run = cancelled_run engine lease s.run }) f)
          (resume-Raised s (checkpoint engine lease (record s { run = started engine lease s.run }))
            _ (checkpoint-Raised (record s { run = started engine lease s.run }) f)))

  -- Nothing is left behind, and only a run that is closed is returned.
  abbrev pub IsIdle : Db → W → Result RunRecord × (Db × W) → Type 0
  IsIdle db w out = (out.1 ≡ (db, w)) × ((r : RunRecord) → out.0 ≡ ok r → is_closed r.status ≡ true)

  outcome-IsIdle :
      (s : State W) (o : Result (Unit {0}) × State W)
      → Raised s o
      → IsIdle s.db s.world (outcome engine lease o)
  outcome-IsIdle s (err e, t) (h, d, w) = (cc (d, w), λ r c. ground (arith, c))
  outcome-IsIdle s (ok x, t) (h, d, w) = absurd (ground (arith, h))

  process-IsIdle :
      (run_id : String) (db : Db) (w : W)
      → IsFenced lease.job_id lease.fencing_token db
      → IsIdle db w (process engine lease run_id db w)
  unfolding process process_run
  process-IsIdle run_id db w f = go (require_run run_id db) refl
    where
      go :
          (r : Result RunRecord)
          → require_run run_id db ≡ r
          → IsIdle db w (process engine lease run_id db w)
      go (err e) h = rw (h, process) (refl, λ r c. ground (arith, c))
      go (ok r) h = elim (Bool-cases (is_closed r.status)) [
        | inl c ↦ rw (h, c, process) (refl, λ r' e. ground (arith, e, c))
        | inr c ↦
            rw (h, process)
              (outcome-IsIdle (record { run = r; db = db; world = w; ticks = 0 }) _
                (process_run-Raised (record { run = r; db = db; world = w; ticks = 0 }) f c))
      ]

-- Once another worker has claimed the job, processing it under the earlier token does nothing: after
-- any further history of calls it calls no tool and writes nothing, and unless the run was closed already
-- it raises an error.
pub stale_process-IsIdle :
    {W : Type 0} (engine : Engine W) (lease : Lease) (worker_id : String) (now lease_seconds : ℕ)
    (db db' : Db) (j : JobRecord) (cs : List (ℕ × Call)) (run_id : String) (w : W)
    → KeysUnique db
    → claim_job worker_id now lease_seconds db ≡ ok (some j, db')
    → lease.job_id ≡ j.id
    → lease.fencing_token < j.fencing_token
    → IsIdle engine lease (run db' cs) w (process engine lease run_id (run db' cs) w)
stale_process-IsIdle engine lease worker_id now lease_seconds db db' j cs run_id w u c same old =
    process-IsIdle engine lease run_id (run db' cs) w (
      subst (λ id. IsFenced id lease.fencing_token (run db' cs)) (sym same)
        (claim_fences worker_id now lease_seconds db j db' lease.fencing_token cs u c old))
