-- ===== src/Worker/Once.antt =====
-- `AgentWorker.run_once` of backend/app/worker.py. While the engine processes a job, the worker's
-- heartbeat thread and any other process call the store: an engine is the sequence of those calls,
-- which it may choose by the job, and what it returns or raises at the end.
use shou_ba_shou_jiaoxue_ai.Prelude.{
  ℕ, ◌+◌, ◌^◌, min, String, Bool, true, false, not, Option, none, some, List, [], ◌∷◌, ltb,
  if◌then◌else◌,
}
use shou_ba_shou_jiaoxue_ai.Schemas.{JobStatus, JobRecord}
use shou_ba_shou_jiaoxue_ai.Result.{Error, Result, ok, err, guard, ◌>>◌, lease_lost_error}
use shou_ba_shou_jiaoxue_ai.Store.Db.{Db}
use shou_ba_shou_jiaoxue_ai.Store.Jobs.{claim_job, heartbeat_job, finish_job, requeue_job}
use shou_ba_shou_jiaoxue_ai.Store.Calls.{Call, step}

pub record Worker : Type 0 where
  pub worker_id : String
  pub lease_seconds : ℕ
  pub processed_jobs : ℕ
  pub recovered_jobs : ℕ
  pub failed_jobs : ℕ
  pub lease_losses : ℕ
  pub last_error : Option String

-- A heartbeat of the worker's own thread, or a call that the engine or another process makes.
pub data Event : Type 0 where
  beat : Event
  other : Call → Event

pub record Engine : Type 0 where
  pub calls : JobRecord → List (ℕ × Event)
  pub outcome : JobRecord → Result (Unit {0})
  pub report : Error → String

-- The worker, `lease_lost.is_set()`, and the tables.
pub record Watch : Type 0 where
  pub worker : Worker
  pub lost : Bool
  pub db : Db

abbrev pub lost_lease : Worker → Worker
lost_lease w = record w { lease_losses = w.lease_losses + 1 }

unfoldable pub heard : Engine → Watch → Result (JobRecord × Db) → Watch
heard e s (ok (j, db)) = record s { db = db }
heard e s (err lease_lost_error) = record s { worker = lost_lease s.worker; lost = true }
heard e s (err x) = record s { worker = record s.worker { last_error = some (e.report x) } }

-- The thread returns once its lease is lost.
unfoldable pub watch_step : Engine → JobRecord → Watch → ℕ × Event → Watch
unfolding heard
watch_step e job s (now, other c) = record s { db = step s.db (now, c) }
watch_step e job s (now, beat) =
    if s.lost
    then s
    else heard e s
        (heartbeat_job job.id s.worker.worker_id job.fencing_token s.worker.lease_seconds now s.db)

unfoldable pub watch : Engine → JobRecord → Watch → List (ℕ × Event) → Watch
unfolding watch_step
watch e job s [] = s
watch e job s (x ∷ xs) = watch e job (watch_step e job s x) xs

-- The job that a worker took is settled by at most one transaction: what it returns or raises.
abbrev pub Settled : Type 0
Settled = Result Bool × Worker × Db

-- `except LeaseLostError` round the requeue or the last finish; any other exception goes on.
unfoldable pub gave_back : Worker → Db → Result (JobRecord × Db) → Settled
gave_back w db (ok (j, db')) = (ok true, w, db')
gave_back w db (err lease_lost_error) = (ok true, lost_lease w, db)
gave_back w db (err x) = (err x, w, db)

-- `except Exception`: back to the queue for the first two attempts, then failed for good.
unfoldable pub retry_or_fail : Engine → JobRecord → Worker → ℕ → Db → Error → Settled
unfolding gave_back
retry_or_fail e job w now db x =
    gave_back (record w { failed_jobs = w.failed_jobs + 1; last_error = some (e.report x) }) db
      (if ltb job.attempts 3
        then requeue_job job.id w.worker_id job.fencing_token (min (2 ^ job.attempts) 8)
            (e.report x) now db
        else finish_job job.id w.worker_id job.fencing_token JobStatus.failed (some (e.report x))
            now db)

abbrev pub is_lease_lost : Error → Bool
is_lease_lost lease_lost_error = true
is_lease_lost _ = false

-- The two `except` clauses.
unfoldable pub failed_with : Engine → JobRecord → Worker → ℕ → Db → Error → Settled
failed_with e job w now db x =
    if is_lease_lost x then (ok true, lost_lease w, db) else retry_or_fail e job w now db x

-- The `try` block: the engine's outcome, the lost lease, the finish.
unfoldable pub conclude : Engine → JobRecord → Watch → ℕ → Settled
unfolding failed_with
conclude e job s now =
    elim (e.outcome job
      >> (guard (not s.lost) lease_lost_error
          >> finish_job job.id s.worker.worker_id job.fencing_token JobStatus.succeeded none now
              s.db)) [
                | ok (j, db') ↦
                    (ok true, record s.worker { processed_jobs = s.worker.processed_jobs + 1 }, db')
                | err x ↦ failed_with e job s.worker now s.db x
              ]

abbrev pub took : Worker → JobRecord → Worker
took w job = if ltb 1 job.attempts then record w { recovered_jobs = w.recovered_jobs + 1 } else w

-- What the worker has seen when the engine is done with a job.
unfoldable pub watched : Engine → Worker → JobRecord → Db → Watch
watched e w job db =
    watch e job (record { worker = took w job; lost = false; db = db }) (e.calls job)

-- `now` is the time of the claim, `later` that of the last write.
unfoldable pub run_once : Engine → ℕ → ℕ → Worker → Db → Settled
unfolding conclude watched
run_once e now later w db = elim (claim_job w.worker_id now w.lease_seconds db) [
  | err x ↦ (err x, w, db)
  | ok (none, db') ↦ (ok false, w, db')
  | ok (some job, db') ↦ conclude e job (watched e w job db') later
]
