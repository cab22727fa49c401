-- ===== src/Store/Settle.antt =====
-- What a worker's calls on the job that it holds do: heartbeat_job, finish_job and requeue_job of
-- backend/app/store.py.
use shou_ba_shou_jiaoxue_ai.Prelude.{
  ℕ, ◌+◌, ◌<◌, String, ◌≡◌, ◌⊎◌, true, false, Option, none, some, ◌==◌, if◌then◌else◌,
}
use shou_ba_shou_jiaoxue_ai.Schemas.{JobStatus, is_final, JobRecord}
use shou_ba_shou_jiaoxue_ai.Result.{Result, ok, err, value_error, lease_lost_error}
use shou_ba_shou_jiaoxue_ai.Store.Db.{Db, find_job, seconds}
use shou_ba_shou_jiaoxue_ai.Store.Jobs.{heartbeat_job, finish_job, requeue_job}

-- The worker holds the job under the token.
pub record IsHeld (worker_id : String) (token : ℕ) (j : JobRecord) : Type 0 where
  pub claimed : j.status ≡ JobStatus.claimed
  pub owner : j.owner ≡ some worker_id
  pub current : j.fencing_token ≡ token

-- And its lease is not over.
abbrev pub IsLive : String → ℕ → ℕ → JobRecord → Type 0
IsLive worker_id token now j =
    IsHeld worker_id token j × (t : ℕ) × (j.lease_until ≡ some t) × (now < t)

-- A call that makes of the job, if it meets the condition, another, and otherwise loses the lease.
pub data Settles (id : String) (P : JobRecord → Type 0) (f : JobRecord → JobRecord) (db : Db)
    : Result (JobRecord × Db) → Type 0 where
  settled :
      (j : JobRecord) (db' : Db)
      → find_job id db ≡ some j
      → P j
      → ((k : String) → find_job k db' ≡ (if id == k then some (f j) else find_job k db))
      → db'.runs ≡ db.runs
      → Settles id P f db (ok (f j, db'))
  refused :
      ((j : JobRecord) → find_job id db ≡ some j → P j → ⊥)
      → Settles id P f db (err lease_lost_error)

-- What is said of the three calls of a worker on a job.
abbrev pub WorkerCalls :
    Db → String → String → ℕ → ℕ → ℕ → ℕ → JobStatus → Option String → String → Type 0
WorkerCalls db id worker_id token now lease_seconds delay_seconds status error reason =
    Settles id (IsLive worker_id token now)
      (λ j. record j { lease_until = some (now + seconds lease_seconds); updated_at = now }) db
      (heartbeat_job id worker_id token lease_seconds now db)
    × (((is_final status ≡ false)
          × (finish_job id worker_id token status error now db
              ≡ err (value_error "finish status must be terminal")))
        ⊎ ((is_final status ≡ true)
            × Settles id (IsHeld worker_id token)
                (λ j. record j {
                  status = status;
                  lease_until = none;
                  updated_at = now;
                  last_error = error;
                })
                db (finish_job id worker_id token status error now db)))
    × Settles id (IsHeld worker_id token)
        (λ j. record j {
          status = JobStatus.queued;
          owner = none;
          lease_until = none;
          available_at = now + seconds delay_seconds;
          updated_at = now;
          last_error = some reason;
        })
        db (requeue_job id worker_id token delay_seconds reason now db)
