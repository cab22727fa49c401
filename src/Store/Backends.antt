-- ===== src/Store/Backends.antt =====
-- The two backends of backend/app/store.py agree.
use shou_ba_shou_jiaoxue_ai.Prelude.{ℕ, String, ◌≡◌, false, Option}
use shou_ba_shou_jiaoxue_ai.Schemas.{JobStatus, Stage, RunRecord}
use shou_ba_shou_jiaoxue_ai.Store.Db.{Db}
use shou_ba_shou_jiaoxue_ai.Store.Runs
use shou_ba_shou_jiaoxue_ai.Store.Jobs
use shou_ba_shou_jiaoxue_ai.Store.Jobs.{claimed_by}
use shou_ba_shou_jiaoxue_ai.Store.Queue.{Claims}
use shou_ba_shou_jiaoxue_ai.Store.Postgres

-- Equality of the two backends on each operation but a claim, what is returned or raised and the tables
-- after. Of the jobs that ORDER BY puts first, each backend claims one.
pub record Agree (db : Db) : Type 0 where
  pub enqueue :
      (id : String) (now : ℕ) (run_id : String) (stage : Stage)
      → Postgres.enqueue_job id now run_id stage db ≡ Jobs.enqueue_job id now run_id stage db
  pub claim :
      (worker_id : String) (now lease_seconds : ℕ)
      → Claims worker_id now lease_seconds db
          (Postgres.claim_job (λ _. false) worker_id now lease_seconds db)
        × Claims worker_id now lease_seconds db (Jobs.claim_job worker_id now lease_seconds db)
  pub heartbeat :
      (job_id worker_id : String) (token lease_seconds now : ℕ)
      → Postgres.heartbeat_job job_id worker_id token lease_seconds now db
        ≡ Jobs.heartbeat_job job_id worker_id token lease_seconds now db
  pub finish :
      (job_id worker_id : String) (token : ℕ) (status : JobStatus) (e : Option String) (now : ℕ)
      → Postgres.finish_job job_id worker_id token status e now db
        ≡ Jobs.finish_job job_id worker_id token status e now db
  pub requeue :
      (job_id worker_id : String) (token delay_seconds : ℕ) (e : String) (now : ℕ)
      → Postgres.requeue_job job_id worker_id token delay_seconds e now db
        ≡ Jobs.requeue_job job_id worker_id token delay_seconds e now db
  pub save : (now : ℕ) (r : RunRecord) → Postgres.save_run now r db ≡ Runs.save_run now r db
  pub save_leased :
      (now : ℕ) (r : RunRecord) (job_id worker_id : String) (token : ℕ)
      → Postgres.save_run_with_lease now r job_id worker_id token db
        ≡ Runs.save_run_with_lease now r job_id worker_id token db
