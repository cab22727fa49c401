-- ===== src/Worker/Owned.antt =====
-- How `AgentWorker.run_once` of backend/app/worker.py settles a job that it still owns.
use shou_ba_shou_jiaoxue_ai.Prelude.{ℕ, ◌+◌, ◌^◌, min, none, some, ltb, if◌then◌else◌}
use shou_ba_shou_jiaoxue_ai.Schemas.{JobStatus, JobRecord}
use shou_ba_shou_jiaoxue_ai.Result.{Result, ok, err}
use shou_ba_shou_jiaoxue_ai.Store.Db.{Db, seconds}
use shou_ba_shou_jiaoxue_ai.Store.Jobs.{finished, requeued}
use shou_ba_shou_jiaoxue_ai.Worker.Once.{Worker, Engine, is_lease_lost}

module _ (e : Engine) (job : JobRecord) (now : ℕ) where
  -- What a worker that still owns job `j` makes of it.
  abbrev pub settled_job : JobRecord → Result (Unit {0}) → JobRecord
  settled_job j (ok u) = finished JobStatus.succeeded none now j
  settled_job j (err x) =
      if is_lease_lost x
      then j
      else if ltb job.attempts 3
      then requeued (now + seconds (min (2 ^ job.attempts) 8)) (e.report x) now j
      else finished JobStatus.failed (some (e.report x)) now j
