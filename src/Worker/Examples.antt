-- ===== src/Worker/Examples.antt =====
-- `AgentWorker.run_once` of backend/app/worker.py on a queue of one job.
use shou_ba_shou_jiaoxue_ai.Prelude.{ℕ, ◌≡◌, refl, none, some, List, [], ◌∷◌, arith, ◌==◌}
use shou_ba_shou_jiaoxue_ai.Schemas.{JobRecord}
use shou_ba_shou_jiaoxue_ai.Schemas.{start}
use shou_ba_shou_jiaoxue_ai.Samples.{new_run}
use shou_ba_shou_jiaoxue_ai.Result.{ok, err, value_error}
use shou_ba_shou_jiaoxue_ai.Store.Table.{find, least_where, insert, update_where}
use shou_ba_shou_jiaoxue_ai.Store.Db.{Db, empty, find_job}
use shou_ba_shou_jiaoxue_ai.Store.Runs.{save_run, row_of, candidate}
use shou_ba_shou_jiaoxue_ai.Store.Jobs.{claim_job, claimed_by, new_job, claimable, enqueue_job}
use shou_ba_shou_jiaoxue_ai.Store.Update.{KeysUnique}
use shou_ba_shou_jiaoxue_ai.Store.Calls.{Call, enqueue, claim_next, save, step, run}
use shou_ba_shou_jiaoxue_ai.Store.Fencing.{run-KeysUnique}
use shou_ba_shou_jiaoxue_ai.Worker.Once.{
  other, Worker, Engine, watched, watch, watch_step, run_once,
}
use shou_ba_shou_jiaoxue_ai.Worker.Settled.{WritesNothing, run_once-stale}

abbrev worker : Worker
worker = record {
  worker_id = "worker-a";
  lease_seconds = 60;
  processed_jobs = 0;
  recovered_jobs = 0;
  failed_jobs = 0;
  lease_losses = 0;
  last_error = none;
}

-- The engine raises; in one history nobody else calls the store, in the other a second worker takes
-- the job when its lease is over.
abbrev raises : Engine
raises = record {
  calls = λ j. [];
  outcome = λ j. err (value_error "no evidence");
  report = λ e. "failed";
}

abbrev overtaken : Engine
overtaken = record raises { calls = λ j. (70000000, other (claim_next "worker-b" 60)) ∷ [] }

abbrev history : List (ℕ × Call)
history = (1, save new_run) ∷ (2, enqueue "job-1" "run-1" start) ∷ []

abbrev queue : Db
queue = run empty history

queue-KeysUnique : KeysUnique queue
queue-KeysUnique = run-KeysUnique empty history (record { runs = tt; jobs = tt })

abbrev taken : JobRecord
taken = claimed_by "worker-a" 3 60000003 1 (new_job "job-1" 2 "run-1" start)

abbrev retaken : JobRecord
retaken = claimed_by "worker-b" 70000000 130000000 2 taken

abbrev claimed_queue : Db
claimed_queue = record queue { jobs = taken ∷ [] }

takes : claim_job "worker-a" 3 60 queue ≡ ok (some taken, claimed_queue)
unfolding run step save_run enqueue_job claim_job least_where find insert update_where row_of
    candidate claimable claimed_by ◌==◌
takes = refl

retakes : find_job "job-1" (watched overtaken worker taken claimed_queue).db ≡ some retaken
unfolding watched watch watch_step run step save_run enqueue_job claim_job least_where find insert
    update_where row_of candidate claimable claimed_by ◌==◌
retakes = refl

run_once-stale_example :
    WritesNothing
      (run_once overtaken 3 80000000 worker queue)
      (watched overtaken worker taken claimed_queue).db
unfolding claimed_by
run_once-stale_example =
    run_once-stale overtaken 3 80000000 worker queue claimed_queue taken retaken queue-KeysUnique
      takes retakes (omega arith)
