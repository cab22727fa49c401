-- ===== src/Store/Examples.antt =====
-- The store of backend/app/store.py on a small history: the theorems about it at concrete tables.
use shou_ba_shou_jiaoxue_ai.Prelude.{
  ℕ, String, ◌≡◌, refl, ◌≢◌, ◌⊎◌, some, List, [], ◌∷◌, arith, ◌==◌, ==_iff,
}
use shou_ba_shou_jiaoxue_ai.Schemas.{RunRecord, JobRecord}
use shou_ba_shou_jiaoxue_ai.Schemas.{start}
use shou_ba_shou_jiaoxue_ai.Result.{ok, err, concurrency_error, lease_lost_error}
use shou_ba_shou_jiaoxue_ai.Samples.{new_run}
use shou_ba_shou_jiaoxue_ai.Store.Table.{find, least_where, insert, update_where, row_count}
use shou_ba_shou_jiaoxue_ai.Store.Db.{Db, empty, find_job, after}
use shou_ba_shou_jiaoxue_ai.Store.Runs.{
  save_run, save_run_with_lease, candidate, row_of, write_version,
}
use shou_ba_shou_jiaoxue_ai.Store.Jobs.{claim_job, claimed_by, new_job, claimable, enqueue_job}
use shou_ba_shou_jiaoxue_ai.Store.LifeCycle.{Later}
use shou_ba_shou_jiaoxue_ai.Store.Update.{KeysUnique}
use shou_ba_shou_jiaoxue_ai.Store.Calls.{Call, claim_next, enqueue, save, heartbeat, step, run}
use shou_ba_shou_jiaoxue_ai.Store.History.{IsConsistent, run-IsConsistent}
use shou_ba_shou_jiaoxue_ai.Store.Fencing.{IsFenced, claim_fences, run-Later, run-KeysUnique}
use shou_ba_shou_jiaoxue_ai.Store.Queue.{Claims, claim_job-Claims, claim_exclusive}
use shou_ba_shou_jiaoxue_ai.Store.LostUpdate.{plainly, save_conflict}

empty-KeysUnique : KeysUnique empty
empty-KeysUnique = record { runs = tt; jobs = tt }

empty-IsConsistent : IsConsistent empty
unfolding find
empty-IsConsistent = record { keys = empty-KeysUnique; sound = λ k j h. ground arith }

-- A run is saved, its job is enqueued, and the first worker takes the job and loses its lease.
abbrev history : List (ℕ × Call)
history =
    (1, save new_run) ∷ (2, enqueue "job-1" "run-1" start) ∷ (3, claim_next "worker-a" 60) ∷ []

abbrev before : Db
before = run empty history

before-KeysUnique : KeysUnique before
before-KeysUnique = run-KeysUnique empty history empty-KeysUnique

abbrev first_claim : JobRecord
first_claim = claimed_by "worker-a" 3 60000003 1 (new_job "job-1" 2 "run-1" start)

abbrev second_claim : JobRecord
second_claim = claimed_by "worker-b" 70000000 130000000 2 first_claim

abbrev reclaimed : Db
reclaimed = record before { jobs = second_claim ∷ [] }

before-job : find_job "job-1" before ≡ some first_claim
unfolding run step save_run enqueue_job claim_job least_where find insert update_where row_of
    candidate claimable claimed_by ◌==◌
before-job = refl

claim_again : claim_job "worker-b" 70000000 60 before ≡ ok (some second_claim, reclaimed)
unfolding run step save_run enqueue_job claim_job least_where find insert update_where row_of
    candidate claimable claimed_by ◌==◌
claim_again = refl

abbrev later_calls : List (ℕ × Call)
later_calls =
    (70000001, heartbeat "job-2" "worker-b" 1 60) ∷ (70000002, claim_next "worker-c" 60) ∷ []

claim_fences_example : IsFenced "job-1" 1 (run reclaimed later_calls)
unfolding claimed_by
claim_fences_example =
    claim_fences "worker-b" 70000000 60 before second_claim reclaimed 1 later_calls
      before-KeysUnique claim_again (omega arith)

claim_job-Claims_example : Claims "worker-b" 70000000 60 before (ok (some second_claim, reclaimed))
unfolding run step save_run enqueue_job claim_job least_where find insert update_where row_of
    candidate claimable claimed_by ◌==◌
claim_job-Claims_example = claim_job-Claims "worker-b" 70000000 60 before before-KeysUnique

job-2_ne : ◌≢◌ {A = String} "job-2" "job-1"
unfolding ◌==◌
job-2_ne h = ground (arith, (==_iff "job-2" "job-1").1 h)

claim_exclusive_example : find_job "job-1" (run reclaimed later_calls) ≡ some second_claim
unfolding claimed_by
claim_exclusive_example =
    claim_exclusive "worker-b" 70000000 60 before second_claim reclaimed later_calls
      before-KeysUnique claim_again (job-2_ne, (omega arith, tt))

run-Later_example :
    (j : JobRecord) × (find_job "job-1" (run before later_calls) ≡ some j) × Later first_claim j
run-Later_example = run-Later before later_calls "job-1" first_claim before-KeysUnique before-job

run-IsConsistent_example : IsConsistent (run empty history)
run-IsConsistent_example = run-IsConsistent empty history empty-IsConsistent

abbrev read_run : RunRecord
read_run = record new_run { version = 1; updated_at = 1 }

abbrev saved_run : RunRecord
saved_run = record new_run { version = 2; updated_at = 5 }

abbrev saved_db : Db
saved_db = after before (save_run 5 read_run before)

save_again : save_run 5 read_run before ≡ ok (saved_run, saved_db)
unfolding run step save_run enqueue_job claim_job least_where find insert update_where row_of
    candidate claimable claimed_by write_version row_count ◌==◌
save_again = refl

save_conflict_example :
    (save_run 9 read_run (run saved_db later_calls) ≡ err concurrency_error)
    × ((job_id worker_id : String) (token : ℕ)
        → (save_run_with_lease 9 read_run job_id worker_id token (run saved_db later_calls)
            ≡ err concurrency_error)
          ⊎ (save_run_with_lease 9 read_run job_id worker_id token (run saved_db later_calls)
              ≡ err lease_lost_error))
save_conflict_example =
    save_conflict 5 read_run saved_run before saved_db later_calls 9 read_run before-KeysUnique
      (plainly save_again) refl refl
