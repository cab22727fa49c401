-- ===== src/Store/Calls.antt =====
-- The calls on the store of backend/app/store.py as one step function, and its runs.
use shou_ba_shou_jiaoxue_ai.Prelude.{
  ℕ, ◌+◌, String, ◌≡◌, refl, ap, inl, inr, Option, none, some, List, [], ◌∷◌, arith, ◌==◌,
  if◌then◌else◌, ==_iff, Bool-cases, Option-cases,
}
use shou_ba_shou_jiaoxue_ai.Schemas.{JobStatus, Stage, is_final, RunRecord}
use shou_ba_shou_jiaoxue_ai.Store.Table.{find, insert}
use shou_ba_shou_jiaoxue_ai.Store.Table.Laws.{find-insert}
use shou_ba_shou_jiaoxue_ai.Store.Db.{Db, job_key, find_job, find_run, after, seconds}
use shou_ba_shou_jiaoxue_ai.Store.Runs.{save_run, save_run_with_lease, write_version}
use shou_ba_shou_jiaoxue_ai.Store.Jobs.{
  enqueue_job, claim_job, heartbeat_job, finish_job, requeue_job, owns, owns_live, new_job, is_none,
  finished, requeued, extended,
}
use shou_ba_shou_jiaoxue_ai.Store.LifeCycle.{Change, same, added, beat, finish, requeue}
use shou_ba_shou_jiaoxue_ai.Store.Update.{KeysUnique, after-update_job-Change}
use shou_ba_shou_jiaoxue_ai.Store.Claim.{claim_job-Change}

pub data Call : Type 0 where
  enqueue : String → String → Stage → Call
  claim_next : String → ℕ → Call
  heartbeat : String → String → ℕ → ℕ → Call
  finish_as : String → String → ℕ → JobStatus → Option String → Call
  requeue_after : String → String → ℕ → ℕ → String → Call
  save : RunRecord → Call
  save_leased : RunRecord → String → String → ℕ → Call

-- The tables after a call at a time, whether it returns or raises.
unfoldable pub step : Db → ℕ × Call → Db
step db (now, enqueue id run_id stage) = after db (enqueue_job id now run_id stage db)
step db (now, claim_next worker_id lease) = after db (claim_job worker_id now lease db)
step db (now, heartbeat id worker_id token lease) =
    after db (heartbeat_job id worker_id token lease now db)
step db (now, finish_as id worker_id token status e) =
    after db (finish_job id worker_id token status e now db)
step db (now, requeue_after id worker_id token delay e) =
    after db (requeue_job id worker_id token delay e now db)
step db (now, save r) = after db (save_run now r db)
step db (now, save_leased r id worker_id token) =
    after db (save_run_with_lease now r id worker_id token db)

-- Any number of API processes and workers, interleaved call by call.
unfoldable pub run : Db → List (ℕ × Call) → Db
run db [] = db
run db (c ∷ cs) = run (step db c) cs

enqueue_job-Change :
    (id : String) (now : ℕ) (run_id : String) (stage : Stage) (db : Db)
    → Change db (after db (enqueue_job id now run_id stage db))
unfolding enqueue_job
enqueue_job-Change id now run_id stage db = elim (Option-cases (find_job id db)) [
  | inr (j, h) ↦ rw (h, enqueue_job, is_none) (same (λ k. refl))
  | inl h ↦ elim (Option-cases (find_run run_id db)) [
    | inl g ↦ rw (h, g, enqueue_job, is_none) (same (λ k. refl))
    | inr (r, g) ↦ rw (h, g, enqueue_job, is_none) (added id now run_id stage h (inserted h))
  ]
]
  where
    inserted :
        find_job id db ≡ none
        → (k : String)
        → find_job k (record db { jobs = insert (new_job id now run_id stage) db.jobs })
          ≡ (if id == k then some (new_job id now run_id stage) else find_job k db)
    inserted h k =
        ground (arith, find-insert job_key k (new_job id now run_id stage) db.jobs, h, ==_iff id k)

pub save_run-jobs :
    (now : ℕ) (r : RunRecord) (db : Db) → (after db (save_run now r db)).jobs ≡ db.jobs
unfolding save_run write_version
save_run-jobs now r db = ground arith

pub save_run_with_lease-jobs :
    (now : ℕ) (r : RunRecord) (id worker_id : String) (token : ℕ) (db : Db)
    → (after db (save_run_with_lease now r id worker_id token db)).jobs ≡ db.jobs
unfolding save_run_with_lease write_version
save_run_with_lease-jobs now r id worker_id token db = ground arith

finish_job-Change :
    (id worker_id : String) (token : ℕ) (status : JobStatus) (e : Option String) (now : ℕ) (db : Db)
    → KeysUnique db
    → Change db (after db (finish_job id worker_id token status e now db))
unfolding finish_job
finish_job-Change id worker_id token status e now db u = elim (Bool-cases (is_final status)) [
  | inl f ↦
      rw (f, finish_job)
        (after-update_job-Change id (owns worker_id token) (finished status e now) _ db u
          (λ x. refl) (λ j h. finish worker_id token status e now h f))
  | inr f ↦ rw (f, finish_job) (same (λ k. refl))
]

-- Each call is one change of the job table, seen as a map.
pub step-Change : (db : Db) (c : ℕ × Call) → KeysUnique db → Change db (step db c)
unfolding step heartbeat_job requeue_job
step-Change db (now, enqueue id run_id stage) u = enqueue_job-Change id now run_id stage db
step-Change db (now, claim_next worker_id lease) u = claim_job-Change worker_id now lease db u
step-Change db (now, heartbeat id worker_id token lease) u =
    after-update_job-Change id (owns_live worker_id token now) (extended now (now + seconds lease))
      _ db u (λ x. refl) (λ j. beat worker_id token now (now + seconds lease))
step-Change db (now, finish_as id worker_id token status e) u =
    finish_job-Change id worker_id token status e now db u
step-Change db (now, requeue_after id worker_id token delay e) u =
    after-update_job-Change id (owns worker_id token) (requeued (now + seconds delay) e now) _ db u
      (λ x. refl) (λ j. requeue worker_id token (now + seconds delay) e now)
step-Change db (now, save r) u = same (λ k. ap (find job_key k) (save_run-jobs now r db))
step-Change db (now, save_leased r id worker_id token) u =
    same (λ k. ap (find job_key k) (save_run_with_lease-jobs now r id worker_id token db))
