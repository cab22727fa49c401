-- ===== src/Store/LifeCycle.antt =====
-- What the job queue promises, without tables: the life of one job as a state machine, and a call on
-- the queue as at most one move of at most one job.
use shou_ba_shou_jiaoxue_ai.Prelude.{
  ℕ, ◌+◌, ◌≤◌, String, ◌≡◌, ◌∙◌, ◌≢◌, true, false, Option, none, some, arith, ◌==◌, if◌then◌else◌,
}
use shou_ba_shou_jiaoxue_ai.Schemas.{JobStatus, Stage, is_queued, is_claimed, is_final, JobRecord}
use shou_ba_shou_jiaoxue_ai.Store.Db.{Db, find_job}
use shou_ba_shou_jiaoxue_ai.Store.Jobs.{
  claimable, claimed_by, owns, owns_live, extended, finished, requeued, new_job,
}

pub data JobMove (j : JobRecord) : JobRecord → Type 0 where
  claim :
      (worker_id : String) (now deadline : ℕ)
      → claimable now j ≡ true
      → JobMove j (claimed_by worker_id now deadline (j.fencing_token + 1) j)
  beat :
      (worker_id : String) (token now deadline : ℕ)
      → owns_live worker_id token now j ≡ true
      → JobMove j (extended now deadline j)
  finish :
      (worker_id : String) (token : ℕ) (status : JobStatus) (error : Option String) (now : ℕ)
      → owns worker_id token j ≡ true
      → is_final status ≡ true
      → JobMove j (finished status error now j)
  requeue :
      (worker_id : String) (token available : ℕ) (error : String) (now : ℕ)
      → owns worker_id token j ≡ true
      → JobMove j (requeued available error now j)

-- The job table as a map, before and after a call.
pub data Change (db db' : Db) : Type 0 where
  same : ((k : String) → find_job k db' ≡ find_job k db) → Change db db'
  moved :
      (id : String) (j j' : JobRecord)
      → find_job id db ≡ some j
      → JobMove j j'
      → ((k : String) → find_job k db' ≡ (if id == k then some j' else find_job k db))
      → Change db db'
  added :
      (id : String) (now : ℕ) (run_id : String) (stage : Stage)
      → find_job id db ≡ none
      → ((k : String)
          → find_job k db'
            ≡ (if id == k then some (new_job id now run_id stage) else find_job k db))
      → Change db db'

-- What holds of every job in the table.
pub record IsSound (j : JobRecord) : Type 0 where
  pub counted : j.attempts ≡ j.fencing_token
  pub owned : is_claimed j.status ≡ true → j.owner ≢ none
  pub leased : is_claimed j.status ≡ true → j.lease_until ≢ none
  pub released : is_claimed j.status ≡ false → j.lease_until ≡ none
  pub idle : is_queued j.status ≡ true → j.owner ≡ none

pub new_job-IsSound :
    (id : String) (now : ℕ) (run_id : String) (stage : Stage)
    → IsSound (new_job id now run_id stage)
new_job-IsSound id now run_id stage = ground arith

pub JobMove-IsSound : {j j' : JobRecord} → JobMove j j' → IsSound j → IsSound j'
unfolding claimed_by owns_live
JobMove-IsSound (claim worker_id now deadline h) s = ground arith
JobMove-IsSound {j} (beat worker_id token now deadline h) s = ground arith
JobMove-IsSound (finish worker_id token status error now h e) s = ground arith
JobMove-IsSound (requeue worker_id token available error now h) s = ground arith

-- A move keeps the identity of a job, never lowers its token, and starts from no final status.
pub record Later (j j' : JobRecord) : Type 0 where
  pub id : j'.id ≡ j.id
  pub run_id : j'.run_id ≡ j.run_id
  pub created_at : j'.created_at ≡ j.created_at
  pub token : j.fencing_token ≤ j'.fencing_token
  pub final : is_final j.status ≡ true → j' ≡ j

pub Later-refl : (j : JobRecord) → Later j j
Later-refl j = ground arith

pub Later-trans : {i j k : JobRecord} → Later i j → Later j k → Later i k
Later-trans h g = record {
  id = g.id ∙ h.id;
  run_id = g.run_id ∙ h.run_id;
  created_at = g.created_at ∙ h.created_at;
  token = omega (arith, h.token, g.token);
  final = λ f. ground (arith, h.final f, g.final);
}

pub JobMove-Later : {j j' : JobRecord} → JobMove j j' → Later j j'
unfolding claimed_by claimable owns owns_live
JobMove-Later (claim worker_id now deadline h) = ground arith
JobMove-Later (beat worker_id token now deadline h) = ground arith
JobMove-Later (finish worker_id token status error now h e) = ground arith
JobMove-Later (requeue worker_id token available error now h) = ground arith
