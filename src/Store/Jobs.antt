-- ===== src/Store/Jobs.antt =====
-- The job queue of `SQLiteStore` of backend/app/store.py: leases with fencing tokens.
use shou_ba_shou_jiaoxue_ai.Prelude.{
  ℕ, ◌+◌, String, Bool, true, false, not, ◌&&◌, ◌||◌, Option, none, some, ltb, leb, ◌=ℕ◌, ◌==◌,
  if◌then◌else◌, is_text,
}
use shou_ba_shou_jiaoxue_ai.Schemas.{JobStatus, Stage, is_queued, is_claimed, is_final, JobRecord}
use shou_ba_shou_jiaoxue_ai.Result.{
  Error, Result, ok, err, guard, ◌>>◌, value_error, lease_lost_error, integrity_error, type_error,
}
use shou_ba_shou_jiaoxue_ai.Store.Table.{update_where, row_count, insert, least_where}
use shou_ba_shou_jiaoxue_ai.Store.Db.{Db, Tx, find_job, find_run, seconds}
use shou_ba_shou_jiaoxue_ai.Store.Runs.{is_live}

unfoldable pub is_none {ℓ} : {A : Type ℓ} → Option A → Bool
is_none none = true
is_none (some a) = false

abbrev pub new_job : String → ℕ → String → Stage → JobRecord
new_job id now run_id stage = record {
  id = id;
  run_id = run_id;
  stage = stage;
  status = JobStatus.queued;
  owner = none;
  lease_until = none;
  fencing_token = 0;
  attempts = 0;
  available_at = now;
  created_at = now;
  updated_at = now;
  last_error = none;
}

-- The primary key and the foreign key on `agent_runs` are the database's own checks. The id comes
-- from `uuid4`.
unfoldable pub enqueue_job : String → ℕ → String → Stage → Tx JobRecord
unfolding is_none
enqueue_job id now run_id stage db = do
  guard (is_none (find_job id db)) integrity_error
  guard (not (is_none (find_run run_id db))) integrity_error
  let job = new_job id now run_id stage
  ok (job, record db { jobs = insert job db.jobs })

-- `lease_until IS NOT NULL AND lease_until <= ?`
abbrev pub is_over : Option ℕ → ℕ → Bool
is_over none now = false
is_over (some t) now = leb t now

unfoldable pub claimable : ℕ → JobRecord → Bool
claimable now j =
    is_queued j.status && leb j.available_at now || is_claimed j.status && is_over j.lease_until now

-- CASE WHEN status='claimed' THEN 0 ELSE 1 END
abbrev pub claim_rank : JobStatus → ℕ
claim_rank JobStatus.claimed = 0
claim_rank _ = 1

-- ORDER BY rank, available_at, created_at
unfoldable pub claims_before : JobRecord → JobRecord → Bool
claims_before a b =
    if claim_rank a.status =ℕ claim_rank b.status
    then (if a.available_at =ℕ b.available_at
        then ltb a.created_at b.created_at
        else ltb a.available_at b.available_at)
    else ltb (claim_rank a.status) (claim_rank b.status)

-- CASE WHEN status='claimed' THEN 'lease expired; recovered' ELSE last_error END
abbrev pub recovery_note : JobStatus → Option String → Option String
recovery_note JobStatus.claimed e = some "lease expired; recovered"
recovery_note _ e = e

-- The SET list of the claim; `token` is `int(row["fencing_token"]) + 1`.
unfoldable pub claimed_by : String → ℕ → ℕ → ℕ → JobRecord → JobRecord
claimed_by worker_id now deadline token j = record j {
  status = JobStatus.claimed;
  owner = some worker_id;
  lease_until = some deadline;
  fencing_token = token;
  attempts = j.attempts + 1;
  updated_at = now;
  last_error = recovery_note j.status j.last_error;
}

-- `_job_from_row(None)` would raise a TypeError.
job_from_row : Option JobRecord → Db → Result (Option JobRecord × Db)
job_from_row none db = err type_error
job_from_row (some j) db = ok (some j, db)

claim_row : String → ℕ → ℕ → JobRecord → Tx (Option JobRecord)
unfolding job_from_row
claim_row worker_id now lease_seconds row db =
    let db' : Db = record db {
      jobs =
          update_where (λ j. j.id == row.id)
            (claimed_by worker_id now (now + seconds lease_seconds) (row.fencing_token + 1))
            db.jobs;
    } in
    job_from_row (find_job row.id db') db'

unfoldable pub claim_job : String → ℕ → ℕ → Tx (Option JobRecord)
unfolding claim_row
claim_job worker_id now lease_seconds db =
    elim (least_where (claimable now) claims_before db.jobs) [
      | none ↦ ok (none, db)
      | some row ↦ claim_row worker_id now lease_seconds row db
    ]

-- WHERE id=? AND status='claimed' AND owner=? AND fencing_token=?
unfoldable pub owns : String → ℕ → JobRecord → Bool
owns worker_id token j =
    is_claimed j.status && (is_text j.owner worker_id && j.fencing_token =ℕ token)

-- … AND lease_until>?
unfoldable pub owns_live : String → ℕ → ℕ → JobRecord → Bool
unfolding owns
owns_live worker_id token now j = owns worker_id token j && is_live j.lease_until now

reread : String → Error → Db → Result (JobRecord × Db)
reread job_id e db = elim (find_job job_id db) [ none ↦ err e | some j ↦ ok (j, db) ]

-- An UPDATE of one job that must hit exactly one row; then `get_job`.
unfoldable pub update_job :
    String → (JobRecord → Bool) → (JobRecord → JobRecord) → Error → Tx JobRecord
unfolding reread
update_job job_id q f missing db = do
  guard (row_count (λ j. j.id == job_id && q j) db.jobs =ℕ 1) lease_lost_error
  reread job_id missing (record db { jobs = update_where (λ j. j.id == job_id && q j) f db.jobs })

abbrev pub extended : ℕ → ℕ → JobRecord → JobRecord
extended now deadline j = record j { lease_until = some deadline; updated_at = now }

unfoldable pub heartbeat_job : String → String → ℕ → ℕ → ℕ → Tx JobRecord
heartbeat_job job_id worker_id token lease_seconds now =
    update_job job_id (owns_live worker_id token now) (extended now (now + seconds lease_seconds))
      lease_lost_error

abbrev pub finished : JobStatus → Option String → ℕ → JobRecord → JobRecord
finished status error now j = record j {
  status = status;
  lease_until = none;
  updated_at = now;
  last_error = error;
}

-- A failed `assert result is not None` counts as a TypeError.
unfoldable pub finish_job : String → String → ℕ → JobStatus → Option String → ℕ → Tx JobRecord
finish_job job_id worker_id token status error now db = do
  guard (is_final status) (value_error "finish status must be terminal")
  update_job job_id (owns worker_id token) (finished status error now) type_error db

abbrev pub requeued : ℕ → String → ℕ → JobRecord → JobRecord
requeued available error now j = record j {
  status = JobStatus.queued;
  owner = none;
  lease_until = none;
  available_at = available;
  updated_at = now;
  last_error = some error;
}

unfoldable pub requeue_job : String → String → ℕ → ℕ → String → ℕ → Tx JobRecord
requeue_job job_id worker_id token delay_seconds error now =
    update_job job_id (owns worker_id token) (requeued (now + seconds delay_seconds) error now)
      type_error
