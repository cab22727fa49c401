-- ===== src/Store/Postgres.antt =====
-- `PostgresStore` of backend/app/store.py: the same operations in PostgreSQL's statements. An
-- `UPDATE … RETURNING` hands back the rows that it wrote; `FOR UPDATE SKIP LOCKED` passes over the
-- rows that other transactions have locked, which are an argument.
use shou_ba_shou_jiaoxue_ai.Prelude.{
  ℕ, ◌+◌, String, Bool, true, not, ◌&&◌, Option, none, some, ◌=ℕ◌, ◌==◌,
}
use shou_ba_shou_jiaoxue_ai.Schemas.{JobStatus, Stage, is_final, RunRecord, JobRecord}
use shou_ba_shou_jiaoxue_ai.Result.{
  ok, err, guard, ◌>>◌, value_error, lease_lost_error, integrity_error, concurrency_error,
}
use shou_ba_shou_jiaoxue_ai.Store.Table.{update_where, row_count, insert, least_where, first_where}
use shou_ba_shou_jiaoxue_ai.Store.Db.{Db, Tx, RunRow, find_job, find_run, after, seconds}
use shou_ba_shou_jiaoxue_ai.Store.Runs.{
  candidate, row_of, at_version, overwrite, holds_lease, leased,
}
use shou_ba_shou_jiaoxue_ai.Store.Jobs.{
  is_none, new_job, claimable, claims_before, claimed_by, owns, owns_live, extended, finished,
  requeued,
}
use shou_ba_shou_jiaoxue_ai.Store.Calls.{
  Call, enqueue, claim_next, heartbeat, finish_as, requeue_after, save, save_leased,
}

unfoldable pub enqueue_job : String → ℕ → String → Stage → Tx JobRecord
enqueue_job id now run_id stage db = do
  guard (is_none (find_job id db)) integrity_error
  guard (not (is_none (find_run run_id db))) integrity_error
  let job = new_job id now run_id stage
  ok (job, record db { jobs = insert job db.jobs })

-- The CTE `candidate`.
unfoldable pub candidate_job : (String → Bool) → ℕ → Db → Option JobRecord
candidate_job locked now db =
    least_where (λ j. claimable now j && not (locked j.id)) claims_before db.jobs

-- UPDATE … FROM candidate WHERE j.id=candidate.id RETURNING …
unfoldable pub claim_job : (String → Bool) → String → ℕ → ℕ → Tx (Option JobRecord)
claim_job locked worker_id now lease_seconds db = elim (candidate_job locked now db) [
  | none ↦ ok (none, db)
  | some c ↦
      let set = claimed_by worker_id now (now + seconds lease_seconds) (c.fencing_token + 1) in
      ok (
        elim (first_where (λ j. j.id == c.id) db.jobs) [ none ↦ none | some j ↦ some (set j) ],
        record db { jobs = update_where (λ j. j.id == c.id) set db.jobs },
      )
]

-- UPDATE … WHERE … RETURNING …, and `fetchone()`.
unfoldable pub update_returning : (JobRecord → Bool) → (JobRecord → JobRecord) → Tx JobRecord
update_returning p set db = elim (first_where p db.jobs) [
  | none ↦ err lease_lost_error
  | some j ↦ ok (set j, record db { jobs = update_where p set db.jobs })
]

unfoldable pub heartbeat_job : String → String → ℕ → ℕ → ℕ → Tx JobRecord
heartbeat_job job_id worker_id token lease_seconds now =
    update_returning (λ j. j.id == job_id && owns_live worker_id token now j)
      (extended now (now + seconds lease_seconds))

unfoldable pub finish_job : String → String → ℕ → JobStatus → Option String → ℕ → Tx JobRecord
finish_job job_id worker_id token status error now db = do
  guard (is_final status) (value_error "finish status must be terminal")
  update_returning (λ j. j.id == job_id && owns worker_id token j) (finished status error now) db

unfoldable pub requeue_job : String → String → ℕ → ℕ → String → ℕ → Tx JobRecord
requeue_job job_id worker_id token delay_seconds error now =
    update_returning (λ j. j.id == job_id && owns worker_id token j)
      (requeued (now + seconds delay_seconds) error now)

write_version : ℕ → RunRecord → Tx RunRecord
write_version now run db =
    let c = candidate now run in
    do
      guard (row_count (at_version run) db.runs =ℕ 1) concurrency_error
      ok (c, record db { runs = update_where (at_version run) (overwrite c) db.runs })

save_found : ℕ → RunRecord → Option RunRow → Tx RunRecord
unfolding write_version
save_found now run none db =
    let c = candidate now run in
    do
      guard (run.version =ℕ 0) concurrency_error
      ok (c, record db { runs = insert (row_of c) db.runs })
save_found now run (some row) db = do
  guard (row.version =ℕ run.version) concurrency_error
  write_version now run db

unfoldable pub save_run : ℕ → RunRecord → Tx RunRecord
unfolding save_found
save_run now run db = save_found now run (find_run run.id db) db

-- `row is None or int(row[0]) != expected`
stale : RunRecord → Option RunRow → Bool
stale run none = true
stale run (some row) = not (row.version =ℕ run.version)

unfoldable pub save_run_with_lease : ℕ → RunRecord → String → String → ℕ → Tx RunRecord
unfolding stale write_version
save_run_with_lease now run job_id worker_id token db = do
  guard (leased (first_where (holds_lease job_id run.id worker_id token now) db.jobs))
      lease_lost_error
  guard (not (stale run (find_run run.id db))) concurrency_error
  write_version now run db

-- The tables after a call, with the rows that others have locked meanwhile.
unfoldable pub step : (String → Bool) → Db → ℕ × Call → Db
step locked db (now, enqueue id run_id stage) = after db (enqueue_job id now run_id stage db)
step locked db (now, claim_next worker_id lease) =
    after db (claim_job locked worker_id now lease db)
step locked db (now, heartbeat id worker_id token lease) =
    after db (heartbeat_job id worker_id token lease now db)
step locked db (now, finish_as id worker_id token status e) =
    after db (finish_job id worker_id token status e now db)
step locked db (now, requeue_after id worker_id token delay e) =
    after db (requeue_job id worker_id token delay e now db)
step locked db (now, save r) = after db (save_run now r db)
step locked db (now, save_leased r id worker_id token) =
    after db (save_run_with_lease now r id worker_id token db)
