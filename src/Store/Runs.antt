-- ===== src/Store/Runs.antt =====
-- Runs in `SQLiteStore` of backend/app/store.py: optimistic concurrency by a version column, and the
-- write of a worker, which needs its lease.
use shou_ba_shou_jiaoxue_ai.Prelude.{
  ℕ, ◌+◌, String, Bool, true, false, ◌&&◌, Option, none, some, ltb, ◌=ℕ◌, ◌==◌, is_text,
}
use shou_ba_shou_jiaoxue_ai.Schemas.{is_claimed, RunRecord, JobRecord}
use shou_ba_shou_jiaoxue_ai.Result.{ok, guard, ◌>>◌, concurrency_error, lease_lost_error}
use shou_ba_shou_jiaoxue_ai.Store.Table.{update_where, row_count, insert, first_where}
use shou_ba_shou_jiaoxue_ai.Store.Db.{RunRow, Db, Tx, find_run}

-- `_with_version`: the column wins over the payload.
unfoldable pub with_version : RunRow → RunRecord
with_version r = record r.payload { version = r.version }

-- run.model_copy(update={"version": …, "updated_at": …})
unfoldable pub candidate : ℕ → RunRecord → RunRecord
candidate now run = record run { version = run.version + 1; updated_at = now }

unfoldable pub row_of : RunRecord → RunRow
row_of c = record { id = c.id; payload = c; updated_at = c.updated_at; version = c.version }

-- WHERE id=? AND version=?
abbrev pub at_version : RunRecord → RunRow → Bool
at_version run r = r.id == run.id && r.version =ℕ run.version

abbrev pub overwrite : RunRecord → RunRow → RunRow
overwrite c r = record r { payload = c; updated_at = c.updated_at; version = c.version }

-- The UPDATE that both ways to save end with, and the test of its row count.
unfoldable pub write_version : ℕ → RunRecord → Tx RunRecord
write_version now run db =
    let c = candidate now run in
    do
      guard (row_count (at_version run) db.runs =ℕ 1) concurrency_error
      ok (c, record db { runs = update_where (at_version run) (overwrite c) db.runs })

save_found : ℕ → RunRecord → Option RunRow → Tx RunRecord
save_found now run none db =
    let c = candidate now run in
    do
      guard (run.version =ℕ 0) concurrency_error
      ok (c, record db { runs = insert (row_of c) db.runs })
save_found now run (some row) db = do
  guard (row.version =ℕ run.version) concurrency_error
  write_version now run db

-- The caller's `run` gets the new version and time when the transaction has committed: the result
-- is that run.
unfoldable pub save_run : ℕ → RunRecord → Tx RunRecord
unfolding save_found
save_run now run db = save_found now run (find_run run.id db) db

-- Whether the lease deadline lies after `now` (`lease_until>?`: NULL does not).
abbrev pub is_live : Option ℕ → ℕ → Bool
is_live none now = false
is_live (some t) now = ltb now t

-- WHERE id=? AND run_id=? AND status='claimed' AND owner=? AND fencing_token=? AND lease_until>?
unfoldable pub holds_lease : String → String → String → ℕ → ℕ → JobRecord → Bool
holds_lease job_id run_id worker_id token now j =
    j.id == job_id
    && (j.run_id == run_id
        && (is_claimed j.status
            && (is_text j.owner worker_id
                && (j.fencing_token =ℕ token && is_live j.lease_until now))))

unfoldable pub leased : Option JobRecord → Bool
leased none = false
leased (some j) = true

same_version : RunRecord → Option RunRow → Bool
same_version run none = false
same_version run (some row) = row.version =ℕ run.version

unfoldable pub save_run_with_lease : ℕ → RunRecord → String → String → ℕ → Tx RunRecord
unfolding same_version
save_run_with_lease now run job_id worker_id token db = do
  guard (leased (first_where (holds_lease job_id run.id worker_id token now) db.jobs))
      lease_lost_error
  guard (same_version run (find_run run.id db)) concurrency_error
  write_version now run db

unfoldable pub get_run : String → Db → Option RunRecord
unfolding with_version
get_run run_id db = elim (find_run run_id db) [ none ↦ none | some r ↦ some (with_version r) ]
