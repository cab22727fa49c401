-- ===== src/Store/Versions.antt =====
-- Optimistic concurrency in backend/app/store.py: what a call does to the run table.
use shou_ba_shou_jiaoxue_ai.Prelude.{
  ℕ, String, ◌≡◌, refl, ap, ◌∙◌, inl, inr, Bool, false, ◌&&◌, Option, none, some, arith, ◌=ℕ◌, ◌==◌,
  if◌then◌else◌, ==_iff, eq_of_==, Bool-cases, Option-cases, is_text,
}
use shou_ba_shou_jiaoxue_ai.Schemas.{is_claimed, RunRecord, JobRecord}
use shou_ba_shou_jiaoxue_ai.Result.{Result, ok, err, lease_lost_error, concurrency_error}
use shou_ba_shou_jiaoxue_ai.Store.Table.{update_where, insert, first_where}
use shou_ba_shou_jiaoxue_ai.Store.Table.Laws.{
  find-update_one, row_count-find, find-key, first_where-find,
}
use shou_ba_shou_jiaoxue_ai.Store.Db.{Db, RunRow, run_key, job_key, find_job, find_run}
use shou_ba_shou_jiaoxue_ai.Store.Runs.{
  is_live, save_run, save_run_with_lease, write_version, candidate, row_of, at_version, overwrite,
  holds_lease, leased,
}
use shou_ba_shou_jiaoxue_ai.Store.Update.{KeysUnique}

-- The run table as a map after a save: the saved run stands under its id at the next version.
abbrev pub saved : ℕ → RunRecord → RunRow
saved now r = row_of (candidate now r)

abbrev pub stored : ℕ → RunRecord → Db → Db
stored now r db = record db {
  runs = update_where (at_version r) (overwrite (candidate now r)) db.runs;
}

-- A write over the row of the run, which must be at the version that the run was read at.
abbrev pub write_found : ℕ → RunRecord → Db → Option RunRow → Result (RunRecord × Db)
write_found now r db none = err concurrency_error
write_found now r db (some row) =
    if row.version =ℕ r.version
    then ok (candidate now r, stored now r db)
    else err concurrency_error

pub write_version_lem :
    (now : ℕ) (r : RunRecord) (db : Db)
    → KeysUnique db
    → write_version now r db ≡ write_found now r db (find_run r.id db)
unfolding write_version
write_version_lem now r db u = go (find_run r.id db) refl
  where
    go :
        (o : Option RunRow) → find_run r.id db ≡ o → write_version now r db ≡ write_found now r db o
    go none h =
        ground (arith, h, row_count-find run_key (λ x. x.version =ℕ r.version) r.id db.runs u.runs)
    go (some row) h =
        ground (arith, h, row_count-find run_key (λ x. x.version =ℕ r.version) r.id db.runs u.runs)

pub find_run-stored :
    (now : ℕ) (r : RunRecord) (db : Db) (row : RunRow)
    → find_run r.id db ≡ some row
    → row.version ≡ r.version
    → (k : String)
    → find_run k (stored now r db) ≡ (if r.id == k then some (saved now r) else find_run k db)
unfolding candidate row_of
find_run-stored now r db row here current k =
    find-update_one run_key (at_version r) (overwrite (candidate now r)) r.id db.runs {r = row}
      (λ x. refl) (λ x h. eq_of_== x.id r.id (ground arith)) here
      (ground (arith, ==_iff row.id r.id, find-key run_key r.id db.runs {r = row} here)) k
    ∙ ground (arith, find-key run_key r.id db.runs {r = row} here)

-- `save_run` by the row that is there.
abbrev pub save_chosen : ℕ → RunRecord → Db → Option RunRow → Result (RunRecord × Db)
save_chosen now r db none =
    if r.version =ℕ 0
    then ok (candidate now r, record db { runs = insert (saved now r) db.runs })
    else err concurrency_error
save_chosen now r db (some row) =
    if row.version =ℕ r.version
    then ok (candidate now r, stored now r db)
    else err concurrency_error

pub save_run_lem :
    (now : ℕ) (r : RunRecord) (db : Db)
    → KeysUnique db
    → save_run now r db ≡ save_chosen now r db (find_run r.id db)
unfolding save_run
save_run_lem now r db u = go (find_run r.id db) refl
  where
    go : (o : Option RunRow) → find_run r.id db ≡ o → save_run now r db ≡ save_chosen now r db o
    go none h = rw (h, save_run) (ground arith)
    go (some row) h = rw (h, save_run) (ground (arith, write_version_lem now r db u, h))

-- What the lease test of a worker's save says of the job.
abbrev pub has_lease : String → String → ℕ → ℕ → Option JobRecord → Bool
has_lease run_id worker_id token now none = false
has_lease run_id worker_id token now (some j) =
    j.run_id == run_id
    && (is_claimed j.status
        && (is_text j.owner worker_id && (j.fencing_token =ℕ token && is_live j.lease_until now)))

leased-has_lease :
    (run_id id worker_id : String) (token now : ℕ) (db : Db)
    → KeysUnique db
    → leased (first_where (holds_lease id run_id worker_id token now) db.jobs)
      ≡ has_lease run_id worker_id token now (find_job id db)
unfolding leased holds_lease
leased-has_lease run_id id worker_id token now db u =
    ap leased (
      first_where-find job_key
        (λ j.
          j.run_id == run_id
          && (is_claimed j.status
              && (is_text j.owner worker_id
                  && (j.fencing_token =ℕ token && is_live j.lease_until now))))
        id db.jobs u.jobs)
    ∙ go (find_job id db)
  where
    go :
        (o : Option JobRecord)
        → leased (elim o [
          | none ↦ none
          | some j ↦ if has_lease run_id worker_id token now (some j) then some j else none
        ])
          ≡ has_lease run_id worker_id token now o
    go none = refl
    go (some j) = ground arith

pub save_run_with_lease_lem :
    (now : ℕ) (r : RunRecord) (id worker_id : String) (token : ℕ) (db : Db)
    → KeysUnique db
    → save_run_with_lease now r id worker_id token db ≡ (
        if has_lease r.id worker_id token now (find_job id db)
        then write_found now r db (find_run r.id db)
        else err lease_lost_error)
unfolding save_run_with_lease
save_run_with_lease_lem now r id worker_id token db u =
    elim (Bool-cases (has_lease r.id worker_id token now (find_job id db))) [
      | inr no_lease ↦ rw (leased-has_lease r.id id worker_id token now db u, no_lease) refl
      | inl lease ↦
          rw (leased-has_lease r.id id worker_id token now db u, lease)
            (elim (Option-cases (find_run r.id db)) [
              | inl e ↦ rw (e, save_run_with_lease)
              | inr (row, e) ↦ ground (arith, e, write_version_lem now r db u)
            ])
    ]
