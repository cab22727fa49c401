-- ===== src/Approval/Decide.antt =====
-- `decide` of backend/app/agent.py against the store: what it reads, writes and enqueues.
use shou_ba_shou_jiaoxue_ai.Prelude.{
  ℕ, ◌+◌, String, ◌≡◌, refl, sym, ap, ◌∙◌, inl, inr, Bool, true, false, none, some, arith,
  if◌then◌else◌, Option-cases,
}
use shou_ba_shou_jiaoxue_ai.Schemas.{Stage, UserIdentity, RunRecord, JobRecord}
use shou_ba_shou_jiaoxue_ai.Result.{Result, ok, err}
use shou_ba_shou_jiaoxue_ai.Schemas.{resume}
use shou_ba_shou_jiaoxue_ai.Store.Table.{insert, find}
use shou_ba_shou_jiaoxue_ai.Store.Db.{Db, after, run_key, find_job}
use shou_ba_shou_jiaoxue_ai.Store.Runs.{save_run, get_run}
use shou_ba_shou_jiaoxue_ai.Store.Jobs.{enqueue_job, new_job, is_none}
use shou_ba_shou_jiaoxue_ai.Store.Update.{KeysUnique}
use shou_ba_shou_jiaoxue_ai.Store.Calls.{save_run-jobs}
use shou_ba_shou_jiaoxue_ai.Store.LostUpdate.{save-get}
use shou_ba_shou_jiaoxue_ai.Approval.Vote.{
  Tally, recorded, approved_run, denied_run, tally, require_run,
}
use shou_ba_shou_jiaoxue_ai.Approval.Actions.{commit, decide, saved_tally, enqueue_after}

abbrev pub run_of : Tally → RunRecord
run_of (recorded run) = run
run_of (approved_run run) = run
run_of (denied_run run) = run

abbrev pub resumes : Tally → Bool
resumes (approved_run run) = true
resumes _ = false

-- The tables after `decide` has returned `r` for a tally.
pub record IsCommitted (job_id : String) (now later : ℕ) (t : Tally) (r : RunRecord) (db db' : Db)
    : Type 0 where
  pub returned : r ≡ record (run_of t) { version = (run_of t).version + 1; updated_at = now }
  pub stored : get_run (run_of t).id db' ≡ some r
  pub queued :
      db'.jobs ≡ (if resumes t then insert (new_job job_id later r.id resume) db.jobs else db.jobs)

pub enqueue_job-ok :
    (stage : Stage) (job_id : String) (now : ℕ) (run_id : String) (db : Db) (j : JobRecord)
    (db' : Db)
    → enqueue_job job_id now run_id stage db ≡ ok (j, db')
    → (db'.runs ≡ db.runs)
      × (db'.jobs ≡ insert (new_job job_id now run_id stage) db.jobs)
      × (find_job job_id db ≡ none)
unfolding enqueue_job is_none
enqueue_job-ok stage job_id now run_id db j db' h = ground arith

pub commit-ok :
    {A : Type 0} (db : Db) (m : Result (A × Db)) {a : A} {db' : Db}
    → commit db m ≡ (ok a, db')
    → m ≡ ok (a, db')
commit-ok db (ok (a, d)) h = ground arith
commit-ok db (err e) h = ground arith

pub enqueue_after-ok :
    (stage : Stage) (job_id : String) (now : ℕ) (m : Result RunRecord × Db) (r : RunRecord)
    (db' : Db)
    → enqueue_after job_id now stage m ≡ (ok r, db')
    → (d : Db) × (j : JobRecord) × (m ≡ (ok r, d))
      × (enqueue_job job_id now r.id stage d ≡ ok (j, db'))
unfolding enqueue_after
enqueue_after-ok stage job_id now (err e, d) r db' h = ground arith
enqueue_after-ok stage job_id now (ok x, d) r db' h = go (enqueue_job job_id now x.id stage d) refl
  where
    go :
        (o : Result (JobRecord × Db))
        → enqueue_job job_id now x.id stage d ≡ o
        → (d' : Db) × (j : JobRecord) × (◌≡◌ {A = Result RunRecord × Db} (ok x, d) (ok r, d'))
          × (enqueue_job job_id now r.id stage d' ≡ ok (j, db'))
    go (ok (j, d')) e = (d, j, ground (arith, e), ground (arith, e))
    go (err f) e = ground (arith, e)

pub get_run-runs : (id : String) (db' db : Db) → db'.runs ≡ db.runs → get_run id db' ≡ get_run id db
unfolding get_run
get_run-runs id db' db e = ground (arith, ap (find run_key id) e)

module _ (job_id : String) (now later : ℕ) (db : Db) (u : KeysUnique db) where
  same_jobs :
      (run r : RunRecord) (db' : Db) → save_run now run db ≡ ok (r, db') → db'.jobs ≡ db.jobs
  same_jobs run r db' e = sym (ap (λ (d : Db). d.jobs) (ap (after db) e)) ∙ save_run-jobs now run db

  save-IsCommitted :
      (t : Tally) (r : RunRecord) (db' : Db)
      → resumes t ≡ false
      → commit db (save_run now (run_of t) db) ≡ (ok r, db')
      → IsCommitted job_id now later t r db db'
  save-IsCommitted t r db' n h =
      let e = commit-ok db (save_run now (run_of t) db) h in
      let (f, g) = save-get now (run_of t) r db db' u e in
      record { returned = f; stored = g; queued = rw n (same_jobs (run_of t) r db' e) }

  saved_tally-IsCommitted :
      (t : Tally) (r : RunRecord) (db' : Db)
      → saved_tally job_id now later t db ≡ (ok r, db')
      → IsCommitted job_id now later t r db db'
  unfolding saved_tally
  saved_tally-IsCommitted (recorded run) r db' h = save-IsCommitted (recorded run) r db' refl h
  saved_tally-IsCommitted (denied_run run) r db' h = save-IsCommitted (denied_run run) r db' refl h
  saved_tally-IsCommitted (approved_run run) r db' h =
      let (d, j, m, q) = enqueue_after-ok resume job_id later _ r db' h in
      let e = commit-ok db (save_run now run db) m in
      let (f, g) = save-get now run r db d u e in
      let (runs, jobs, fresh) = enqueue_job-ok resume job_id later r.id d j db' q in
      record {
        returned = f;
        stored = get_run-runs run.id db' d runs ∙ g;
        queued = jobs ∙ ap (insert (new_job job_id later r.id resume)) (same_jobs run r d e);
      }

  -- A decision that returns has read the run, passed every check on it, saved the run that the vote
  -- makes of it at the next version, and enqueued one job for that run exactly when the run was
  -- approved; it touches no other job.
  pub decide-IsCommitted :
      (run_id decision : String) (user : UserIdentity) (note : String) (version : ℕ) (r : RunRecord)
      (db' : Db)
      → decide job_id now later run_id decision user note version db ≡ (ok r, db')
      → (run : RunRecord) × (t : Tally) × (get_run run_id db ≡ some run)
        × (tally run decision user note version ≡ ok t)
        × IsCommitted job_id now later t r db db'
  unfolding decide require_run
  decide-IsCommitted run_id decision user note version r db' h =
      elim (Option-cases (get_run run_id db)) [
        | inl e ↦ absurd (ground (arith, e))
        | inr (run, e) ↦ go run e (tally run decision user note version) refl
      ]
    where
      go :
          (run : RunRecord)
          → get_run run_id db ≡ some run
          → (m : Result Tally) → tally run decision user note version ≡ m
          → (run : RunRecord) × (t : Tally) × (get_run run_id db ≡ some run)
            × (tally run decision user note version ≡ ok t)
            × IsCommitted job_id now later t r db db'
      go run e (err x) f = absurd (ground (arith, e, f))
      go run e (ok t) f = (run, t, e, f, saved_tally-IsCommitted t r db' (ground (arith, e, f)))
