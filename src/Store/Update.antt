-- ===== src/Store/Update.antt =====
-- The UPDATE of one job of backend/app/store.py, in terms of the job that is there.
use shou_ba_shou_jiaoxue_ai.Prelude.{
  String, ◌≡◌, refl, ◌∙◌, ◌≢◌, inl, inr, Bool, true, false, ◌&&◌, Option, none, some, arith, ◌==◌,
  if◌then◌else◌, ==_iff, eq_of_==, ==_refl, Bool-cases,
}
use shou_ba_shou_jiaoxue_ai.Schemas.{JobRecord}
use shou_ba_shou_jiaoxue_ai.Result.{Error, Result, ok, err, lease_lost_error}
use shou_ba_shou_jiaoxue_ai.Store.Table.{Unique, update_where}
use shou_ba_shou_jiaoxue_ai.Store.Table.Laws.{
  find-update_one, row_count-find, find-key, Unique-update_where,
}
use shou_ba_shou_jiaoxue_ai.Store.Db.{Db, run_key, job_key, find_job, after}
use shou_ba_shou_jiaoxue_ai.Store.Jobs.{update_job}
use shou_ba_shou_jiaoxue_ai.Store.LifeCycle.{Change, JobMove, same, moved}

pub record KeysUnique (db : Db) : Type 0 where
  pub runs : Unique run_key db.runs
  pub jobs : Unique job_key db.jobs

module _ (job_id : String) (q : JobRecord → Bool) (f : JobRecord → JobRecord) (e : Error) where
  abbrev pub updated : Db → Db
  updated db = record db { jobs = update_where (λ j. j.id == job_id && q j) f db.jobs }

  -- The UPDATE in terms of the job that is there.
  abbrev pub update_found : Db → Option JobRecord → Result (JobRecord × Db)
  update_found db none = err lease_lost_error
  update_found db (some j) = if q j then ok (f j, updated db) else err lease_lost_error

  pub find_job-updated :
      (db : Db) (j : JobRecord)
      → ((x : JobRecord) → (f x).id ≡ x.id)
      → find_job job_id db ≡ some j
      → q j ≡ true
      → (k : String) → find_job k (updated db) ≡ (if job_id == k then some (f j) else find_job k db)
  find_job-updated db j keeps here hit =
      find-update_one job_key (λ x. x.id == job_id && q x) f job_id db.jobs {r = j} keeps
        (λ x h. eq_of_== x.id job_id (ground arith)) here
        (ground (arith, hit, ==_iff j.id job_id, find-key job_key job_id db.jobs {r = j} here))

  -- The job is there and meets the test, or nothing is written and the lease is lost.
  pub update_job_lem :
      (db : Db)
      → KeysUnique db
      → ((x : JobRecord) → (f x).id ≡ x.id)
      → update_job job_id q f e db ≡ update_found db (find_job job_id db)
  unfolding update_job
  update_job_lem db u keeps = go (find_job job_id db) refl
    where
      go :
          (o : Option JobRecord)
          → find_job job_id db ≡ o
          → update_job job_id q f e db ≡ update_found db o
      go none h = ground (arith, row_count-find job_key q job_id db.jobs u.jobs, h)
      go (some j) h = ground (
        arith,
        row_count-find job_key q job_id db.jobs u.jobs,
        h,
        λ (hit : q j ≡ true). find_job-updated db j keeps h hit job_id,
        ==_refl job_id,
      )

  pub update_job-Change :
      (db : Db) (j : JobRecord)
      → find_job job_id db ≡ some j
      → q j ≡ true
      → ((x : JobRecord) → (f x).id ≡ x.id)
      → JobMove j (f j)
      → Change db (updated db)
  update_job-Change db j here hit keeps m =
      moved job_id j (f j) here m (find_job-updated db j keeps here hit)

  -- Whatever it returns, the UPDATE changes the table by one move at most.
  pub after-update_job-Change :
      (db : Db)
      → KeysUnique db
      → ((x : JobRecord) → (f x).id ≡ x.id)
      → ((j : JobRecord) → q j ≡ true → JobMove j (f j))
      → Change db (after db (update_job job_id q f e db))
  after-update_job-Change db u keeps move =
      rw (update_job_lem db u keeps) (go (find_job job_id db) refl)
    where
      go :
          (o : Option JobRecord) → find_job job_id db ≡ o → Change db (after db (update_found db o))
      go none h = same (λ k. refl)
      go (some j) h = elim (Bool-cases (q j)) [
        | inl hit ↦ rw hit (update_job-Change db j h hit keeps (move j hit))
        | inr miss ↦ rw miss (same (λ k. refl))
      ]

  pub after-update_job-KeysUnique :
      (db : Db)
      → KeysUnique db
      → ((x : JobRecord) → (f x).id ≡ x.id)
      → KeysUnique (after db (update_job job_id q f e db))
  after-update_job-KeysUnique db u keeps = rw (update_job_lem db u keeps) (go (find_job job_id db))
    where
      go : (o : Option JobRecord) → KeysUnique (after db (update_found db o))
      go none = u
      go (some j) = elim (Bool-cases (q j)) [
        | inl hit ↦ rw hit (record {
          runs = u.runs;
          jobs = Unique-update_where job_key (λ x. x.id == job_id && q x) f keeps db.jobs u.jobs;
        })
        | inr miss ↦ rw miss u
      ]

  pub update_job-err :
      (db : Db) (j : JobRecord)
      → KeysUnique db
      → ((x : JobRecord) → (f x).id ≡ x.id)
      → find_job job_id db ≡ some j
      → q j ≡ false
      → update_job job_id q f e db ≡ err lease_lost_error
  update_job-err db j u keeps h miss = update_job_lem db u keeps ∙ ground (arith, h, miss)

  pub update_job-ok :
      (db : Db) (j : JobRecord)
      → KeysUnique db
      → ((x : JobRecord) → (f x).id ≡ x.id)
      → find_job job_id db ≡ some j
      → q j ≡ true
      → (update_job job_id q f e db ≡ ok (f j, updated db))
        × (find_job job_id (updated db) ≡ some (f j))
  update_job-ok db j u keeps h hit = (
    update_job_lem db u keeps ∙ ground (arith, h, hit),
    find_job-updated db j keeps h hit job_id ∙ ground (arith, ==_refl job_id),
  )

  -- An UPDATE of one job leaves every other job alone.
  pub find_job-update_job_ne :
      (db : Db) (k : String)
      → KeysUnique db
      → ((x : JobRecord) → (f x).id ≡ x.id)
      → job_id ≢ k
      → find_job k (after db (update_job job_id q f e db)) ≡ find_job k db
  find_job-update_job_ne db k u keeps ne =
      rw (update_job_lem db u keeps) (go (find_job job_id db) refl)
    where
      go :
          (o : Option JobRecord)
          → find_job job_id db ≡ o
          → find_job k (after db (update_found db o)) ≡ find_job k db
      go none h = refl
      go (some j) h = elim (Bool-cases (q j)) [
        | inl hit ↦
            rw hit (find_job-updated db j keeps h hit k ∙ ground (arith, ne, ==_iff job_id k))
        | inr miss ↦ rw miss
      ]
