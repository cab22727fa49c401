-- ===== src/Store/Claim.antt =====
-- `claim_job` of backend/app/store.py, in terms of the row that its query chooses.
use shou_ba_shou_jiaoxue_ai.Prelude.{
  ℕ, ◌+◌, String, ◌≡◌, refl, Option, none, some, arith, ◌==◌, if◌then◌else◌, eq_of_==, ==_refl,
}
use shou_ba_shou_jiaoxue_ai.Schemas.{JobRecord}
use shou_ba_shou_jiaoxue_ai.Result.{Result, ok}
use shou_ba_shou_jiaoxue_ai.Store.Table.{update_where, least_where}
use shou_ba_shou_jiaoxue_ai.Store.Table.Laws.{
  find-update_one, Unique-update_where, least_where-meets, find-least_where,
}
use shou_ba_shou_jiaoxue_ai.Store.Db.{Db, job_key, find_job, after, seconds}
use shou_ba_shou_jiaoxue_ai.Store.Jobs.{claim_job, claimable, claims_before, claimed_by}
use shou_ba_shou_jiaoxue_ai.Store.LifeCycle.{Change, same, moved, claim}
use shou_ba_shou_jiaoxue_ai.Store.Update.{KeysUnique}

-- A claim in terms of the row that the query chose.
abbrev pub claim_updated : String → ℕ → ℕ → JobRecord → Db → Db
claim_updated worker_id now lease_seconds row db = record db {
  jobs =
      update_where (λ j. j.id == row.id)
        (claimed_by worker_id now (now + seconds lease_seconds) (row.fencing_token + 1)) db.jobs;
}

abbrev pub claim_chosen : String → ℕ → ℕ → Db → Option JobRecord → Result (Option JobRecord × Db)
claim_chosen worker_id now lease_seconds db none = ok (none, db)
claim_chosen worker_id now lease_seconds db (some row) = ok (
  some (claimed_by worker_id now (now + seconds lease_seconds) (row.fencing_token + 1) row),
  claim_updated worker_id now lease_seconds row db,
)

abbrev pub chosen : ℕ → Db → Option JobRecord
chosen now db = least_where (claimable now) claims_before db.jobs

pub chosen-found :
    (now : ℕ) (db : Db) {row : JobRecord}
    → KeysUnique db
    → chosen now db ≡ some row
    → find_job row.id db ≡ some row
chosen-found now db u e = find-least_where job_key (claimable now) claims_before db.jobs u.jobs e

pub claimed-found :
    (worker_id : String) (now lease_seconds : ℕ) (row : JobRecord) (db : Db)
    → find_job row.id db ≡ some row
    → (k : String)
    → find_job k (claim_updated worker_id now lease_seconds row db) ≡ (
        if row.id == k
        then some
            (claimed_by worker_id now (now + seconds lease_seconds) (row.fencing_token + 1) row)
        else find_job k db)
unfolding claimed_by
claimed-found worker_id now lease_seconds row db here =
    find-update_one job_key (λ x. x.id == row.id)
      (claimed_by worker_id now (now + seconds lease_seconds) (row.fencing_token + 1)) row.id
      db.jobs {r = row} (λ x. refl) (λ x h. eq_of_== x.id row.id h) here (==_refl row.id)

pub claim_job_lem :
    (worker_id : String) (now lease_seconds : ℕ) (db : Db)
    → KeysUnique db
    → claim_job worker_id now lease_seconds db
      ≡ claim_chosen worker_id now lease_seconds db (chosen now db)
unfolding claim_job
claim_job_lem worker_id now lease_seconds db u = go (chosen now db) refl
  where
    go :
        (o : Option JobRecord)
        → chosen now db ≡ o
        → claim_job worker_id now lease_seconds db ≡ claim_chosen worker_id now lease_seconds db o
    go none h = rw (h, claim_job)
    go (some row) h = ground (
      arith,
      h,
      claimed-found worker_id now lease_seconds row db (chosen-found now db u h) row.id,
      ==_refl row.id,
    )

claim-Change :
    (worker_id : String) (now lease_seconds : ℕ) (db : Db) (o : Option JobRecord)
    → KeysUnique db
    → chosen now db ≡ o
    → Change db (after db (claim_chosen worker_id now lease_seconds db o))
claim-Change worker_id now lease_seconds db none u h = same (λ k. refl)
claim-Change worker_id now lease_seconds db (some row) u h =
    let here = chosen-found now db u h in
    moved row.id row _ here
      (claim worker_id now (now + seconds lease_seconds)
        (least_where-meets job_key (claimable now) claims_before db.jobs h))
      (claimed-found worker_id now lease_seconds row db here)

pub claim_job-Change :
    (worker_id : String) (now lease_seconds : ℕ) (db : Db)
    → KeysUnique db
    → Change db (after db (claim_job worker_id now lease_seconds db))
claim_job-Change worker_id now lease_seconds db u =
    rw (claim_job_lem worker_id now lease_seconds db u)
      (claim-Change worker_id now lease_seconds db (chosen now db) u refl)

claim-KeysUnique :
    (worker_id : String) (now lease_seconds : ℕ) (db : Db) (o : Option JobRecord)
    → KeysUnique db
    → KeysUnique (after db (claim_chosen worker_id now lease_seconds db o))
unfolding claimed_by
claim-KeysUnique worker_id now lease_seconds db none u = u
claim-KeysUnique worker_id now lease_seconds db (some row) u = record {
  runs = u.runs;
  jobs = Unique-update_where job_key (λ j. j.id == row.id) _ (λ x. refl) db.jobs u.jobs;
}

pub claim_job-KeysUnique :
    (worker_id : String) (now lease_seconds : ℕ) (db : Db)
    → KeysUnique db
    → KeysUnique (after db (claim_job worker_id now lease_seconds db))
claim_job-KeysUnique worker_id now lease_seconds db u =
    rw (claim_job_lem worker_id now lease_seconds db u)
      (claim-KeysUnique worker_id now lease_seconds db (chosen now db) u)
