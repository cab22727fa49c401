-- ===== src/Store/Fencing.antt =====
-- Leases and fencing tokens of backend/app/store.py over any interleaving of calls.
use shou_ba_shou_jiaoxue_ai.Prelude.{
  ℕ, ◌+◌, ◌<◌, String, ◌≡◌, refl, sym, ap, ◌∙◌, subst, inl, inr, true, false, Option, none, some,
  List, [], ◌∷◌, arith, ◌==◌, eq_of_==, ==_refl, Bool-cases,
}
use shou_ba_shou_jiaoxue_ai.Schemas.{JobStatus, is_final, RunRecord, JobRecord}
use shou_ba_shou_jiaoxue_ai.Result.{ok, err, lease_lost_error, type_error}
use shou_ba_shou_jiaoxue_ai.Store.Db.{Db, find_job, after, seconds}
use shou_ba_shou_jiaoxue_ai.Store.Runs.{save_run_with_lease}
use shou_ba_shou_jiaoxue_ai.Store.Jobs.{
  claim_job, heartbeat_job, finish_job, requeue_job, owns, owns_live, claimed_by, extended,
  finished, requeued,
}
use shou_ba_shou_jiaoxue_ai.Store.LifeCycle.{
  Change, same, moved, added, Later, Later-refl, Later-trans, JobMove-Later,
}
use shou_ba_shou_jiaoxue_ai.Store.Update.{KeysUnique, update_job-err}
use shou_ba_shou_jiaoxue_ai.Store.Claim.{
  claim_job_lem, claim_chosen, chosen, chosen-found, claimed-found, claim_job-KeysUnique,
}
use shou_ba_shou_jiaoxue_ai.Store.Calls.{Call, step, run, step-Change}
use shou_ba_shou_jiaoxue_ai.Store.Versions.{save_run_with_lease_lem}
use shou_ba_shou_jiaoxue_ai.Store.History.{step-KeysUnique}

-- The job of an id is there, and at least as far on as `j`.
abbrev pub StillThere : JobRecord → Db → Type 0
StillThere j db = (j' : JobRecord) × (find_job j.id db ≡ some j') × Later j j'

Change-Later :
    {db db' : Db} (k : String) (j : JobRecord)
    → Change db db'
    → find_job k db ≡ some j
    → (j' : JobRecord) × (find_job k db' ≡ some j') × Later j j'
Change-Later k j (same e) h = (j, e k ∙ h, Later-refl j)
Change-Later k j (moved id i i' here m e) h = elim (Bool-cases (id == k)) [
  | inl hit ↦ (
    i',
    ground (arith, hit, e k),
    subst (λ x. Later x i') (ground (arith, hit, eq_of_== id k, here, h)) (JobMove-Later m),
  )
  | inr miss ↦ (j, ground (arith, miss, e k, h), Later-refl j)
]
Change-Later k j (added id now run_id stage fresh e) h =
    (j, ground (arith, e k, h, fresh, eq_of_== id k), Later-refl j)

-- Through any history of calls a job stays in the table, keeps its identity, never gets a smaller
-- token, and does not change any more once its status is final.
pub run-Later :
    (db : Db) (cs : List (ℕ × Call)) (k : String) (j : JobRecord)
    → KeysUnique db
    → find_job k db ≡ some j
    → (j' : JobRecord) × (find_job k (run db cs) ≡ some j') × Later j j'
unfolding run
run-Later db [] k j u h = (j, h, Later-refl j)
run-Later db (c ∷ cs) k j u h =
    let (i, e, l) = Change-Later k j (step-Change db c u) h in
    let (j', e', l') = run-Later (step db c) cs k i (step-KeysUnique db c u) e in
    (j', e', Later-trans l l')

pub run-KeysUnique : (db : Db) (cs : List (ℕ × Call)) → KeysUnique db → KeysUnique (run db cs)
unfolding run
run-KeysUnique db [] u = u
run-KeysUnique db (c ∷ cs) u = run-KeysUnique (step db c) cs (step-KeysUnique db c u)

-- Every call that a worker makes with a token.
pub record IsFenced (id : String) (token : ℕ) (db : Db) : Type 0 where
  pub heartbeat :
      (worker_id : String) (lease_seconds now : ℕ)
      → heartbeat_job id worker_id token lease_seconds now db ≡ err lease_lost_error
  pub finish :
      (worker_id : String) (status : JobStatus) (e : Option String) (now : ℕ)
      → is_final status ≡ true
      → finish_job id worker_id token status e now db ≡ err lease_lost_error
  pub requeue :
      (worker_id : String) (delay_seconds : ℕ) (e : String) (now : ℕ)
      → requeue_job id worker_id token delay_seconds e now db ≡ err lease_lost_error
  pub save :
      (worker_id : String) (now : ℕ) (r : RunRecord)
      → save_run_with_lease now r id worker_id token db ≡ err lease_lost_error

owns_old :
    (worker_id : String) (token : ℕ) (j : JobRecord)
    → token < j.fencing_token
    → owns worker_id token j ≡ false
unfolding owns
owns_old worker_id token j h = ground arith

owns_live_old :
    (worker_id : String) (token now : ℕ) (j : JobRecord)
    → token < j.fencing_token
    → owns_live worker_id token now j ≡ false
unfolding owns_live
owns_live_old worker_id token now j h = ground arith

-- A job that stands at a later token refuses all four.
pub IsFenced-of_later :
    (id : String) (token : ℕ) (db : Db) (j : JobRecord)
    → KeysUnique db
    → find_job id db ≡ some j
    → token < j.fencing_token
    → IsFenced id token db
unfolding heartbeat_job finish_job requeue_job
IsFenced-of_later id token db j u h old = record {
  heartbeat = λ w lease now.
      update_job-err id (owns_live w token now) (extended now (now + seconds lease))
        lease_lost_error db j u (λ x. refl) h (owns_live_old w token now j old);
  finish = λ w s e now f.
      rw (f, finish_job)
        (update_job-err id (owns w token) (finished s e now) type_error db j u (λ x. refl) h
          (owns_old w token j old));
  requeue = λ w d e now.
      update_job-err id (owns w token) (requeued (now + seconds d) e now) type_error db j u
        (λ x. refl) h (owns_old w token j old);
  save = λ w now r. save_run_with_lease_lem now r id w token db u ∙ ground (arith, h, old);
}

claim_chosen-found :
    (worker_id : String) (now lease_seconds : ℕ) (db : Db) (o : Option JobRecord) {j : JobRecord}
    {db' : Db}
    → KeysUnique db
    → chosen now db ≡ o
    → claim_chosen worker_id now lease_seconds db o ≡ ok (some j, db')
    → find_job j.id db' ≡ some j
unfolding claimed_by
claim_chosen-found worker_id now lease_seconds db none u h e = ground arith
claim_chosen-found worker_id now lease_seconds db (some row) u h e = ground (
  arith,
  claimed-found worker_id now lease_seconds row db (chosen-found now db u h) row.id,
  ==_refl row.id,
)

-- What a claim returns is what it wrote.
pub claim_job-found :
    (worker_id : String) (now lease_seconds : ℕ) (db : Db) {j : JobRecord} {db' : Db}
    → KeysUnique db
    → claim_job worker_id now lease_seconds db ≡ ok (some j, db')
    → find_job j.id db' ≡ some j
claim_job-found worker_id now lease_seconds db u e =
    claim_chosen-found worker_id now lease_seconds db (chosen now db) u refl
      (sym (claim_job_lem worker_id now lease_seconds db u) ∙ e)

pub after_claim-KeysUnique :
    (worker_id : String) (now lease_seconds : ℕ) (db : Db) {o : Option JobRecord} {db' : Db}
    → KeysUnique db
    → claim_job worker_id now lease_seconds db ≡ ok (o, db')
    → KeysUnique db'
after_claim-KeysUnique worker_id now lease_seconds db u e =
    subst KeysUnique (ap (after db) e) (claim_job-KeysUnique worker_id now lease_seconds db u)

-- Once a job has been claimed, a worker with any earlier token of that job is shut out for good:
-- after any further history of calls, its heartbeat, its finish (with a status that is final), its
-- requeue and its save of a run all raise LeaseLostError, under whatever worker id.
pub claim_fences :
    (worker_id : String) (now lease_seconds : ℕ) (db : Db) (j : JobRecord) (db' : Db) (token : ℕ)
    (cs : List (ℕ × Call))
    → KeysUnique db
    → claim_job worker_id now lease_seconds db ≡ ok (some j, db')
    → token < j.fencing_token
    → IsFenced j.id token (run db' cs)
claim_fences worker_id now lease_seconds db j db' token cs u e old =
    let u' = after_claim-KeysUnique worker_id now lease_seconds db u e in
    let (i, h, l) =
      run-Later db' cs j.id j u' (claim_job-found worker_id now lease_seconds db u e) in
    IsFenced-of_later j.id token (run db' cs) i (run-KeysUnique db' cs u') h
      (omega (arith, l.token, old))
