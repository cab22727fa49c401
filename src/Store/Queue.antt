-- ===== src/Store/Queue.antt =====
-- Which job `claim_job` of backend/app/store.py takes, and how long the claim excludes others.
use shou_ba_shou_jiaoxue_ai.Prelude.{
  ◌⊎◌, inl, inr, ◌↔◌, ◌≤◌, Option-cases, Bool-cases, ℕ, ◌+◌, ◌<◌, String, ◌≡◌, refl, sym, ap, ◌∙◌,
  subst, ◌≢◌, inl, inr, true, false, Option, none, some, List, [], ◌∷◌, arith, ◌==◌, if◌then◌else◌,
  eq_of_==, Bool-cases,
}
use shou_ba_shou_jiaoxue_ai.Schemas.{is_queued, JobStatus, Stage, is_final, JobRecord}
use shou_ba_shou_jiaoxue_ai.Result.{Result, ok}
use shou_ba_shou_jiaoxue_ai.Store.Table.{find}
use shou_ba_shou_jiaoxue_ai.Store.Table.Laws.{
  IsOrder, least_where-least, least_where-none, least_where-meets, find-insert,
}
use shou_ba_shou_jiaoxue_ai.Store.Db.{Db, job_key, find_job, after, seconds}
use shou_ba_shou_jiaoxue_ai.Store.Jobs.{
  enqueue_job, heartbeat_job, finish_job, requeue_job, finished, claim_job, claimable,
  claims_before, claimed_by, owns, owns_live, new_job,
}
use shou_ba_shou_jiaoxue_ai.Store.Update.{KeysUnique, find_job-update_job_ne}
use shou_ba_shou_jiaoxue_ai.Store.Claim.{
  claim_job_lem, claim_chosen, chosen, chosen-found, claimed-found,
}
use shou_ba_shou_jiaoxue_ai.Store.Calls.{
  Call, enqueue, claim_next, heartbeat, finish_as, requeue_after, save, save_leased, step, run,
  save_run-jobs, save_run_with_lease-jobs,
}
use shou_ba_shou_jiaoxue_ai.Store.History.{step-KeysUnique}
use shou_ba_shou_jiaoxue_ai.Store.Fencing.{claim_job-found, after_claim-KeysUnique}

-- The keys of ORDER BY: expired leases first, then by time of availability, then by age.
claims_before-IsOrder : IsOrder claims_before
unfolding claims_before
claims_before-IsOrder = record {
  asym = λ x y h. ground arith;
  co_trans = λ x y z h g. ground arith;
  irrefl = λ x. ground arith;
}

-- A job that waits and whose time has come, or one that a worker has let expire.
abbrev pub IsClaimable : ℕ → JobRecord → Type 0
IsClaimable now j =
    ((j.status ≡ JobStatus.queued) × (j.available_at ≤ now))
    ⊎ ((j.status ≡ JobStatus.claimed) × (t : ℕ) × (j.lease_until ≡ some t) × (t ≤ now))

claimable_iff : (now : ℕ) (j : JobRecord) → (claimable now j ≡ true) ↔ IsClaimable now j
unfolding claimable
claimable_iff now j = (to (Option-cases j.lease_until), λ h. ground (arith, h))
  where
    to :
        (j.lease_until ≡ none) ⊎ ((t : ℕ) × (j.lease_until ≡ some t))
        → claimable now j ≡ true
        → IsClaimable now j
    to (inl n) h = inl (ground (arith, n), ground (arith, n))
    to (inr (t, e)) h = elim (Bool-cases (is_queued j.status)) [
      | inl q ↦ inl (ground (arith, q), ground (arith, q))
      | inr q ↦ inr (ground (arith, q, e), t, e, ground (arith, q, e))
    ]

-- The specification of a claim, over the table as a map.
pub data Claims (worker_id : String) (now lease_seconds : ℕ) (db : Db)
    : Result (Option JobRecord × Db) → Type 0 where
  idle :
      ((k : String) (x : JobRecord) → find_job k db ≡ some x → IsClaimable now x → ⊥)
      → Claims worker_id now lease_seconds db (ok (none, db))
  taken :
      (row j : JobRecord) (db' : Db)
      → find_job row.id db ≡ some row
      → IsClaimable now row
      → ((k : String) (x : JobRecord)
          → find_job k db ≡ some x
          → IsClaimable now x
          → claims_before x row ≡ false)
      → j ≡ claimed_by worker_id now (now + seconds lease_seconds) (row.fencing_token + 1) row
      → ((k : String) → find_job k db' ≡ (if row.id == k then some j else find_job k db))
      → db'.runs ≡ db.runs
      → Claims worker_id now lease_seconds db (ok (some j, db'))

claim_chosen-Claims :
    (worker_id : String) (now lease_seconds : ℕ) (db : Db) (o : Option JobRecord)
    → KeysUnique db
    → chosen now db ≡ o
    → Claims worker_id now lease_seconds db (claim_chosen worker_id now lease_seconds db o)
claim_chosen-Claims worker_id now lease_seconds db none u h = idle λ k x here c. absurd (
    ground (
      arith,
      (claimable_iff now x).1 c,
      least_where-none job_key (claimable now) claims_before k db.jobs h here,
    ))
claim_chosen-Claims worker_id now lease_seconds db (some row) u h =
    let here = chosen-found now db u h in
    taken row _ _ here
      ((claimable_iff now row).0
        (least_where-meets job_key (claimable now) claims_before db.jobs h))
      (λ k x there c.
        least_where-least job_key (claimable now) claims_before claims_before-IsOrder k db.jobs h
          there ((claimable_iff now x).1 c))
      refl (claimed-found worker_id now lease_seconds row db here) refl

-- A claim never raises. It returns nothing, and changes nothing, exactly when no job is claimable;
-- otherwise it takes a claimable job that no claimable job comes before (expired leases first, then
-- the earliest available, then the oldest), gives it to the worker under the next token and a fresh
-- deadline, and leaves every other job and every run as it was.
pub claim_job-Claims :
    (worker_id : String) (now lease_seconds : ℕ) (db : Db)
    → KeysUnique db
    → Claims worker_id now lease_seconds db (claim_job worker_id now lease_seconds db)
claim_job-Claims worker_id now lease_seconds db u =
    subst (Claims worker_id now lease_seconds db)
      (sym (claim_job_lem worker_id now lease_seconds db u))
      (claim_chosen-Claims worker_id now lease_seconds db (chosen now db) u refl)

-- A call that may end or move the lease of a job, or comes too late for it.
abbrev pub Spares : String → ℕ → ℕ × Call → Type 0
Spares id deadline (now, heartbeat k w t l) = k ≢ id
Spares id deadline (now, finish_as k w t s e) = k ≢ id
Spares id deadline (now, requeue_after k w t d e) = k ≢ id
Spares id deadline (now, claim_next w l) = now < deadline
Spares id deadline (now, enqueue k r s) = Unit
Spares id deadline (now, save r) = Unit
Spares id deadline (now, save_leased r k w t) = Unit

abbrev pub AllSpare : String → ℕ → List (ℕ × Call) → Type 0
AllSpare id deadline [] = Unit
AllSpare id deadline (c ∷ cs) = Spares id deadline c × AllSpare id deadline cs

enqueue_job-keeps :
    (id : String) (now : ℕ) (run_id : String) (stage : Stage) (db : Db) (k : String) (j : JobRecord)
    → find_job k db ≡ some j
    → find_job k (after db (enqueue_job id now run_id stage db)) ≡ some j
unfolding enqueue_job
enqueue_job-keeps id now run_id stage db k j h =
    ground (arith, find-insert job_key k (new_job id now run_id stage) db.jobs, h)

claim_job-keeps :
    (worker_id : String) (now lease_seconds : ℕ) (db : Db) (k : String) (j : JobRecord)
    (r : Result (Option JobRecord × Db))
    → Claims worker_id now lease_seconds db r
    → find_job k db ≡ some j
    → (IsClaimable now j → ⊥)
    → find_job k (after db r) ≡ some j
claim_job-keeps w now ls db k j r (idle none_there) h out = h
claim_job-keeps w now ls db k j r (taken row t db' here ready first e frame same_runs) h out =
    ground (arith, frame k, h, here, ready, out, eq_of_== row.id k)

not_claimable :
    (now deadline : ℕ) (j : JobRecord)
    → j.status ≡ JobStatus.claimed
    → j.lease_until ≡ some deadline
    → now < deadline
    → IsClaimable now j
    → ⊥
not_claimable now deadline j c l h g = ground (arith, g)

module _ (id : String) (deadline : ℕ) (j : JobRecord) where
  step-Spares :
      (db : Db) (c : ℕ × Call)
      → KeysUnique db
      → j.status ≡ JobStatus.claimed
      → j.lease_until ≡ some deadline
      → Spares id deadline c
      → find_job id db ≡ some j
      → find_job id (step db c) ≡ some j
  unfolding step heartbeat_job finish_job requeue_job
  step-Spares db (now, heartbeat k w t l) u c d sp h =
      find_job-update_job_ne k (owns_live w t now) _ _ db id u (λ x. refl) sp ∙ h
  step-Spares db (now, finish_as k w t s e) u c d sp h = elim (Bool-cases (is_final s)) [
    | inl f ↦
        rw (f, finish_job)
          (find_job-update_job_ne k (owns w t) (finished s e now) _ db id u (λ x. refl) sp ∙ h)
    | inr f ↦ rw (f, finish_job) h
  ]
  step-Spares db (now, requeue_after k w t d' e) u c d sp h =
      find_job-update_job_ne k (owns w t) _ _ db id u (λ x. refl) sp ∙ h
  step-Spares db (now, claim_next w l) u c d sp h =
      claim_job-keeps w now l db id j _ (claim_job-Claims w now l db u) h
        (not_claimable now deadline j c d sp)
  step-Spares db (now, enqueue k r s) u c d sp h = enqueue_job-keeps k now r s db id j h
  step-Spares db (now, save r) u c d sp h = ap (find job_key id) (save_run-jobs now r db) ∙ h
  step-Spares db (now, save_leased r k w t) u c d sp h =
      ap (find job_key id) (save_run_with_lease-jobs now r k w t db) ∙ h

  run_spares :
      (db : Db) (cs : List (ℕ × Call))
      → KeysUnique db
      → j.status ≡ JobStatus.claimed
      → j.lease_until ≡ some deadline
      → AllSpare id deadline cs
      → find_job id db ≡ some j
      → find_job id (run db cs) ≡ some j
  unfolding run
  run_spares db [] u c d sp h = h
  run_spares db (x ∷ cs) u c d sp h =
      run_spares (step db x) cs (step-KeysUnique db x u) c d sp.1 (step-Spares db x u c d sp.0 h)

claimed-fields :
    (worker_id : String) (now lease_seconds : ℕ) (db : Db) (j : JobRecord) (db' : Db)
    (r : Result (Option JobRecord × Db))
    → Claims worker_id now lease_seconds db r
    → r ≡ ok (some j, db')
    → (j.status ≡ JobStatus.claimed) × (j.lease_until ≡ some (now + seconds lease_seconds))
unfolding claimed_by
claimed-fields w now ls db j db' r (idle none_there) e = ground arith
claimed-fields w now ls db j db' r (taken row t db'' here ready first f frame same_runs) e =
    ground arith

-- A claimed job is the claimer's until its deadline: after any history of calls in which no claim
-- comes at the deadline or later, and nobody heartbeats, finishes or requeues this job, it still
-- stands in the table exactly as the claim returned it.
pub claim_exclusive :
    (worker_id : String) (now lease_seconds : ℕ) (db : Db) (j : JobRecord) (db' : Db)
    (cs : List (ℕ × Call))
    → KeysUnique db
    → claim_job worker_id now lease_seconds db ≡ ok (some j, db')
    → AllSpare j.id (now + seconds lease_seconds) cs
    → find_job j.id (run db' cs) ≡ some j
claim_exclusive w now ls db j db' cs u e sp =
    let (c, d) = claimed-fields w now ls db j db' _ (claim_job-Claims w now ls db u) e in
    run_spares j.id (now + seconds ls) j db' cs (after_claim-KeysUnique w now ls db u e) c d sp
      (claim_job-found w now ls db u e)
