-- ===== src/Store/History.antt =====
-- What any history of calls keeps of the tables of backend/app/store.py.
use shou_ba_shou_jiaoxue_ai.Prelude.{
  ℕ, String, ◌≡◌, refl, sym, ◌∙◌, subst, inl, inr, Option, none, some, List, [], ◌∷◌, arith, ◌=ℕ◌,
  ◌==◌, Bool-cases, Option-cases,
}
use shou_ba_shou_jiaoxue_ai.Schemas.{Stage, is_final, RunRecord, JobRecord}
use shou_ba_shou_jiaoxue_ai.Store.Table.Laws.{Unique-update_where, Unique-insert}
use shou_ba_shou_jiaoxue_ai.Store.Db.{Db, RunRow, run_key, job_key, find_job, find_run, after}
use shou_ba_shou_jiaoxue_ai.Store.Runs.{
  save_run_with_lease, candidate, row_of, at_version, overwrite,
}
use shou_ba_shou_jiaoxue_ai.Store.Jobs.{
  enqueue_job, heartbeat_job, finish_job, requeue_job, owns, owns_live, new_job, is_none,
}
use shou_ba_shou_jiaoxue_ai.Store.LifeCycle.{
  Change, same, moved, added, IsSound, new_job-IsSound, JobMove-IsSound,
}
use shou_ba_shou_jiaoxue_ai.Store.Update.{KeysUnique, after-update_job-KeysUnique}
use shou_ba_shou_jiaoxue_ai.Store.Claim.{claim_job-KeysUnique}
use shou_ba_shou_jiaoxue_ai.Store.Calls.{
  Call, enqueue, claim_next, heartbeat, finish_as, requeue_after, save, save_leased, step, run,
  step-Change,
}
use shou_ba_shou_jiaoxue_ai.Store.Versions.{
  saved, stored, write_found, save_chosen, save_run_lem, save_run_with_lease_lem, has_lease,
}

stored-KeysUnique :
    (now : ℕ) (r : RunRecord) (db : Db) → KeysUnique db → KeysUnique (stored now r db)
stored-KeysUnique now r db u = record {
  runs =
      Unique-update_where run_key (at_version r) (overwrite (candidate now r)) (λ x. refl) db.runs
        u.runs;
  jobs = u.jobs;
}

save_chosen-KeysUnique :
    (now : ℕ) (r : RunRecord) (db : Db) (o : Option RunRow)
    → KeysUnique db
    → find_run r.id db ≡ o
    → KeysUnique (after db (save_chosen now r db o))
unfolding candidate row_of
save_chosen-KeysUnique now r db none u h = elim (Bool-cases (r.version =ℕ 0)) [
  | inl e ↦
      rw e (record { runs = Unique-insert run_key (saved now r) db.runs u.runs h; jobs = u.jobs })
  | inr e ↦ rw e u
]
save_chosen-KeysUnique now r db (some row) u h = elim (Bool-cases (row.version =ℕ r.version)) [
  | inl e ↦ rw e (stored-KeysUnique now r db u)
  | inr e ↦ rw e u
]

write_found-KeysUnique :
    (now : ℕ) (r : RunRecord) (db : Db) (o : Option RunRow)
    → KeysUnique db
    → KeysUnique (after db (write_found now r db o))
write_found-KeysUnique now r db none u = u
write_found-KeysUnique now r db (some row) u = elim (Bool-cases (row.version =ℕ r.version)) [
  | inl e ↦ rw e (stored-KeysUnique now r db u)
  | inr e ↦ rw e u
]

save_run_with_lease-KeysUnique :
    (now : ℕ) (r : RunRecord) (id worker_id : String) (token : ℕ) (db : Db)
    → KeysUnique db
    → KeysUnique (after db (save_run_with_lease now r id worker_id token db))
save_run_with_lease-KeysUnique now r id worker_id token db u =
    rw (save_run_with_lease_lem now r id worker_id token db u)
      (elim (Bool-cases (has_lease r.id worker_id token now (find_job id db))) [
        | inl e ↦ rw e (write_found-KeysUnique now r db (find_run r.id db) u)
        | inr e ↦ rw e u
      ])

enqueue_job-KeysUnique :
    (id : String) (now : ℕ) (run_id : String) (stage : Stage) (db : Db)
    → KeysUnique db
    → KeysUnique (after db (enqueue_job id now run_id stage db))
unfolding enqueue_job
enqueue_job-KeysUnique id now run_id stage db u = elim (Option-cases (find_job id db)) [
  | inr (j, h) ↦ rw (h, enqueue_job, is_none) u
  | inl h ↦ elim (Option-cases (find_run run_id db)) [
    | inl g ↦ rw (h, g, enqueue_job, is_none) u
    | inr (r, g) ↦
        rw (h, g, enqueue_job, is_none)
          (record {
            runs = u.runs;
            jobs = Unique-insert job_key (new_job id now run_id stage) db.jobs u.jobs h;
          })
  ]
]

-- No call ever gives two jobs or two runs one id.
pub step-KeysUnique : (db : Db) (c : ℕ × Call) → KeysUnique db → KeysUnique (step db c)
unfolding step heartbeat_job requeue_job finish_job
step-KeysUnique db (now, enqueue id run_id stage) u =
    enqueue_job-KeysUnique id now run_id stage db u
step-KeysUnique db (now, claim_next worker_id lease) u =
    claim_job-KeysUnique worker_id now lease db u
step-KeysUnique db (now, heartbeat id worker_id token lease) u =
    after-update_job-KeysUnique id (owns_live worker_id token now) _ _ db u (λ x. refl)
step-KeysUnique db (now, finish_as id worker_id token status e) u =
    elim (Bool-cases (is_final status)) [
      | inl f ↦
          rw (f, finish_job)
            (after-update_job-KeysUnique id (owns worker_id token) _ _ db u (λ x. refl))
      | inr f ↦ rw (f, finish_job) u
    ]
step-KeysUnique db (now, requeue_after id worker_id token delay e) u =
    after-update_job-KeysUnique id (owns worker_id token) _ _ db u (λ x. refl)
step-KeysUnique db (now, save r) u =
    rw (save_run_lem now r db u) (save_chosen-KeysUnique now r db (find_run r.id db) u refl)
step-KeysUnique db (now, save_leased r id worker_id token) u =
    save_run_with_lease-KeysUnique now r id worker_id token db u

-- Every job in the table.
abbrev pub AllJobs : (JobRecord → Type 0) → Db → Type 0
AllJobs P db = (k : String) (j : JobRecord) → find_job k db ≡ some j → P j

Change-AllSound : {db db' : Db} → Change db db' → AllJobs IsSound db → AllJobs IsSound db'
Change-AllSound (same e) s k j h = s k j (sym (e k) ∙ h)
Change-AllSound {db} (moved id i i' here m e) s k j h = elim (Bool-cases (id == k)) [
  | inl hit ↦ subst IsSound (ground (arith, hit, e k, h)) (JobMove-IsSound m (s id i here))
  | inr miss ↦ s k j (ground (arith, miss, e k, h))
]
Change-AllSound {db} (added id now run_id stage fresh e) s k j h = elim (Bool-cases (id == k)) [
  | inl hit ↦
      subst IsSound {x = new_job id now run_id stage} (ground (arith, hit, e k, h))
        (new_job-IsSound id now run_id stage)
  | inr miss ↦ s k j (ground (arith, miss, e k, h))
]

pub record IsConsistent (db : Db) : Type 0 where
  pub keys : KeysUnique db
  pub sound : AllJobs IsSound db

pub step-IsConsistent : (db : Db) (c : ℕ × Call) → IsConsistent db → IsConsistent (step db c)
step-IsConsistent db c v = record {
  keys = step-KeysUnique db c v.keys;
  sound = Change-AllSound (step-Change db c v.keys) v.sound;
}

-- Any history of calls, by any number of processes, failing or not, keeps the tables consistent:
-- the ids of the jobs and of the runs stay unique, each job counts one attempt per fencing token, a
-- claimed job has an owner and a deadline, any other has no deadline, and a queued one no owner.
pub run-IsConsistent : (db : Db) (cs : List (ℕ × Call)) → IsConsistent db → IsConsistent (run db cs)
unfolding run
run-IsConsistent db [] v = v
run-IsConsistent db (c ∷ cs) v = run-IsConsistent (step db c) cs (step-IsConsistent db c v)
