-- ===== src/Store/LostUpdate.antt =====
-- No lost update: the version column of backend/app/store.py over any interleaving of calls.
use shou_ba_shou_jiaoxue_ai.Prelude.{
  ℕ, suc, ◌+◌, ◌≤◌, String, ◌≡◌, refl, sym, ap, ◌∙◌, subst, ◌⊎◌, inl, inr, Bool, Option, none, some,
  List, [], ◌∷◌, arith, ◌=ℕ◌, ◌==◌, eq_of_==, ==_refl, Bool-cases,
}
use shou_ba_shou_jiaoxue_ai.Schemas.{Stage, is_final, RunRecord, JobRecord}
use shou_ba_shou_jiaoxue_ai.Result.{Error, ok, err, concurrency_error, lease_lost_error}
use shou_ba_shou_jiaoxue_ai.Store.Table.{find}
use shou_ba_shou_jiaoxue_ai.Store.Table.Laws.{find-insert}
use shou_ba_shou_jiaoxue_ai.Store.Db.{Db, RunRow, run_key, find_job, find_run, after}
use shou_ba_shou_jiaoxue_ai.Store.Runs.{
  save_run, save_run_with_lease, get_run, with_version, candidate, row_of,
}
use shou_ba_shou_jiaoxue_ai.Store.Jobs.{
  enqueue_job, heartbeat_job, finish_job, requeue_job, update_job,
}
use shou_ba_shou_jiaoxue_ai.Store.Update.{KeysUnique}
use shou_ba_shou_jiaoxue_ai.Store.Claim.{claim_job_lem, claim_chosen, chosen}
use shou_ba_shou_jiaoxue_ai.Store.Calls.{
  Call, enqueue, claim_next, heartbeat, finish_as, requeue_after, save, save_leased, step, run,
}
use shou_ba_shou_jiaoxue_ai.Store.Versions.{
  saved, stored, write_found, save_chosen, save_run_lem, save_run_with_lease_lem, find_run-stored,
  has_lease,
}
use shou_ba_shou_jiaoxue_ai.Store.History.{step-KeysUnique}
use shou_ba_shou_jiaoxue_ai.Store.Fencing.{run-KeysUnique}

-- The run of an id is there, at this version or a later one.
abbrev Holds : String → ℕ → List RunRow → Type 0
Holds id v rows = (row : RunRow) × (find run_key id rows ≡ some row) × (v ≤ row.version)

abbrev pub AtLeast : String → ℕ → Db → Type 0
AtLeast id v db = Holds id v db.runs

AtLeast-same :
    (id : String) (v : ℕ) {rows rows' : List RunRow}
    → rows' ≡ rows
    → Holds id v rows
    → Holds id v rows'
AtLeast-same id v e (row, h, l) = (row, ap (find run_key id) e ∙ h, l)

update_job-runs :
    (id : String) (q : JobRecord → Bool) (f : JobRecord → JobRecord) (e : Error) (db : Db)
    → (after db (update_job id q f e db)).runs ≡ db.runs
unfolding update_job
update_job-runs id q f e db = ground arith

enqueue_job-runs :
    (id : String) (now : ℕ) (run_id : String) (stage : Stage) (db : Db)
    → (after db (enqueue_job id now run_id stage db)).runs ≡ db.runs
unfolding enqueue_job
enqueue_job-runs id now run_id stage db = ground arith

claim_chosen-runs :
    (worker_id : String) (now lease : ℕ) (db : Db) (o : Option JobRecord)
    → (after db (claim_chosen worker_id now lease db o)).runs ≡ db.runs
claim_chosen-runs worker_id now lease db none = refl
claim_chosen-runs worker_id now lease db (some row) = refl

-- A save over the row that is there, seen from any run.
stored-AtLeast :
    (id : String) (v now : ℕ) (r : RunRecord) (db : Db) (row : RunRow)
    → find_run r.id db ≡ some row
    → row.version ≡ r.version
    → AtLeast id v db
    → AtLeast id v (stored now r db)
unfolding candidate row_of
stored-AtLeast id v now r db row here current (x, h, l) = elim (Bool-cases (r.id == id)) [
  | inl hit ↦ (
    saved now r,
    ground (arith, hit, find_run-stored now r db row here current id),
    ground (arith, eq_of_== r.id id hit, here, h),
  )
  | inr miss ↦ (x, ground (arith, miss, h, find_run-stored now r db row here current id), l)
]

write_found-AtLeast :
    (id : String) (v now : ℕ) (r : RunRecord) (db : Db) (o : Option RunRow)
    → find_run r.id db ≡ o
    → AtLeast id v db
    → AtLeast id v (after db (write_found now r db o))
write_found-AtLeast id v now r db none h a = a
write_found-AtLeast id v now r db (some row) h a = elim (Bool-cases (row.version =ℕ r.version)) [
  | inl e ↦ rw e (stored-AtLeast id v now r db row h (ground arith) a)
  | inr e ↦ rw e a
]

save_chosen-AtLeast :
    (id : String) (v now : ℕ) (r : RunRecord) (db : Db) (o : Option RunRow)
    → find_run r.id db ≡ o
    → AtLeast id v db
    → AtLeast id v (after db (save_chosen now r db o))
save_chosen-AtLeast id v now r db none h (x, g, l) = elim (Bool-cases (r.version =ℕ 0)) [
  | inl e ↦ rw e (x, ground (arith, g, find-insert run_key id (saved now r) db.runs), l)
  | inr e ↦ rw e (x, g, l)
]
save_chosen-AtLeast id v now r db (some row) h a = write_found-AtLeast id v now r db (some row) h a

step-AtLeast :
    (id : String) (v : ℕ) (db : Db) (c : ℕ × Call)
    → KeysUnique db
    → AtLeast id v db
    → AtLeast id v (step db c)
unfolding step heartbeat_job finish_job requeue_job
step-AtLeast id v db (now, heartbeat k w t l) u a = AtLeast-same id v (update_job-runs k _ _ _ db) a
step-AtLeast id v db (now, finish_as k w t s e) u a = elim (Bool-cases (is_final s)) [
  | inl f ↦ rw (f, finish_job) (AtLeast-same id v (update_job-runs k _ _ _ db) a)
  | inr f ↦ rw (f, finish_job) a
]
step-AtLeast id v db (now, requeue_after k w t d e) u a =
    AtLeast-same id v (update_job-runs k _ _ _ db) a
step-AtLeast id v db (now, claim_next w l) u a =
    rw (claim_job_lem w now l db u)
      (AtLeast-same id v (claim_chosen-runs w now l db (chosen now db)) a)
step-AtLeast id v db (now, enqueue k r s) u a = AtLeast-same id v (enqueue_job-runs k now r s db) a
step-AtLeast id v db (now, save r) u a =
    rw (save_run_lem now r db u) (save_chosen-AtLeast id v now r db (find_run r.id db) refl a)
step-AtLeast id v db (now, save_leased r k w t) u a =
    rw (save_run_with_lease_lem now r k w t db u)
      (elim (Bool-cases (has_lease r.id w t now (find_job k db))) [
        | inl e ↦ rw e (write_found-AtLeast id v now r db (find_run r.id db) refl a)
        | inr e ↦ rw e a
      ])

run-AtLeast :
    (id : String) (v : ℕ) (db : Db) (cs : List (ℕ × Call))
    → KeysUnique db
    → AtLeast id v db
    → AtLeast id v (run db cs)
unfolding run
run-AtLeast id v db [] u a = a
run-AtLeast id v db (c ∷ cs) u a =
    run-AtLeast id v (step db c) cs (step-KeysUnique db c u) (step-AtLeast id v db c u a)

save_chosen-saved :
    (now : ℕ) (r r' : RunRecord) (db db' : Db) (o : Option RunRow)
    → find_run r.id db ≡ o
    → save_chosen now r db o ≡ ok (r', db')
    → (r' ≡ candidate now r) × (find_run r.id db' ≡ some (saved now r))
unfolding candidate row_of
save_chosen-saved now r r' db db' none h e =
    ground (arith, find-insert run_key r.id (saved now r) db.runs, h, ==_refl r.id)
save_chosen-saved now r r' db db' (some row) h e = elim (Bool-cases (row.version =ℕ r.version)) [
  | inl c ↦ ground (arith, c, find_run-stored now r db row h (ground arith) r.id, ==_refl r.id)
  | inr c ↦ ground (arith, c)
]

-- A save that succeeds returns the run at the next version and stamped with the time, and a read
-- finds just that run.
pub save-get :
    (now : ℕ) (r r' : RunRecord) (db db' : Db)
    → KeysUnique db
    → save_run now r db ≡ ok (r', db')
    → (r' ≡ record r { version = r.version + 1; updated_at = now }) × (get_run r.id db' ≡ some r')
unfolding get_run with_version candidate row_of
save-get now r r' db db' u e =
    let (c, f) =
      save_chosen-saved now r r' db db' (find_run r.id db) refl
        (sym (save_run_lem now r db u) ∙ e) in
    (c, rw (f, get_run) (ap some (sym c)))

-- A run that was read at an earlier version cannot be saved.
behind :
    (now : ℕ) (s : RunRecord) (db : Db)
    → KeysUnique db
    → AtLeast s.id (suc s.version) db
    → (save_run now s db ≡ err concurrency_error)
      × ((job_id worker_id : String) (token : ℕ)
          → (save_run_with_lease now s job_id worker_id token db ≡ err concurrency_error)
            ⊎ (save_run_with_lease now s job_id worker_id token db ≡ err lease_lost_error))
behind now s db u (row, h, l) = (
  save_run_lem now s db u ∙ ground (arith, h),
  λ job_id worker_id token.
      elim (Bool-cases (has_lease s.id worker_id token now (find_job job_id db))) [
        | inl e ↦
            inl (save_run_with_lease_lem now s job_id worker_id token db u ∙ ground (arith, e, h))
        | inr e ↦
            inr (save_run_with_lease_lem now s job_id worker_id token db u ∙ ground (arith, e))
      ],
)

-- The run is saved, without a lease or under one, with these tables after.
pub data IsSaved (now : ℕ) (r : RunRecord) (db : Db) (r' : RunRecord) (db' : Db) : Type 0 where
  plainly : save_run now r db ≡ ok (r', db') → IsSaved now r db r' db'
  leased :
      (job_id worker_id : String) (token : ℕ)
      → save_run_with_lease now r job_id worker_id token db ≡ ok (r', db')
      → IsSaved now r db r' db'

write_found-saved :
    (now : ℕ) (r r' : RunRecord) (db db' : Db) (o : Option RunRow)
    → find_run r.id db ≡ o
    → write_found now r db o ≡ ok (r', db')
    → find_run r.id db' ≡ some (saved now r)
write_found-saved now r r' db db' none h e = ground (arith, e)
write_found-saved now r r' db db' (some row) h e =
    (save_chosen-saved now r r' db db' (some row) h e).1

-- Either way, the row of the run is the saved one, and the keys stay unique.
IsSaved-row :
    (now : ℕ) (r r' : RunRecord) (db db' : Db)
    → KeysUnique db
    → IsSaved now r db r' db'
    → KeysUnique db' × (find_run r.id db' ≡ some (saved now r))
unfolding step
IsSaved-row now r r' db db' u (plainly e) = (
  subst KeysUnique (ap (after db) e) (step-KeysUnique db (now, save r) u),
  (save_chosen-saved now r r' db db' (find_run r.id db) refl (sym (save_run_lem now r db u) ∙ e)).1,
)
IsSaved-row now r r' db db' u (leased k w t e) = (
  subst KeysUnique (ap (after db) e) (step-KeysUnique db (now, save_leased r k w t) u),
  elim (Bool-cases (has_lease r.id w t now (find_job k db))) [
    | inl y ↦
        write_found-saved now r r' db db' (find_run r.id db) refl
          (rw y at (sym (save_run_with_lease_lem now r k w t db u) ∙ e))
    | inr n ↦ absurd (ground (arith, e, n, save_run_with_lease_lem now r k w t db u))
  ],
)

-- Two writers that read one version of a run: when the first has saved, with a lease or without one,
-- the save of the second raises ConcurrencyError, whatever calls came between; with a lease it raises
-- that or LeaseLostError.
pub save_conflict :
    (now : ℕ) (r r' : RunRecord) (db db' : Db) (cs : List (ℕ × Call)) (later : ℕ) (s : RunRecord)
    → KeysUnique db
    → IsSaved now r db r' db'
    → s.id ≡ r.id
    → s.version ≡ r.version
    → (save_run later s (run db' cs) ≡ err concurrency_error)
      × ((job_id worker_id : String) (token : ℕ)
          → (save_run_with_lease later s job_id worker_id token (run db' cs)
              ≡ err concurrency_error)
            ⊎ (save_run_with_lease later s job_id worker_id token (run db' cs)
                ≡ err lease_lost_error))
unfolding candidate row_of
save_conflict now r r' db db' cs later s u e same_id same_version =
    let (u', f) = IsSaved-row now r r' db db' u e in
    behind later s (run db' cs) (run-KeysUnique db' cs u') (
      run-AtLeast s.id (suc s.version) db' cs u'
        (saved now r, rw same_id f, omega (arith, same_version)))
