-- ===== src/Worker/Settled.antt =====
-- What `AgentWorker.run_once` of backend/app/worker.py leaves behind.
use shou_ba_shou_jiaoxue_ai.Prelude.{
  ℕ, ◌^◌, ◌<◌, min, ◌≡◌, refl, sym, ap, ◌∙◌, subst, inl, inr, Bool, true, false, none, some, List,
  [], ◌∷◌, arith, ltb, if◌then◌else◌, Bool-cases,
}
use shou_ba_shou_jiaoxue_ai.Schemas.{JobStatus, JobRecord}
use shou_ba_shou_jiaoxue_ai.Result.{
  Error, Result, ok, err, lease_lost_error, type_error, concurrency_error, integrity_error,
  key_error, value_error, authorization_error, authentication_error, http_exception,
}
use shou_ba_shou_jiaoxue_ai.Store.Db.{Db, find_job, after}
use shou_ba_shou_jiaoxue_ai.Store.Jobs.{heartbeat_job, claim_job}
use shou_ba_shou_jiaoxue_ai.Store.Update.{KeysUnique}
use shou_ba_shou_jiaoxue_ai.Store.Fencing.{
  IsFenced, IsFenced-of_later, run-KeysUnique, after_claim-KeysUnique,
}
use shou_ba_shou_jiaoxue_ai.Store.Calls.{Call, heartbeat, run, step}
use shou_ba_shou_jiaoxue_ai.Worker.Once.{
  Event, beat, other, heard, watch_step, watch, Worker, Engine, Watch, Settled, gave_back,
  failed_with, retry_or_fail, is_lease_lost, conclude, took, watched, run_once,
}

-- A settlement that writes nothing: the worker goes on, the tables stay.
abbrev pub WritesNothing : Settled → Db → Type 0
WritesNothing r db = (r.0 ≡ ok true) × (r.2 ≡ db)

retry_or_fail-stale :
    (e : Engine) (job : JobRecord) (w : Worker) (now : ℕ) (db : Db) (x : Error)
    → IsFenced job.id job.fencing_token db
    → WritesNothing (retry_or_fail e job w now db x) db
unfolding retry_or_fail gave_back
retry_or_fail-stale e job w now db x f = elim (Bool-cases (ltb job.attempts 3)) [
  | inl early ↦
      let q = f.requeue w.worker_id (min (2 ^ job.attempts) 8) (e.report x) now in
      (ground (arith, early, q), ground (arith, early, q))
  | inr late ↦
      let q = f.finish w.worker_id JobStatus.failed (some (e.report x)) now refl in
      (ground (arith, late, q), ground (arith, late, q))
]

failed_with-stale :
    (e : Engine) (job : JobRecord) (w : Worker) (now : ℕ) (db : Db) (x : Error)
    → IsFenced job.id job.fencing_token db
    → WritesNothing (failed_with e job w now db x) db
unfolding failed_with
failed_with-stale e job w now db x f = elim (Bool-cases (is_lease_lost x)) [
  | inl y ↦ rw (y, failed_with) (refl, refl)
  | inr y ↦ rw (y, failed_with) (retry_or_fail-stale e job w now db x f)
]

conclude-stale :
    (e : Engine) (job : JobRecord) (s : Watch) (now : ℕ)
    → IsFenced job.id job.fencing_token s.db
    → WritesNothing (conclude e job s now) s.db
unfolding conclude
conclude-stale e job s now f = go (e.outcome job) refl s.lost refl
  where
    go :
        (o : Result (Unit {0}))
        → e.outcome job ≡ o
        → (l : Bool) → s.lost ≡ l
        → WritesNothing (conclude e job s now) s.db
    go (err x) h l g = rw (h, conclude) (failed_with-stale e job s.worker now s.db x f)
    go (ok u) h true g =
        rw (h, g, conclude) (failed_with-stale e job s.worker now s.db lease_lost_error f)
    go (ok u) h false g =
        rw (h, g, f.finish s.worker.worker_id JobStatus.succeeded none now refl, conclude)
          (failed_with-stale e job s.worker now s.db lease_lost_error f)

heard-after :
    (e : Engine) (s : Watch) (m : Result (JobRecord × Db)) → (heard e s m).db ≡ after s.db m
unfolding heard
heard-after e s (ok (j, db)) = refl
heard-after e s (err lease_lost_error) = refl
heard-after e s (err concurrency_error) = refl
heard-after e s (err integrity_error) = refl
heard-after e s (err type_error) = refl
heard-after e s (err (key_error m)) = refl
heard-after e s (err (value_error m)) = refl
heard-after e s (err (authorization_error m)) = refl
heard-after e s (err (authentication_error m)) = refl
heard-after e s (err (http_exception n m)) = refl

-- What happens to the tables meanwhile is a history of calls.
watch-run :
    (e : Engine) (job : JobRecord) (s : Watch) (xs : List (ℕ × Event))
    → (cs : List (ℕ × Call)) × ((watch e job s xs).db ≡ run s.db cs)
unfolding watch watch_step run step
watch-run e job s [] = ([], refl)
watch-run e job s ((now, other c) ∷ xs) =
    let (cs, h) = watch-run e job (watch_step e job s (now, other c)) xs in ((now, c) ∷ cs, h)
watch-run e job s ((now, beat) ∷ xs) =
    let back =
      heartbeat_job job.id s.worker.worker_id job.fencing_token s.worker.lease_seconds now s.db in
    let (cs, h) = watch-run e job (watch_step e job s (now, beat)) xs in
    elim (Bool-cases s.lost) [
      | inl l ↦ (cs, h ∙ ap (λ d. run d cs) (ground (arith, l)))
      | inr l ↦ (
        (now, heartbeat job.id s.worker.worker_id job.fencing_token s.worker.lease_seconds) ∷ cs,
        h
            ∙ ap (λ d. run d cs)
                (ap (λ b. (if b then s else heard e s back).db) l ∙ heard-after e s back),
      )
    ]

abbrev pub opened : Worker → JobRecord → Db → Watch
opened w job db = record { worker = took w job; lost = false; db = db }

pub watched-KeysUnique :
    (e : Engine) (now : ℕ) (w : Worker) (db db' : Db) (job : JobRecord)
    → KeysUnique db
    → claim_job w.worker_id now w.lease_seconds db ≡ ok (some job, db')
    → KeysUnique (watched e w job db').db
unfolding watched
watched-KeysUnique e now w db db' job u c =
    let (cs, h) = watch-run e job (opened w job db') (e.calls job) in
    subst KeysUnique (sym h)
      (run-KeysUnique db' cs (after_claim-KeysUnique w.worker_id now w.lease_seconds db u c))

-- A worker whose job has gone to a later token while the engine ran writes nothing any more: whatever
-- the engine returns or raises, and whether or not a heartbeat noticed, the worker leaves the tables as
-- they then are and goes on to the next job.
pub run_once-stale :
    (e : Engine) (now later : ℕ) (w : Worker) (db db' : Db) (job j : JobRecord)
    → KeysUnique db
    → claim_job w.worker_id now w.lease_seconds db ≡ ok (some job, db')
    → find_job job.id (watched e w job db').db ≡ some j
    → job.fencing_token < j.fencing_token
    → WritesNothing (run_once e now later w db) (watched e w job db').db
unfolding run_once
run_once-stale e now later w db db' job j u c h old =
    rw (c, run_once)
      (conclude-stale e job (watched e w job db') later (
        IsFenced-of_later job.id job.fencing_token (watched e w job db').db j
          (watched-KeysUnique e now w db db' job u c) h old))
