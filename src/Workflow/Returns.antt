-- ===== src/Workflow/Returns.antt =====
-- What `process` of backend/app/agent.py returns.
use shou_ba_shou_jiaoxue_ai.Prelude.{
  ℕ, ◌+◌, String, ◌≡◌, refl, sym, ap, ◌∙◌, subst, inl, inr, true, false, Option, none, some, arith,
  ◌=ℕ◌, if◌then◌else◌, ==_refl, Bool-cases,
}
use shou_ba_shou_jiaoxue_ai.Schemas.{RunRecord}
use shou_ba_shou_jiaoxue_ai.Result.{
  Error, Result, ok, err, lease_lost_error, key_error, is_concurrency,
}
use shou_ba_shou_jiaoxue_ai.Store.Db.{Db, RunRow, find_run, find_job}
use shou_ba_shou_jiaoxue_ai.Store.Runs.{
  save_run_with_lease, get_run, with_version, candidate, row_of,
}
use shou_ba_shou_jiaoxue_ai.Store.Update.{KeysUnique}
use shou_ba_shou_jiaoxue_ai.Store.Fencing.{run-KeysUnique}
use shou_ba_shou_jiaoxue_ai.Store.Versions.{
  save_run_with_lease_lem, has_lease, write_found, find_run-stored,
}
use shou_ba_shou_jiaoxue_ai.Approval.Gate.{is_closed}
use shou_ba_shou_jiaoxue_ai.Approval.Vote.{require_run}
use shou_ba_shou_jiaoxue_ai.Workflow.Engine.{Lease, Engine, State, resume, checkpoint, saved}
use shou_ba_shou_jiaoxue_ai.Workflow.Process.{
  process, process_run, work, started, cancelled_run, node_limit, outcome, transitions, is_running,
}
use shou_ba_shou_jiaoxue_ai.Workflow.Free.{any}
use shou_ba_shou_jiaoxue_ai.Workflow.Ended.{
  Ended, branch_if, save_leased-err, checkpoint-raises, transitions-Ended,
}
use shou_ba_shou_jiaoxue_ai.Workflow.Reach.{transitions-IsFree}
use shou_ba_shou_jiaoxue_ai.Workflow.Steps.{Steps, checkpoint-Steps}
use shou_ba_shou_jiaoxue_ai.Workflow.Writes.{Steps-run}

save_leased-get :
    (now : ℕ) (r c : RunRecord) (id worker_id : String) (token : ℕ) (db db' : Db)
    → KeysUnique db
    → save_run_with_lease now r id worker_id token db ≡ ok (c, db')
    → (c ≡ candidate now r) × (get_run r.id db' ≡ some c)
unfolding get_run with_version candidate row_of
save_leased-get now r c id worker_id token db db' u h =
    elim (Bool-cases (has_lease r.id worker_id token now (find_job id db))) [
      | inr n ↦ absurd (ground (arith, h, n, lem))
      | inl y ↦ found (find_run r.id db) refl y
    ]
  where
    lem : save_run_with_lease now r id worker_id token db ≡ (
        if has_lease r.id worker_id token now (find_job id db)
        then write_found now r db (find_run r.id db)
        else err lease_lost_error)
    lem = save_run_with_lease_lem now r id worker_id token db u

    found :
        (o : Option RunRow)
        → find_run r.id db ≡ o
        → has_lease r.id worker_id token now (find_job id db) ≡ true
        → (c ≡ candidate now r) × (get_run r.id db' ≡ some c)
    found none e y = absurd (ground (arith, h, y, lem, e))
    found (some row) e y = elim (Bool-cases (row.version =ℕ r.version)) [
      | inr n ↦ absurd (ground (arith, h, y, lem, e, n))
      | inl v ↦
          let fresh = find_run-stored now r db row e (ground (arith, v)) r.id in
          ground (arith, h, y, lem, e, v, fresh, ==_refl r.id)
    ]

Steps-KeysUnique :
    {W : Type 0} (engine : Engine W) (lease : Lease) {s t : State W}
    → Steps engine lease (any engine lease) s t
    → KeysUnique s.db
    → KeysUnique t.db
Steps-KeysUnique engine lease {s} p u =
    let (cs, a, e) = Steps-run engine lease p in subst KeysUnique (sym e) (run-KeysUnique s.db cs u)

module _ {W : Type 0} (engine : Engine W) (lease : Lease) where
  -- The run is in the store, just as it is.
  abbrev IsStored : State W → Type 0
  IsStored t = get_run t.run.id t.db ≡ some t.run

  -- An action that returns leaves a run in the store that does not go.
  abbrev IsSettled : Result (Unit {0}) × State W → Type 0
  IsSettled (err e, t) = is_concurrency e ≡ true
  IsSettled (ok d, t) = (is_running t.run.status ≡ false) × IsStored t

  checkpoint-IsSettled :
      (s : State W)
      → KeysUnique s.db
      → is_running s.run.status ≡ false
      → IsSettled (checkpoint engine lease s)
  unfolding checkpoint candidate
  checkpoint-IsSettled s u h =
      go
        (save_run_with_lease (engine.clock s.ticks) s.run lease.job_id lease.worker_id
          lease.fencing_token s.db)
        refl
    where
      go :
          (r : Result (RunRecord × Db))
          → save_run_with_lease
              (engine.clock s.ticks)
              s.run
              lease.job_id
              lease.worker_id
              lease.fencing_token
              s.db
            ≡ r
          → IsSettled (saved (record s { ticks = s.ticks + 1 }) r)
      go (err e) r =
          save_leased-err (engine.clock s.ticks) s.run lease.job_id lease.worker_id
            lease.fencing_token s.db e r
      go (ok (c, db')) r =
          let (same, got) =
            save_leased-get (engine.clock s.ticks) s.run c lease.job_id lease.worker_id
              lease.fencing_token s.db db' u r in
          (
            ap (λ (x : RunRecord). is_running x.status) same ∙ h,
            ap (λ (x : RunRecord). get_run x.id db') same ∙ got,
          )

  resume-IsSettled :
      (s : State W) (o : Result (Unit {0}) × State W)
      → KeysUnique s.db
      → Steps engine lease (any engine lease) s o.1
      → Ended o
      → IsSettled (resume (λ d. checkpoint engine lease) o)
  resume-IsSettled s (err e, t) u p h = h
  resume-IsSettled s (ok d, t) u p h = checkpoint-IsSettled t (Steps-KeysUnique engine lease p u) h

  work-IsSettled : (s : State W) → KeysUnique s.db → IsSettled (work engine lease node_limit s)
  unfolding work
  work-IsSettled s u =
      begun (checkpoint engine lease (record s { run = started engine lease s.run }))
        (checkpoint-Steps engine lease (any engine lease)
          (record s { run = started engine lease s.run }))
        (λ e t. checkpoint-raises engine lease (record s { run = started engine lease s.run }) t e)
    where
      begun :
          (o : Result (Unit {0}) × State W)
          → Steps engine lease
              (any engine lease)
              (record s { run = started engine lease s.run })
              o.1
          → ((e : Error) (t : State W) → o ≡ (err e, t) → is_concurrency e ≡ true)
          → IsSettled (
              resume
                (λ d t.
                  resume (λ d'. checkpoint engine lease) (transitions engine lease node_limit t))
                o)
      begun (err e, t) p r = r e t refl
      begun (ok d, t) p r =
          resume-IsSettled t (transitions engine lease node_limit t)
            (Steps-KeysUnique engine lease p u) (transitions-IsFree engine lease node_limit t)
            (transitions-Ended engine lease node_limit t)

  -- What processing a run comes to: there is no such run; or the run was closed, and is returned as it
  -- was with nothing done; or the store refused a save, for a lost lease or another version; or the run
  -- that is returned does not go any more, and the store holds just that run.
  pub data IsProcessed (run_id : String) (db : Db) (w : W)
      : Result RunRecord × (Db × W) → Type 0 where
    missing : get_run run_id db ≡ none → IsProcessed run_id db w (err (key_error run_id), (db, w))
    closed :
        {r : RunRecord}
        → get_run run_id db ≡ some r
        → is_closed r.status ≡ true
        → IsProcessed run_id db w (ok r, (db, w))
    refused :
        {e : Error} {out : Db × W} → is_concurrency e ≡ true → IsProcessed run_id db w (err e, out)
    settled :
        {r : RunRecord} {db' : Db} {w' : W}
        → is_running r.status ≡ false
        → get_run r.id db' ≡ some r
        → IsProcessed run_id db w (ok r, (db', w'))

  outcome-IsProcessed :
      (run_id : String) (db : Db) (w : W) (o : Result (Unit {0}) × State W)
      → IsSettled o
      → IsProcessed run_id db w (outcome engine lease o)
  outcome-IsProcessed run_id db w (err e, t) h = refused h
  outcome-IsProcessed run_id db w (ok d, t) h = settled h.0 h.1

  -- Processing a run always comes to one of these: no exception of a node gets out of it.
  pub process-IsProcessed :
      (run_id : String) (db : Db) (w : W)
      → KeysUnique db
      → IsProcessed run_id db w (process engine lease run_id db w)
  unfolding process process_run require_run
  process-IsProcessed run_id db w u = go (get_run run_id db) refl
    where
      go :
          (o : Option RunRecord)
          → get_run run_id db ≡ o
          → IsProcessed run_id db w (process engine lease run_id db w)
      go none e = rw (e, process) (missing e)
      go (some r) e = elim (Bool-cases (is_closed r.status)) [
        | inl c ↦ rw (e, c, process) (closed e c)
        | inr c ↦
            let s : State W = record { run = r; db = db; world = w; ticks = 0 } in
            rw (e, c, process)
              (outcome-IsProcessed run_id db w _ (
                branch_if IsSettled r.cancellation_requested s _ _
                  (λ q.
                    checkpoint-IsSettled (record s { run = cancelled_run engine lease r }) u refl)
                  (λ q. work-IsSettled s u)))
      ]
