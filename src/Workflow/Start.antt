-- ===== src/Workflow/Start.antt =====
-- `start` of backend/app/agent.py: a run is saved, and a job for it is enqueued.
use shou_ba_shou_jiaoxue_ai.Prelude.{ℕ, String, ◌≡◌, ap, ◌∙◌, false, none, some, [], arith, ==_refl}
use shou_ba_shou_jiaoxue_ai.Schemas.{
  RunStatus, Node, PolicyDecision, UserIdentity, Incident, RunRecord,
}
use shou_ba_shou_jiaoxue_ai.Schemas.{low, not_required, start as start_stage}
use shou_ba_shou_jiaoxue_ai.Result.{ok}
use shou_ba_shou_jiaoxue_ai.Store.Db.{Db, find_job}
use shou_ba_shou_jiaoxue_ai.Store.Runs.{save_run, get_run}
use shou_ba_shou_jiaoxue_ai.Store.Jobs.{new_job}
use shou_ba_shou_jiaoxue_ai.Approval.Decide.{
  enqueue_after-ok, enqueue_job-ok, commit-ok, get_run-runs,
}
use shou_ba_shou_jiaoxue_ai.Store.Table.{find}
use shou_ba_shou_jiaoxue_ai.Store.Table.Laws.{find-insert}
use shou_ba_shou_jiaoxue_ai.Store.Db.{job_key}
use shou_ba_shou_jiaoxue_ai.Store.Update.{KeysUnique}
use shou_ba_shou_jiaoxue_ai.Store.LostUpdate.{save-get}
use shou_ba_shou_jiaoxue_ai.Approval.Gate.{audited}
use shou_ba_shou_jiaoxue_ai.Approval.Actions.{Exec, commit, enqueue_after}

abbrev no_policy : PolicyDecision
no_policy = record {
  accepted = false;
  plan_hash = none;
  effective_risk = low;
  required_roles = [];
  issues = [];
}

-- The record's defaults in backend/app/schemas.py, and the fields that `start` gives.
unfoldable pub queued_run : String → Incident → String → String → RunRecord
queued_run id incident actor tenant = audited actor "run.created" (record {
  id = id;
  incident = incident;
  tenant_id = tenant;
  created_by = actor;
  status = RunStatus.queued;
  current_node = Node.intake;
  updated_at = 0;
  version = 0;
  attempt = 0;
  max_attempts = 3;
  cancellation_requested = false;
  diagnosis = "";
  sources = [];
  investigation_plan = [];
  investigation_policy = no_policy;
  observations = [];
  plan = [];
  policy = no_policy;
  risk_level = low;
  approval = record {
    required = false;
    decision = not_required;
    plan_hash = none;
    required_roles = [];
    required_approvals = 0;
    separation_of_duties = false;
    requester = none;
    votes = [];
    decided_by = none;
    decided_roles = [];
    note = none;
  };
  tool_results = [];
  verification = [];
  resolution = "";
  audit = [];
  lease_history = [];
  error_code = none;
  error_detail = none;
})

-- The ids come from `uuid4`, the times of the two transactions from the clock. The actor is a user.
unfoldable pub start : String → String → ℕ → ℕ → Incident → UserIdentity → Exec RunRecord
start run_id job_id now later incident actor db =
    enqueue_after job_id later start_stage
      (commit db (save_run now (queued_run run_id incident actor.username actor.tenant_id) db))

-- When a run has been started, the store holds it, queued at its first node, and a queued job for it
-- that is available at once.
pub record IsQueued (job_id : String) (later : ℕ) (run : RunRecord) (db : Db) : Type 0 where
  pub stored : get_run run.id db ≡ some run
  pub status : run.status ≡ RunStatus.queued
  pub node : run.current_node ≡ Node.intake
  pub job : find_job job_id db ≡ some (new_job job_id later run.id start_stage)

-- A start that returns has saved the run, queued at its first node, and enqueued a job for it that is
-- available at once, so that a worker can take it.
pub start-IsQueued :
    (run_id job_id : String) (now later : ℕ) (incident : Incident) (actor : UserIdentity)
    (db db' : Db) (run : RunRecord)
    → KeysUnique db
    → start run_id job_id now later incident actor db ≡ (ok run, db')
    → IsQueued job_id later run db'
unfolding start queued_run
start-IsQueued run_id job_id now later incident actor db db' run u h =
    let first = queued_run run_id incident actor.username actor.tenant_id in
    let (d, j, m, q) = enqueue_after-ok start_stage job_id later _ run db' h in
    let (f, g) = save-get now first run db d u (commit-ok db (save_run now first db) m) in
    let (runs, jobs, fresh) = enqueue_job-ok start_stage job_id later run.id d j db' q in
    record {
      stored = get_run-runs run.id db' d runs ∙ ap (λ (r : RunRecord). get_run r.id d) f ∙ g;
      status = ap (λ (r : RunRecord). r.status) f;
      node = ap (λ (r : RunRecord). r.current_node) f;
      job =
          ap (find job_key job_id) jobs
          ∙ ground (
            arith,
            find-insert job_key job_id (new_job job_id later run.id start_stage) d.jobs,
            fresh,
            ==_refl job_id,
          );
    }
