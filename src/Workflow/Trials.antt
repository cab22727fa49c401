-- ===== src/Workflow/Trials.antt =====
-- The engine of backend/app/agent.py on a run of one step, against a client that counts its calls.
use shou_ba_shou_jiaoxue_ai.Prelude.{
  ℕ, suc, ◌+◌, ◌≡◌, refl, true, false, none, some, List, [], ◌∷◌, arith, ◌==◌,
}
use shou_ba_shou_jiaoxue_ai.Schemas.{
  RunStatus, JobStatus, Stage, Node, RollbackMode, PlanStep, RunRecord, JobRecord,
}
use shou_ba_shou_jiaoxue_ai.Value.{end, field, int}
use shou_ba_shou_jiaoxue_ai.Schemas.{low, gte, approved, approve}
use shou_ba_shou_jiaoxue_ai.Samples.{new_run}
use shou_ba_shou_jiaoxue_ai.Result.{ok}
use shou_ba_shou_jiaoxue_ai.Store.Db.{Db, seconds}
use shou_ba_shou_jiaoxue_ai.Store.Jobs.{
  claim_job, claimed_by, claimable, new_job, enqueue_job, is_none,
}
use shou_ba_shou_jiaoxue_ai.Store.Runs.{save_run, row_of, candidate}
use shou_ba_shou_jiaoxue_ai.Approval.Actions.{enqueue_after}
use shou_ba_shou_jiaoxue_ai.Workflow.Start.{start, queued_run, IsQueued, start-IsQueued}
use shou_ba_shou_jiaoxue_ai.Schemas.{start as start_stage}
use shou_ba_shou_jiaoxue_ai.Store.Db.{empty}
use shou_ba_shou_jiaoxue_ai.Samples.{lead}
use shou_ba_shou_jiaoxue_ai.Store.Update.{KeysUnique}
use shou_ba_shou_jiaoxue_ai.Store.Table.{find, insert, update_where, least_where}
use shou_ba_shou_jiaoxue_ai.Store.Calls.{Call, run}
use shou_ba_shou_jiaoxue_ai.Executor.Execute.{Client}
use shou_ba_shou_jiaoxue_ai.Workflow.Engine.{Lease, Engine, State}
use shou_ba_shou_jiaoxue_ai.Workflow.Act.{node_execute}
use shou_ba_shou_jiaoxue_ai.Workflow.Verify.{node_verify}
use shou_ba_shou_jiaoxue_ai.Workflow.Process.{process, process_run, node_limit}
use shou_ba_shou_jiaoxue_ai.Workflow.Steps.{Steps}
use shou_ba_shou_jiaoxue_ai.Workflow.Approved.{due_calls, node_execute-Steps}
use shou_ba_shou_jiaoxue_ai.Workflow.Executed.{LetsOn, node_execute-LetsOn}
use shou_ba_shou_jiaoxue_ai.Workflow.Verified.{Lets, node_verify-Lets}
use shou_ba_shou_jiaoxue_ai.Workflow.Returns.{IsProcessed, process-IsProcessed}
use shou_ba_shou_jiaoxue_ai.Workflow.Limit.{process_run-limit}
use shou_ba_shou_jiaoxue_ai.Workflow.Writes.{AllOwn, process-run, IsIdle, stale_process-IsIdle}

-- Each call answers with the replicas that it finds.
abbrev counting : Client ℕ
counting name input key token tenant n = (
  ok (record {
    status = "succeeded";
    summary = name;
    output = field "replicas" (int 3) end;
    error = none;
  }),
  suc n,
)

abbrev demo : Engine ℕ
demo = record {
  tools = record {
    model_validate = λ name input. some input;
    idempotency_key = λ run_id plan step_id input. step_id;
    failure_key = λ run_id step_id input. "refused";
    payload_hash = λ input. "hash";
    sign = λ s. "token";
    ttl_seconds = 90;
    client = counting;
    report = λ e. "error";
  };
  plan_digest = λ plan. "d2c7";
  max_steps = 8;
  quorum = record { medium_risk = 1; high_risk = 2; separation = true };
  search = λ query limit preferred. ok [];
  propose = λ incident sources observations. ok (record {
    diagnosis = "nothing to do";
    plan = [];
    needs_handoff = true;
    handoff_reason = none;
  });
  report = λ e. "error";
  parse_int = λ s. none;
  clock = λ n. seconds 100 + n;
  fresh_id = λ n. "ID";
}

abbrev lease : Lease
lease = record { job_id = "job-1"; worker_id = "w1"; fencing_token = 1; recovered = false }

abbrev scale : PlanStep
scale = record {
  id = "step-scale";
  tool_name = "scale_workers";
  tool_input = field "target_replicas" (int 3) end;
  evidence_ids = [];
  depends_on = [];
  preconditions = [];
  success_criteria =
      record { name = "replicas"; operator = gte; value = int 3; description = "three replicas" }
      ∷ [];
  rollback = record { mode = RollbackMode.manual; tool_name = none; tool_input = end };
  risk = low;
}

abbrev planned_run : RunRecord
planned_run = record new_run {
  status = RunStatus.running;
  current_node = Node.execute;
  version = 1;
  plan = scale ∷ [];
  policy = record {
    accepted = true;
    plan_hash = some "d2c7";
    effective_risk = low;
    required_roles = "on-call-lead" ∷ [];
    issues = [];
  };
  approval = record {
    required = true;
    decision = approved;
    plan_hash = some "d2c7";
    required_roles = "on-call-lead" ∷ [];
    required_approvals = 1;
    separation_of_duties = true;
    requester = some "duty@harbor.local";
    votes =
        record {
          approver = "lead@harbor.local";
          display_name = "Lead";
          roles = "on-call-lead" ∷ [];
          tenant_id = "xm-ops";
          plan_hash = "d2c7";
          decision = approve;
          note = "";
        }
        ∷ [];
    decided_by = some "lead@harbor.local";
    decided_roles = "on-call-lead" ∷ "operator" ∷ [];
    note = none;
  };
}

abbrev leased_job : JobRecord
leased_job = record {
  id = "job-1";
  run_id = "run-1";
  stage = Stage.start;
  status = JobStatus.claimed;
  owner = some "w1";
  lease_until = some (seconds 200);
  fencing_token = 1;
  attempts = 1;
  available_at = 0;
  created_at = 0;
  updated_at = 0;
  last_error = none;
}

abbrev tables : RunRecord → JobRecord → Db
tables r j = record {
  runs = record { id = r.id; payload = r; updated_at = 0; version = r.version } ∷ [];
  jobs = j ∷ [];
}

abbrev planned : State ℕ
planned = record { run = planned_run; db = tables planned_run leased_job; world = 0; ticks = 0 }

node_execute-Steps_example :
    Steps demo lease (due_calls planned_run) planned (node_execute demo lease planned).1
node_execute-Steps_example = node_execute-Steps demo lease planned

node_execute-LetsOn_example : LetsOn demo lease (scale ∷ []) (node_execute demo lease planned)
node_execute-LetsOn_example = node_execute-LetsOn demo lease planned

node_verify-Lets_example : Lets demo lease (scale ∷ []) (node_verify demo lease planned)
node_verify-Lets_example = node_verify-Lets demo lease planned

process_run-limit_example :
    process_run demo lease 10 planned ≡ process_run demo lease node_limit planned
process_run-limit_example = process_run-limit demo lease 10 planned (omega arith)

process-run_example :
    (cs : List (ℕ × Call)) × AllOwn lease cs
    × ((process demo lease "run-1" (tables planned_run leased_job) 0).1.0
        ≡ run (tables planned_run leased_job) cs)
process-run_example = process-run demo lease "run-1" (tables planned_run leased_job) 0

tables-KeysUnique : KeysUnique (tables planned_run leased_job)
unfolding find
tables-KeysUnique = record { runs = (refl, tt); jobs = (refl, tt) }

process-IsProcessed_example :
    IsProcessed demo lease "run-1"
      (tables planned_run leased_job)
      0
      (process demo lease "run-1" (tables planned_run leased_job) 0)
process-IsProcessed_example =
    process-IsProcessed demo lease "run-1" (tables planned_run leased_job) 0 tables-KeysUnique

-- A second worker takes the job when its lease is over.
abbrev retaken_job : JobRecord
retaken_job = claimed_by "w2" (seconds 300) (seconds 360) 2 leased_job

takes_over :
    claim_job "w2" (seconds 300) 60 (tables planned_run leased_job)
    ≡ ok (some retaken_job, tables planned_run retaken_job)
unfolding claim_job least_where find update_where claimable claimed_by ◌==◌
takes_over = refl

stale_process-IsIdle_example :
    IsIdle demo lease
      (tables planned_run retaken_job)
      0
      (process demo lease "run-1" (tables planned_run retaken_job) 0)
unfolding run claimed_by
stale_process-IsIdle_example =
    stale_process-IsIdle demo lease "w2" (seconds 300) 60 (tables planned_run leased_job)
      (tables planned_run retaken_job) retaken_job [] "run-1" 0 tables-KeysUnique takes_over refl
      (omega arith)

abbrev begun : RunRecord
begun = record (queued_run "run-1" new_run.incident "lead@harbor.local" "xm-ops") {
  version = 1;
  updated_at = 5;
}

abbrev begun_db : Db
begun_db = record {
  runs = record { id = "run-1"; payload = begun; updated_at = 5; version = 1 } ∷ [];
  jobs = new_job "job-1" 6 "run-1" start_stage ∷ [];
}

begins : start "run-1" "job-1" 5 6 new_run.incident lead empty ≡ (ok begun, begun_db)
unfolding start queued_run enqueue_after save_run enqueue_job find insert row_of candidate is_none
    ◌==◌
begins = refl

start-IsQueued_example : IsQueued "job-1" 6 begun begun_db
start-IsQueued_example =
    start-IsQueued "run-1" "job-1" 5 6 new_run.incident lead empty begun_db begun
      (record { runs = tt; jobs = tt }) begins
