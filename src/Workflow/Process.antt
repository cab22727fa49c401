-- ===== src/Workflow/Process.antt =====
-- `process` and `_run_node` of backend/app/agent.py: the loop over the nodes.
use shou_ba_shou_jiaoxue_ai.Prelude.{
  ℕ, zero, suc, ◌+◌, String, Bool, true, false, Option, none, some, [], ◌∷◌, ◌++◌, if◌then◌else◌,
}
use shou_ba_shou_jiaoxue_ai.Schemas.{RunStatus, Node, LeaseAction, RunRecord}
use shou_ba_shou_jiaoxue_ai.Result.{
  Error, Result, ok, err, key_error, value_error, authorization_error, authentication_error,
  http_exception, concurrency_error, lease_lost_error, integrity_error, type_error,
}
use shou_ba_shou_jiaoxue_ai.Texts.{joined}
use shou_ba_shou_jiaoxue_ai.Store.Db.{Db}
use shou_ba_shou_jiaoxue_ai.Approval.Gate.{audited, is_closed}
use shou_ba_shou_jiaoxue_ai.Approval.Vote.{require_run}
use shou_ba_shou_jiaoxue_ai.Workflow.Engine.{
  Lease, Engine, State, Action, pure, modify, with_run, ◌>>◌, checkpoint, failed_run,
}
use shou_ba_shou_jiaoxue_ai.Workflow.Nodes.{
  node_intake, node_retrieve, node_investigate, node_observe, node_diagnose, node_policy, node_gate,
}
use shou_ba_shou_jiaoxue_ai.Workflow.Act.{node_execute, node_finalize}
use shou_ba_shou_jiaoxue_ai.Workflow.Verify.{node_verify}

-- type(exc).__name__.upper(), for the exceptions that the model has
abbrev pub class_name : Error → String
class_name (key_error s) = "KEYERROR"
class_name (value_error s) = "VALUEERROR"
class_name (http_exception n s) = "HTTPEXCEPTION"
class_name (authorization_error s) = "AUTHORIZATIONERROR"
class_name (authentication_error s) = "AUTHENTICATIONERROR"
class_name concurrency_error = "CONCURRENCYERROR"
class_name lease_lost_error = "LEASELOSTERROR"
class_name integrity_error = "INTEGRITYERROR"
class_name type_error = "TYPEERROR"

abbrev node_text : Node → String
node_text Node.intake = "intake"
node_text Node.retrieve = "retrieve"
node_text Node.investigate = "investigate"
node_text Node.observe = "observe"
node_text Node.diagnose = "diagnose"
node_text Node.policy = "policy"
node_text Node.gate = "gate"
node_text Node.execute = "execute"
node_text Node.verify = "verify"
node_text Node.finalize = "finalize"
node_text Node.queued = "queued"
node_text Node.approval = "approval"
node_text Node.completed = "completed"
node_text Node.handed_off = "handed_off"
node_text Node.cancelled = "cancelled"
node_text (Node.other s) = s

abbrev pub is_running : RunStatus → Bool
is_running RunStatus.running = true
is_running _ = false

-- The transitions that one job may make.
abbrev pub node_limit : ℕ
node_limit = 24

module _ {W : Type 0} (engine : Engine W) (lease : Lease) where
  abbrev pub noted : Result (Unit {0}) × State W → State W
  noted (ok done, s) = s
  noted (err e, s) = record s {
    run = audited "system" "node.failed" (failed_run (class_name e) (engine.report e) s.run);
  }

  -- `_run_node`: whatever the node raises becomes the run's error, and the run is saved.
  unfoldable pub run_node : Action W (Unit {0}) → Action W (Unit {0})
  run_node handler s = checkpoint engine lease (noted (handler s))

  -- getattr(self, f"_node_{node}", None)
  unfoldable pub handler_of : Node → Option (Action W (Unit {0}))
  handler_of Node.intake = some (node_intake engine)
  handler_of Node.retrieve = some (node_retrieve engine)
  handler_of Node.investigate = some (node_investigate engine)
  handler_of Node.observe = some (node_observe engine lease)
  handler_of Node.diagnose = some (node_diagnose engine)
  handler_of Node.policy = some (node_policy engine)
  handler_of Node.gate = some (node_gate engine)
  handler_of Node.execute = some (node_execute engine lease)
  handler_of Node.verify = some (node_verify engine lease)
  handler_of Node.finalize = some node_finalize
  handler_of _ = none

  abbrev pub unknown_node : RunRecord → RunRecord
  unknown_node run =
      failed_run "UNKNOWN_NODE" (joined "unknown workflow node: " (node_text run.current_node)) run

  abbrev pub over_limit : RunRecord → RunRecord
  over_limit run =
      audited "system" "run.failed"
        (failed_run "NODE_LIMIT_EXCEEDED" "workflow exceeded the bounded node transition limit" run)

  abbrev pub cancelled_run : RunRecord → RunRecord
  cancelled_run run = record run { status = RunStatus.cancelled; current_node = Node.cancelled }

  unfoldable pub visit : Option (Action W (Unit {0})) → Action W (Unit {0}) → Action W (Unit {0})
  visit none rest = modify unknown_node
  visit (some handler) rest = run_node handler >> rest

  -- The loop: `n` transitions are left.
  unfoldable pub transitions : ℕ → Action W (Unit {0})
  transitions zero = with_run (λ run. if is_running run.status then modify over_limit else pure tt)
  transitions (suc n) =
      let rest = transitions n in
      with_run (λ run.
        if is_running run.status
        then (if run.cancellation_requested
            then modify cancelled_run
            else visit (handler_of run.current_node) rest)
        else pure tt)

  abbrev pub started : RunRecord → RunRecord
  started run =
      audited lease.worker_id (if lease.recovered then "job.recovered" else "job.claimed")
        (record run {
          status = RunStatus.running;
          attempt = run.attempt + 1;
          lease_history =
              run.lease_history
              ++ record {
                worker_id = lease.worker_id;
                fencing_token = lease.fencing_token;
                action = if lease.recovered then LeaseAction.recovered else LeaseAction.claimed;
              }
                ∷ [];
        })

  unfoldable pub work : ℕ → Action W (Unit {0})
  work limit = do
    modify started
    checkpoint engine lease
    transitions limit
    checkpoint engine lease

  -- `process`, once the run is read; `limit` is 24.
  unfoldable pub process_run : ℕ → Action W (Unit {0})
  process_run limit = with_run (λ run.
      if is_closed run.status
      then pure tt
      else if run.cancellation_requested
      then modify cancelled_run >> checkpoint engine lease
      else work limit)

  abbrev pub outcome : Result (Unit {0}) × State W → Result RunRecord × (Db × W)
  outcome (err e, s) = (err e, (s.db, s.world))
  outcome (ok done, s) = (ok s.run, (s.db, s.world))

  -- `process`: the run that it returns, or what it raises, and the tables and the world after it.
  unfoldable pub process : String → Db → W → Result RunRecord × (Db × W)
  process run_id db w = elim (require_run run_id db) [
    | err e ↦ (err e, (db, w))
    | ok run ↦
        outcome (process_run node_limit (record { run = run; db = db; world = w; ticks = 0 }))
  ]
