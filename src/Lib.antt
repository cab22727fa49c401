-- ===== src/Lib.antt =====
-- A model of the backend of an incident-response agent (backend/app): runs of the agent are stored
-- with a version, jobs for them are queued and leased to workers, plans are compiled under a policy,
-- and a plan that changes production waits for votes before it is executed.
--
-- The parts, and the files that model them:
--
-- Result, Value, Schemas: exceptions as values, JSON values, and the records and enumerations of
-- backend/app/schemas.py, with the source's names. A record says which fields are left out.
--
-- Store: the run and job store of backend/app/store.py. Store.Db has the tables, Store.Runs and
-- Store.Jobs the statements of SQLiteStore (save_run, save_run_with_lease, get_run; enqueue_job,
-- claim_job, heartbeat_job, finish_job, requeue_job), Store.Postgres those of PostgresStore. SQL is
-- modelled by the functions of Store.Table; a transaction maps tables to a result with tables, or to
-- an error, which leaves the tables as they were. Store.Calls interleaves calls of any processes as a
-- list. Times are counts of microseconds and come as arguments, as do fresh ids.
--
-- Security.Roles: the role checks of backend/app/security.py.
--
-- Approval: the gate, the votes, and the principal that executes (backend/app/agent.py: _node_gate,
-- decide, cancel, retry_failed, _execution_actor). Approval.Vote is the pure part of decide,
-- Approval.Actions runs it against the store: the save and the enqueue are two transactions there, as
-- in the code.
--
-- Policy: the plan compiler of backend/app/policy.py and the tool registry of backend/app/tools.py.
-- Policy.Steps is one pass of the loop of compile, Policy.Compiler the whole of it; the passes add to
-- lists, a set and a maximum, so the rest of the loop is a value of its own. Policy.Cycle is _has_cycle,
-- on fuel: one more than the number of steps is enough, since a path never takes a step twice.
-- pydantic's validation and the digest of a plan are parameters. Texts has sorted lists and sets.
--
-- Security.Capability: CapabilityService and verify_signed_token of backend/app/security.py; the
-- signature and the hash of a payload are parameters. Security.Session: AuthService and the demo
-- accounts; the digest of a password is a parameter.
--
-- Executor: ToolExecutor of backend/app/tools.py over any tool client, which is a parameter.
--
-- Worker: run_once of backend/app/worker.py. Its engine is the sequence of store calls made while it
-- processes a job (its own, other processes', and the heartbeats of the worker's thread) and its outcome.
--
-- Lab: what the tools act on. Lab.Faults is the state of an experiment and the four writes, which
-- _apply of InMemoryFaultLabClient (backend/app/tools.py) and _apply_tool (ops_sandbox/app.py) share;
-- Lab.Memory is that client, with its table of answers by key, and Lab.Service is invoke_tool of
-- ops_sandbox/app.py, whose transaction maps three tables to an answer and tables or to an error.
--
-- Workflow: the engine of backend/app/agent.py. Workflow.Engine has what its nodes share: an action
-- passes on the run, the tables of the store, the world that the tools act on and a count by which the
-- clock and fresh ids are read; when it raises it keeps what it has changed, as the code does, which
-- changes the run in place. Workflow.Start is start; Workflow.Nodes has the nodes from _node_intake to
-- _node_gate, Workflow.Act _node_execute and _node_finalize, Workflow.Verify _node_verify with
-- _execute_automatic_rollback, Workflow.Checks _field and _check on JSON values, and Workflow.Process
-- process and _run_node. The loop of process runs on the code's own limit of 24 transitions.
-- Workflow.Topological is _topological, the order in which a plan is executed: it runs on as much fuel as
-- there are steps, which is enough, since each round takes one at least. Workflow.Steps relates two states
-- by saves, tool calls and changes in memory; the other modules prove what the engine does by it. The
-- retriever and the model adapter are parameters of the engine, as are the tools.
--
-- Adapter: of backend/app/model_adapter.py, the router with its circuit breaker (Adapter.Router) and the
-- step ids that _materialize makes (Adapter.Naming). Its loop runs on fuel, and `none` says that it has
-- not ended.
--
-- Samples, Workflow.Trials and the modules named Examples apply the theorems to concrete runs.
--
-- Simplified: a run is kept in its row as the record itself, where the code writes JSON and validates it
-- on reading. Of two jobs that ORDER BY leaves in no order a claim takes the one inserted first, where SQL
-- leaves it open; what is said of a claim does not depend on it. SQLite's update of a job and its reading
-- it back are one step, where the code has two transactions. Two names are one subject when they agree up
-- to the case of ASCII letters. Of the validation of a step that the engine makes, the length of its id is
-- modelled, since the rest holds for the steps of a plan and for the engine's own texts.
--
-- Not modelled: trace steps, model calls and display texts of a node, which nothing reads back; the
-- lists of runs and jobs; the creation of experiments, the oracle and the health routes of the fault
-- lab; the HTTP routes (backend/app/main.py), configuration and observability; the rest of the model
-- adapter (backend/app/model_adapter.py) and retrieval (backend/app/retrieval.py), which the engine
-- takes as parameters; the evaluation, which is statistics in floating point; the local services, the scripts and
-- the frontend.
mod Prelude
mod Samples
pub mod Result
pub mod Value
pub mod Texts
pub mod Schemas
pub mod Store
pub mod Security
pub mod Approval
pub mod Policy
pub mod Executor
pub mod Lab
pub mod Worker
pub mod Workflow
pub mod Adapter
