-- ===== src/Workflow/Engine.antt =====
-- What the nodes of `AgentEngine` of backend/app/agent.py share: the run that they change in place,
-- the store, and the world that the tools act on. A node that raises keeps the changes that it has
-- made. Trace steps and the texts of a node's summary are left out.
use shou_ba_shou_jiaoxue_ai.Prelude.{
  ℕ, ◌+◌, ◌/◌, String, Bool, Option, none, some, List, [], ◌∷◌, ◌++◌, if◌then◌else◌,
}
use shou_ba_shou_jiaoxue_ai.Schemas.{
  RunStatus, Node, PlanStep, ToolResult, UserIdentity, Incident, SourceHit, Observation, RunRecord,
}
use shou_ba_shou_jiaoxue_ai.Result.{Error, Result, ok, err}
use shou_ba_shou_jiaoxue_ai.Store.Db.{Db}
use shou_ba_shou_jiaoxue_ai.Store.Runs.{save_run_with_lease}
use shou_ba_shou_jiaoxue_ai.Approval.Gate.{Quorum, truthy}
use shou_ba_shou_jiaoxue_ai.Executor.Execute.{Tools, execute}

-- `LeaseContext`
pub record Lease : Type 0 where
  pub job_id : String
  pub worker_id : String
  pub fencing_token : ℕ
  pub recovered : Bool

-- What the workflow reads of a `ModelProposal`.
pub record Proposal : Type 0 where
  pub diagnosis : String
  pub plan : List PlanStep
  pub needs_handoff : Bool
  pub handoff_reason : Option String

-- The components and settings that an engine is made with. The clock and the fresh ids are read by
-- a count of their uses; `report` is the text of an exception, and `parse_int` is Python's `int` on a
-- text.
pub record Engine (W : Type 0) : Type 0 where
  pub tools : Tools W
  pub plan_digest : List PlanStep → String
  pub max_steps : ℕ
  pub quorum : Quorum
  pub search : String → ℕ → List String → Result (List SourceHit)  -- query, limit, preferred documents
  pub propose : Incident → List SourceHit → List Observation → Result Proposal
  pub report : Error → String
  pub parse_int : String → Option ℕ
  pub clock : ℕ → ℕ
  pub fresh_id : ℕ → String

pub record State (W : Type 0) : Type 0 where
  pub run : RunRecord
  pub db : Db
  pub world : W
  pub ticks : ℕ

abbrev pub Action : Type 0 → Type 0 → Type 0
Action W A = State W → Result A × State W

module _ {W : Type 0} where
  abbrev pub pure : {A : Type 0} → A → Action W A
  pure a s = (ok a, s)

  abbrev pub raise : {A : Type 0} → Error → Action W A
  raise e s = (err e, s)

  abbrev pub resume : {A B : Type 0} → (A → Action W B) → Result A × State W → Result B × State W
  resume next (err e, s) = (err e, s)
  resume next (ok a, s) = next a s

  infixl 5 ◌>>=◌ ◌>>◌
  abbrev pub ◌>>=◌ : {A B : Type 0} → Action W A → (A → Action W B) → Action W B
  ◌>>=◌ first next s = resume next (first s)

  abbrev pub ◌>>◌ : {A B : Type 0} → Action W A → Action W B → Action W B
  ◌>>◌ first next s = resume (λ done. next) (first s)

  abbrev pub lift : {A : Type 0} → Result A → Action W A
  lift r s = (r, s)

  abbrev pub modify : (RunRecord → RunRecord) → Action W (Unit {0})
  modify f s = (ok tt, record s { run = f s.run })

  -- What the rest does may depend on the run as it is now.
  abbrev pub with_run : {A : Type 0} → (RunRecord → Action W A) → Action W A
  with_run f s = f s.run s

  abbrev pub saved : State W → Result (RunRecord × Db) → Result (Unit {0}) × State W
  saved s (err e) = (err e, s)
  saved s (ok (run, db)) = (ok tt, record s { run = run; db = db })

  module _ (engine : Engine W) (lease : Lease) where
    -- `_checkpoint`
    unfoldable pub checkpoint : Action W (Unit {0})
    checkpoint s =
        saved (record s { ticks = s.ticks + 1 })
          (save_run_with_lease (engine.clock s.ticks) s.run lease.job_id lease.worker_id
            lease.fencing_token s.db)

  module _ (engine : Engine W) where
    abbrev pub called_with : PlanStep → String → UserIdentity → State W → ToolResult × W
    called_with step plan_hash actor s =
        execute engine.tools step
          (record {
            run_id = s.run.id;
            plan_hash = plan_hash;
            actor = actor;
            attempt = s.run.attempt;
            now = engine.clock s.ticks / 1000000;
            jti = engine.fresh_id s.ticks;
          })
          s.run.tool_results s.world

    -- self.tool_executor.execute(…), then run.tool_results.append(result)
    unfoldable pub use_tool : PlanStep → String → UserIdentity → Action W ToolResult
    use_tool step plan_hash actor s =
        let (result, world) = called_with step plan_hash actor s in
        (
          ok result,
          record s {
            run = record s.run { tool_results = s.run.tool_results ++ result ∷ [] };
            world = world;
            ticks = s.ticks + 1;
          },
        )

-- a or b, for texts
abbrev pub or_text : Option String → String → String
or_text none b = b
or_text (some a) b = if truthy (some a) then a else b

abbrev pub handed_off : String → RunRecord → RunRecord
handed_off resolution run = record run {
  status = RunStatus.handed_off;
  current_node = Node.handed_off;
  resolution = resolution;
}

abbrev pub failed_run : String → String → RunRecord → RunRecord
failed_run code detail run = record run {
  status = RunStatus.failed;
  error_code = some code;
  error_detail = some detail;
}

abbrev pub moved_to : Node → RunRecord → RunRecord
moved_to node run = record run { current_node = node }
