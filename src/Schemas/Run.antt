-- ===== src/Schemas/Run.antt =====
-- Runs and jobs of backend/app/schemas.py.
use shou_ba_shou_jiaoxue_ai.Prelude.{ℕ, Bool, String, Option, List}
use shou_ba_shou_jiaoxue_ai.Value.{Fields}
use shou_ba_shou_jiaoxue_ai.Schemas.Status.{RunStatus, JobStatus, RiskLevel, Stage, Node}
use shou_ba_shou_jiaoxue_ai.Schemas.Plan.{PlanStep, PolicyDecision, ToolResult, Approval}

-- Without `severity`, `environment` and `tags`.
pub record Incident : Type 0 where
  pub title : String
  pub summary : String
  pub symptoms : List String
  pub service : String
  pub experiment_id : Option String

-- `retrieval_channel` of a source; the search engine's own channels are `ranked`.
pub data Channel : Type 0 where
  ranked routed pinned : Channel

pub record SourceHit : Type 0 where
  pub chunk_id : String
  pub doc_id : String
  pub score : ℕ
  pub channel : Channel

-- Without `captured_at` and `transport`.
pub record Observation : Type 0 where
  pub id : String
  pub step_id : String
  pub tool_name : String
  pub summary : String
  pub facts : Fields  -- `data`

-- Without `checks`, the table of the single comparisons.
pub record VerificationResult : Type 0 where
  pub step_id : String
  pub passed : Bool
  pub summary : String

-- Without `id`, `timestamp`, `detail` and `metadata`.
pub record AuditEvent : Type 0 where
  pub actor : String
  pub action : String

pub data LeaseAction : Type 0 where
  claimed heartbeat released recovered : LeaseAction

-- Without `timestamp`.
pub record WorkerLeaseEvent : Type 0 where
  pub worker_id : String
  pub fencing_token : ℕ
  pub action : LeaseAction

-- Without `model_proposal`, `model_calls`, `confidence`, `estimated_cost`, `run_mode`, `traces` and
-- `created_at`, which nothing of the workflow reads back.
pub record RunRecord : Type 0 where
  pub id : String
  pub incident : Incident
  pub tenant_id : String
  pub created_by : String
  pub status : RunStatus
  pub current_node : Node
  pub updated_at : ℕ
  pub version : ℕ
  pub attempt : ℕ
  pub max_attempts : ℕ
  pub cancellation_requested : Bool
  pub diagnosis : String
  pub sources : List SourceHit
  pub investigation_plan : List PlanStep
  pub investigation_policy : PolicyDecision
  pub observations : List Observation
  pub plan : List PlanStep
  pub policy : PolicyDecision
  pub risk_level : RiskLevel
  pub approval : Approval
  pub tool_results : List ToolResult
  pub verification : List VerificationResult
  pub resolution : String
  pub audit : List AuditEvent
  pub lease_history : List WorkerLeaseEvent
  pub error_code : Option String
  pub error_detail : Option String

pub record JobRecord : Type 0 where
  pub id : String
  pub run_id : String
  pub stage : Stage
  pub status : JobStatus
  pub owner : Option String
  pub lease_until : Option ℕ
  pub fencing_token : ℕ
  pub attempts : ℕ
  pub available_at : ℕ
  pub created_at : ℕ
  pub updated_at : ℕ
  pub last_error : Option String
