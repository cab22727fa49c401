-- ===== src/Schemas/Plan.antt =====
-- Plans, policy decisions, tool results and approvals of backend/app/schemas.py.
use shou_ba_shou_jiaoxue_ai.Prelude.{ℕ, Bool, String, Option, List}
use shou_ba_shou_jiaoxue_ai.Value.{Value, Fields}
use shou_ba_shou_jiaoxue_ai.Schemas.Status.{RiskLevel, ToolStatus, Decision}

pub data Operator : Type 0 where
  eq ne lt lte gt gte contains in_ : Operator

pub record Check : Type 0 where
  pub name : String  -- `field`
  pub operator : Operator
  pub value : Value
  pub description : String

pub data RollbackMode : Type 0 where
  tool manual : RollbackMode

-- Without `rationale`, which is display text.
pub record RollbackPlan : Type 0 where
  pub mode : RollbackMode
  pub tool_name : Option String
  pub tool_input : Fields

-- Without `title`, `objective` and `rationale`, which are display texts.
pub record PlanStep : Type 0 where
  pub id : String
  pub tool_name : String
  pub tool_input : Fields
  pub evidence_ids : List String
  pub depends_on : List String
  pub preconditions : List Check
  pub success_criteria : List Check
  pub rollback : RollbackPlan
  pub risk : RiskLevel

-- The codes of a `PolicyIssue`.
pub data IssueCode : Type 0 where
  empty_plan plan_too_long duplicate_step_id unknown_tool invalid_tool_input : IssueCode
  experiment_binding_mismatch write_during_investigation unknown_evidence : IssueCode
  write_without_observation tool_not_supported_by_observation unknown_dependency : IssueCode
  missing_success_criteria risk_upgraded rollback_tool_mismatch : IssueCode
  automatic_rollback_not_allowed unknown_rollback_tool invalid_rollback_input : IssueCode
  rollback_experiment_binding_mismatch cyclic_plan : IssueCode

-- Without `message`.
pub record PolicyIssue : Type 0 where
  pub code : IssueCode
  pub step_id : Option String
  pub blocking : Bool

-- Without `compiled_at`.
pub record PolicyDecision : Type 0 where
  pub accepted : Bool
  pub plan_hash : Option String
  pub effective_risk : RiskLevel
  pub required_roles : List String
  pub issues : List PolicyIssue

-- Without `duration_ms` and `transport`.
pub record ToolResult : Type 0 where
  pub step_id : String
  pub tool_name : String
  pub status : ToolStatus
  pub summary : String
  pub output : Fields
  pub idempotency_key : String
  pub error : Option String
  pub attempt : ℕ
  pub capability_jti : Option String

pub record UserIdentity : Type 0 where
  pub username : String
  pub display_name : String
  pub roles : List String
  pub tenant_id : String

-- The decision of one vote.
pub data Ballot : Type 0 where
  approve deny : Ballot

-- Without `decided_at`.
pub record ApprovalVote : Type 0 where
  pub approver : String
  pub display_name : String
  pub roles : List String
  pub tenant_id : String
  pub plan_hash : String
  pub decision : Ballot
  pub note : String

-- Without `decided_at`.
pub record Approval : Type 0 where
  pub required : Bool
  pub decision : Decision
  pub plan_hash : Option String
  pub required_roles : List String
  pub required_approvals : ℕ
  pub separation_of_duties : Bool
  pub requester : Option String
  pub votes : List ApprovalVote
  pub decided_by : Option String
  pub decided_roles : List String
  pub note : Option String
