-- ===== src/Schemas/Status.antt =====
-- The enumerations of backend/app/schemas.py. A status is compared with `==` in the code; here a
-- test is a function by clauses.
use shou_ba_shou_jiaoxue_ai.Prelude.{ℕ, Bool, true, false, String}

pub data RunStatus : Type 0 where
  queued running awaiting_approval completed failed handed_off cancelled : RunStatus

pub data JobStatus : Type 0 where
  queued claimed succeeded failed cancelled : JobStatus

pub data RiskLevel : Type 0 where
  low medium high : RiskLevel

-- The status of a tool result.
pub data ToolStatus : Type 0 where
  succeeded failed skipped unknown : ToolStatus

-- The decision of an approval, and that of one vote.
pub data Decision : Type 0 where
  pending approved denied not_required : Decision

-- `stage` of a job.
pub data Stage : Type 0 where
  start resume retry : Stage

-- `current_node` of a run; `other` is a text that no node of the workflow has.
pub data Node : Type 0 where
  intake retrieve investigate observe diagnose policy gate execute verify finalize : Node
  queued approval completed handed_off cancelled : Node
  other : String → Node

abbrev pub is_queued : JobStatus → Bool
is_queued JobStatus.queued = true
is_queued _ = false

abbrev pub is_claimed : JobStatus → Bool
is_claimed JobStatus.claimed = true
is_claimed _ = false

-- `status in {SUCCEEDED, FAILED, CANCELLED}`
abbrev pub is_final : JobStatus → Bool
is_final JobStatus.succeeded = true
is_final JobStatus.failed = true
is_final JobStatus.cancelled = true
is_final _ = false

-- `status in {"succeeded", "skipped"}`
abbrev pub is_success : ToolStatus → Bool
is_success ToolStatus.succeeded = true
is_success ToolStatus.skipped = true
is_success _ = false

-- RISK_WEIGHT of backend/app/tools.py.
abbrev pub risk_weight : RiskLevel → ℕ
risk_weight low = 1
risk_weight medium = 2
risk_weight high = 3
