-- ===== src/Samples.antt =====
-- A run, users and votes to try the functions on.
use shou_ba_shou_jiaoxue_ai.Prelude.{true, false, none, some, [], ◌∷◌}
use shou_ba_shou_jiaoxue_ai.Schemas.{
  RunStatus, Node, PolicyDecision, UserIdentity, Approval, RunRecord,
}
use shou_ba_shou_jiaoxue_ai.Schemas.{awaiting_approval, medium, low, pending, not_required}

abbrev pub lead : UserIdentity
lead = record {
  username = "lead@harbor.local";
  display_name = "Lead";
  roles = "on-call-lead" ∷ "observer" ∷ [];
  tenant_id = "xm-ops";
}

abbrev pub unset_policy : PolicyDecision
unset_policy = record {
  accepted = false;
  plan_hash = none;
  effective_risk = low;
  required_roles = [];
  issues = [];
}

abbrev pub unset_approval : Approval
unset_approval = record {
  required = false;
  decision = not_required;
  plan_hash = none;
  required_roles = [];
  required_approvals = 0;
  separation_of_duties = true;
  requester = none;
  votes = [];
  decided_by = none;
  decided_roles = [];
  note = none;
}

abbrev pub new_run : RunRecord
new_run = record {
  id = "run-1";
  incident = record {
    title = "Orders are slow";
    summary = "p95 latency is high";
    symptoms = [];
    service = "orders";
    experiment_id = none;
  };
  tenant_id = "xm-ops";
  created_by = "duty@harbor.local";
  status = RunStatus.queued;
  current_node = Node.queued;
  updated_at = 0;
  version = 0;
  attempt = 0;
  max_attempts = 2;
  cancellation_requested = false;
  diagnosis = "";
  sources = [];
  investigation_plan = [];
  investigation_policy = unset_policy;
  observations = [];
  plan = [];
  policy = unset_policy;
  risk_level = low;
  approval = unset_approval;
  tool_results = [];
  verification = [];
  resolution = "";
  audit = [];
  lease_history = [];
  error_code = none;
  error_detail = none;
}

-- A run whose plan waits for one vote.
abbrev pub waiting_run : RunRecord
waiting_run = record new_run {
  status = awaiting_approval;
  current_node = Node.approval;
  risk_level = medium;
  policy = record {
    accepted = true;
    plan_hash = some "d2c7";
    effective_risk = medium;
    required_roles = "on-call-lead" ∷ [];
    issues = [];
  };
  approval = record {
    required = true;
    decision = pending;
    plan_hash = some "d2c7";
    required_roles = "on-call-lead" ∷ [];
    required_approvals = 1;
    separation_of_duties = true;
    requester = some "duty@harbor.local";
    votes = [];
    decided_by = none;
    decided_roles = [];
    note = none;
  };
}
