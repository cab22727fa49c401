-- ===== src/Approval/Gate.antt =====
-- The risk gate of backend/app/agent.py (`_node_gate`), and the tests on a run that its methods share.
use shou_ba_shou_jiaoxue_ai.Prelude.{
  ℕ, String, Bool, true, false, not, Option, none, some, [], ◌∷◌, ◌++◌, ◌==◌, if◌then◌else◌,
}
use shou_ba_shou_jiaoxue_ai.Schemas.{RunStatus, RiskLevel, Node, Approval, RunRecord}
use shou_ba_shou_jiaoxue_ai.Result.{Result, ok, guard, ◌>>◌, value_error}
use shou_ba_shou_jiaoxue_ai.Schemas.{low, medium, high, awaiting_approval, not_required, pending}

-- The truth value of an optional text: neither None nor empty.
abbrev pub truthy : Option String → Bool
truthy none = false
truthy (some s) = not (s == "")

abbrev pub text_of : Option String → String
text_of none = ""
text_of (some s) = s

-- `==` on optional texts.
abbrev pub same_text : Option String → Option String → Bool
same_text none none = true
same_text (some a) (some b) = a == b
same_text _ _ = false

abbrev pub is_awaiting : RunStatus → Bool
is_awaiting awaiting_approval = true
is_awaiting _ = false

-- status in {COMPLETED, CANCELLED, HANDED_OFF}
abbrev pub is_closed : RunStatus → Bool
is_closed RunStatus.completed = true
is_closed RunStatus.cancelled = true
is_closed RunStatus.handed_off = true
is_closed _ = false

abbrev pub is_failed : RunStatus → Bool
is_failed RunStatus.failed = true
is_failed _ = false

-- `_audit`
abbrev pub audited : String → String → RunRecord → RunRecord
audited actor action run = record run {
  audit = run.audit ++ record { actor = actor; action = action } ∷ [];
}

-- The part of `_node_gate` that sets the approval. `quorum` holds the engine's settings.
pub record Quorum : Type 0 where
  pub medium_risk : ℕ
  pub high_risk : ℕ
  pub separation : Bool

abbrev pub needs_approval : RiskLevel → Bool
needs_approval low = false
needs_approval medium = true
needs_approval high = true

abbrev pub quorum_for : Quorum → RiskLevel → ℕ
quorum_for q high = q.high_risk
quorum_for q _ = q.medium_risk

abbrev blank_approval : RunRecord → Approval
blank_approval run = record {
  required = false;
  decision = not_required;
  plan_hash = run.policy.plan_hash;
  required_roles = run.policy.required_roles;
  required_approvals = 0;
  separation_of_duties = false;
  requester = some run.created_by;
  votes = [];
  decided_by = none;
  decided_roles = [];
  note = none;
}

unfoldable pub gate : Quorum → RunRecord → Result RunRecord
gate q run =
    guard (truthy run.policy.plan_hash) (value_error "compiled plan hash is missing")
    >> (if needs_approval run.risk_level
        then ok (
            audited "risk-gate" "approval.requested" (record run {
              approval = record (blank_approval run) {
                required = true;
                decision = pending;
                required_approvals = quorum_for q run.risk_level;
                separation_of_duties = q.separation;
              };
              status = awaiting_approval;
              current_node = Node.approval;
            }))
        else ok (record run { approval = blank_approval run; current_node = Node.execute }))
