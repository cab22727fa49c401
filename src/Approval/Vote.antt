-- ===== src/Approval/Vote.antt =====
-- One vote of `decide` in backend/app/agent.py: its checks, and what it makes of the run.
use shou_ba_shou_jiaoxue_ai.Prelude.{
  ℕ, String, Bool, true, false, not, ◌&&◌, ◌||◌, none, some, List, [], ◌∷◌, ◌++◌, ltb, leb, ◌=ℕ◌,
  ◌==◌, if◌then◌else◌, length,
}
use shou_ba_shou_jiaoxue_ai.Schemas.{
  RunStatus, Decision, Node, UserIdentity, Ballot, ApprovalVote, Approval, RunRecord,
}
use Prim.Native.String.{count}
use shou_ba_shou_jiaoxue_ai.Result.{
  Result, ok, err, guard, ◌>>=◌, ◌>>◌, key_error, value_error, authorization_error,
  concurrency_error,
}
use shou_ba_shou_jiaoxue_ai.Store.Db.{Db}
use shou_ba_shou_jiaoxue_ai.Store.Runs.{get_run}
use shou_ba_shou_jiaoxue_ai.Security.Roles.{same_subject, require_all_roles}
use shou_ba_shou_jiaoxue_ai.Schemas.{pending, approve, deny, approved, denied}
use shou_ba_shou_jiaoxue_ai.Approval.Gate.{truthy, text_of, same_text, is_awaiting, audited}

-- The checks of `decide` and `cancel` on whose run it is and which version was read.
unfoldable pub same_tenant : RunRecord → UserIdentity → ℕ → Result (Unit {0})
same_tenant run user expected_version = do
  guard (run.tenant_id == user.tenant_id)
      (authorization_error "run does not belong to the authenticated tenant")
  guard (run.version =ℕ expected_version) concurrency_error

unfoldable pub require_run : String → Db → Result RunRecord
require_run run_id db = elim (get_run run_id db) [
  | none ↦ err (key_error run_id)
  | some run ↦ ok run
]

-- separation of duties: the requester does not vote
abbrev pub is_requester : Approval → String → Bool
is_requester a name =
    a.separation_of_duties && (truthy a.requester && same_subject name (text_of a.requester))

unfoldable pub has_voted : String → List ApprovalVote → Bool
has_voted name [] = false
has_voted name (v ∷ votes) = same_subject v.approver name || has_voted name votes

-- The checks of `decide`, in its order.
unfoldable pub vote_allowed : RunRecord → UserIdentity → ℕ → Result (Unit {0})
unfolding same_tenant
vote_allowed run user expected_version = do
  same_tenant run user expected_version
  guard (is_awaiting run.status) (value_error "当前运行不在等待审批状态")
  guard (run.policy.accepted && truthy run.policy.plan_hash) (value_error "计划没有通过策略编译，不能审批")
  guard (same_text run.approval.plan_hash run.policy.plan_hash) (value_error "审批绑定的计划哈希已失效")
  require_all_roles user run.approval.required_roles
  guard (not (is_requester run.approval user.username))
      (authorization_error "requester cannot approve or deny the same change")
  guard (not (has_voted user.username run.approval.votes))
      (value_error "the same subject cannot vote twice")

-- `ApprovalVote(decision=…, note=…)` admits two texts, and a note of at most 500 characters.
unfoldable pub ballot : String → String → Result Ballot
ballot decision note =
    if decision == "approve" && leb (count note) 500
    then ok approve
    else if decision == "deny" && leb (count note) 500
    then ok deny
    else err (value_error "validation error for ApprovalVote")

abbrev pub vote_of : RunRecord → UserIdentity → Ballot → String → ApprovalVote
vote_of run user b note = record {
  approver = user.username;
  display_name = user.display_name;
  roles = user.roles;
  tenant_id = user.tenant_id;
  plan_hash = text_of run.policy.plan_hash;
  decision = b;
  note = note;
}

-- `Approval(…)` for a decision; its `votes` hold at most four.
decided : Decision → RunRecord → UserIdentity → String → List ApprovalVote → Result Approval
decided d run user note votes =
    guard (leb (length votes) 4) (value_error "too many votes")
    >> ok (record {
      required = true;
      decision = d;
      plan_hash = run.policy.plan_hash;
      required_roles = run.approval.required_roles;
      required_approvals = run.approval.required_approvals;
      separation_of_duties = run.approval.separation_of_duties;
      requester = run.approval.requester;
      votes = votes;
      decided_by = some user.username;
      decided_roles = user.roles;
      note = some note;
    })

-- What a vote makes of a run: it stays pending, is queued for execution, or is handed off.
pub data Tally : Type 0 where
  recorded approved_run denied_run : RunRecord → Tally

unfoldable pub count_vote : RunRecord → UserIdentity → String → Ballot → Result Tally
unfolding decided
count_vote run user note approve =
    let votes = run.approval.votes ++ vote_of run user approve note ∷ [] in
    if ltb (length votes) run.approval.required_approvals
    then ok (
        recorded (
          audited user.username "approval.vote_recorded"
            (record run { approval = record run.approval { decision = pending; votes = votes } })))
    else do
      a ← decided approved run user note votes
      ok (
          approved_run (
            audited user.username "approval.approved" (record run {
              approval = a;
              status = RunStatus.queued;
              current_node = Node.execute;
            })))
count_vote run user note deny =
    let votes = run.approval.votes ++ vote_of run user deny note ∷ [] in
    do
      a ← decided denied run user note votes
      ok (
          denied_run (
            audited user.username "approval.denied" (record run {
              approval = a;
              status = RunStatus.handed_off;
              current_node = Node.handed_off;
              resolution = "审批拒绝；没有执行任何待批准写动作，已转人工。";
            })))

-- The pure part of `decide`: checks and the new run.
unfoldable pub tally : RunRecord → String → UserIdentity → String → ℕ → Result Tally
tally run decision user note expected_version = do
  vote_allowed run user expected_version
  b ← ballot decision note
  count_vote run user note b
