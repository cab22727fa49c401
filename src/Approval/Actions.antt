-- ===== src/Approval/Actions.antt =====
-- `decide`, `cancel`, `retry_failed` and `_execution_actor` of backend/app/agent.py.
use shou_ba_shou_jiaoxue_ai.Prelude.{
  ℕ, String, Bool, true, false, not, ◌&&◌, ◌||◌, Option, none, some, List, [], ◌∷◌, ltb, leb, ◌==◌,
  if◌then◌else◌, length,
}
use shou_ba_shou_jiaoxue_ai.Schemas.{
  RunStatus, Decision, Stage, Node, UserIdentity, ApprovalVote, RunRecord,
}
use shou_ba_shou_jiaoxue_ai.Result.{
  Result, ok, err, guard, ◌>>=◌, ◌>>◌, value_error, authorization_error,
}
use shou_ba_shou_jiaoxue_ai.Store.Db.{Db}
use shou_ba_shou_jiaoxue_ai.Store.Runs.{save_run}
use shou_ba_shou_jiaoxue_ai.Store.Jobs.{enqueue_job}
use shou_ba_shou_jiaoxue_ai.Security.Roles.{require_all_roles}
use shou_ba_shou_jiaoxue_ai.Schemas.{awaiting_approval, resume, retry, approved}
use shou_ba_shou_jiaoxue_ai.Approval.Gate.{same_text, is_closed, is_failed, audited}
use shou_ba_shou_jiaoxue_ai.Approval.Vote.{
  Tally, recorded, approved_run, denied_run, tally, same_tenant, require_run,
}

-- A method that raises keeps what its finished transactions have written.
abbrev pub Exec : Type 0 → Type 0
Exec A = Db → Result A × Db

abbrev pub commit : {A : Type 0} → Db → Result (A × Db) → Result A × Db
commit db (ok (a, db')) = (ok a, db')
commit db (err e) = (err e, db)

-- save_run, then enqueue_job in a transaction of its own
unfoldable pub enqueue_after : String → ℕ → Stage → Result RunRecord × Db → Result RunRecord × Db
enqueue_after job_id now stage (err e, db) = (err e, db)
enqueue_after job_id now stage (ok run, db) =
    let (r, db') = commit db (enqueue_job job_id now run.id stage db) in (r >>= (λ _. ok run), db')

unfoldable pub saved_tally : String → ℕ → ℕ → Tally → Exec RunRecord
saved_tally job_id now later (recorded run) db = commit db (save_run now run db)
saved_tally job_id now later (denied_run run) db = commit db (save_run now run db)
saved_tally job_id now later (approved_run run) db =
    enqueue_after job_id later resume (commit db (save_run now run db))

-- The times of the save and of the enqueue, and the job's id, come from the environment.
unfoldable pub decide :
    String → ℕ → ℕ → String → String → UserIdentity → String → ℕ → Exec RunRecord
decide job_id now later run_id decision user note expected_version db =
    elim (require_run run_id db >>= λ run. tally run decision user note expected_version) [
      | err e ↦ (err e, db)
      | ok t ↦ saved_tally job_id now later t db
    ]

-- status in {QUEUED, AWAITING_APPROVAL, FAILED}
abbrev pub stops_at_once : RunStatus → Bool
stops_at_once RunStatus.queued = true
stops_at_once awaiting_approval = true
stops_at_once RunStatus.failed = true
stops_at_once _ = false

abbrev pub cancel_requested : RunRecord → UserIdentity → RunRecord
cancel_requested run user =
    let asked = record run { cancellation_requested = true } in
    audited user.username "run.cancel_requested" (
      if stops_at_once run.status
      then record asked { status = RunStatus.cancelled; current_node = Node.cancelled }
      else asked)

cancelling : RunRecord → UserIdentity → ℕ → Result RunRecord
cancelling run user expected_version = do
  same_tenant run user expected_version
  guard (not (is_closed run.status)) (value_error "终态运行不能取消")
  ok (cancel_requested run user)

unfoldable pub cancel : ℕ → String → UserIdentity → ℕ → Exec RunRecord
unfolding cancelling
cancel now run_id user expected_version db =
    elim (require_run run_id db >>= λ run. cancelling run user expected_version) [
      | err e ↦ (err e, db)
      | ok run ↦ commit db (save_run now run db)
    ]

retrying : RunRecord → UserIdentity → ℕ → Result RunRecord
retrying run user expected_version = do
  same_tenant run user expected_version
  guard (is_failed run.status) (value_error "只有失败运行可以重试")
  guard (ltb run.attempt run.max_attempts) (value_error "已达到最大重试次数")
  require_all_roles user ("on-call-lead" ∷ [])
  ok (
      audited user.username "run.retry_queued"
        (record run { status = RunStatus.queued; error_code = none; error_detail = none }))

unfoldable pub retry_failed : String → ℕ → ℕ → String → UserIdentity → ℕ → Exec RunRecord
unfolding retrying
retry_failed job_id now later run_id user expected_version db =
    elim (require_run run_id db >>= λ run. retrying run user expected_version) [
      | err e ↦ (err e, db)
      | ok run ↦ enqueue_after job_id later retry (commit db (save_run now run db))
    ]

-- SYSTEM_AGENT
abbrev pub system_agent : UserIdentity
system_agent = record {
  username = "agent@harbor.local";
  display_name = "Harbor 只读执行身份";
  roles = "observer" ∷ "operator" ∷ [];
  tenant_id = "xm-ops";
}

is_approved : Decision → Bool
is_approved approved = true
is_approved _ = false

-- any(vote.plan_hash != run.policy.plan_hash for vote in votes)
unfoldable pub has_stale_vote : Option String → List ApprovalVote → Bool
has_stale_vote h [] = false
has_stale_vote h (v ∷ votes) = not (same_text (some v.plan_hash) h) || has_stale_vote h votes

-- `… or "unknown"`
abbrev pub or_unknown : Option String → String
or_unknown none = "unknown"
or_unknown (some s) = if s == "" then "unknown" else s

approved_principal : RunRecord → UserIdentity
approved_principal run = record {
  username = or_unknown run.approval.decided_by;
  display_name = or_unknown run.approval.decided_by;
  roles = run.approval.decided_roles;
  tenant_id = run.tenant_id;
}

approved_actor : RunRecord → Result UserIdentity
unfolding is_approved approved_principal
approved_actor run = do
  guard (is_approved run.approval.decision && same_text run.approval.plan_hash run.policy.plan_hash)
      (authorization_error "plan is not approved or approval hash is stale")
  guard (leb run.approval.required_approvals (length run.approval.votes))
      (authorization_error "approval quorum is incomplete")
  guard (not (has_stale_vote run.policy.plan_hash run.approval.votes))
      (authorization_error "approval vote is bound to a stale plan hash")
  require_all_roles (approved_principal run) run.policy.required_roles
  ok (approved_principal run)

unfoldable pub execution_actor : RunRecord → Result UserIdentity
unfolding approved_actor
execution_actor run = if run.approval.required then approved_actor run else ok system_agent
