-- ===== src/Approval/Execution.antt =====
-- From the last vote of backend/app/agent.py to the principal that executes.
use shou_ba_shou_jiaoxue_ai.Prelude.{
  ℕ, ◌≤◌, String, ◌≡◌, refl, ◌≢◌, true, false, Option, none, some, arith, ◌==◌, ==_refl, length,
}
use shou_ba_shou_jiaoxue_ai.Schemas.{UserIdentity, Ballot, RunRecord}
use shou_ba_shou_jiaoxue_ai.Result.{ok}
use shou_ba_shou_jiaoxue_ai.Schemas.{approve, deny}
use shou_ba_shou_jiaoxue_ai.Security.Roles.{has_all_roles, require_all_roles}
use shou_ba_shou_jiaoxue_ai.Approval.Gate.{same_text}
use shou_ba_shou_jiaoxue_ai.Approval.Vote.{approved_run, count_vote, tally}
use shou_ba_shou_jiaoxue_ai.Approval.Actions.{execution_actor}
use shou_ba_shou_jiaoxue_ai.Approval.Ballots.{HasSoundVotes, IsAllowed, vote_allowed-IsAllowed}
use shou_ba_shou_jiaoxue_ai.Approval.Quorum.{
  tally-parts, tally-IsSoundTally, not_stale, approved_fields,
}

-- The subject of the last vote, as `_execution_actor` rebuilds it.
abbrev pub decider : UserIdentity → UserIdentity
decider user = record user { display_name = user.username }

same_text_refl : (o : Option String) → same_text o o ≡ true
same_text_refl none = refl
same_text_refl (some s) = ==_refl s

denial_approves_nothing :
    (run run' : RunRecord) (user : UserIdentity) (note : String)
    → count_vote run user note deny ≢ ok (approved_run run')
unfolding count_vote
denial_approves_nothing run run' user note h = ground arith

module _ (run run' : RunRecord) (user : UserIdentity) (note : String) where
  actor_of_approved :
      (user.username == "") ≡ false
      → run.approval.required_roles ≡ run.policy.required_roles
      → IsAllowed run user
      → HasSoundVotes run'
      → run'.approval.required_approvals ≤ length run'.approval.votes
      → count_vote run user note approve ≡ ok (approved_run run')
      → execution_actor run' ≡ ok (decider user)
  unfolding execution_actor require_all_roles has_all_roles
  actor_of_approved named roles a s q h =
      let (f0, f1, f2, f3, f4, f5, f6) = approved_fields run run' user note h in
      let same : same_text run'.approval.plan_hash run'.policy.plan_hash ≡ true =
        rw (f2, f3) (same_text_refl run.policy.plan_hash) in
      ground (
        arith,
        same,
        f0,
        f1,
        f2,
        f3,
        f4,
        f5,
        f6,
        q,
        named,
        roles,
        a.current,
        a.qualified,
        a.tenant,
        a.hashed,
        not_stale run' run'.approval.votes s.valid,
      )

-- When the last vote has queued a run for execution, the executor accepts it: it rebuilds the subject
-- that cast that vote, with its roles and tenant, provided that the approval asks for the roles that
-- the plan requires (as the gate sets it) and that the subject has a name.
pub approved_run_executes :
    (run run' : RunRecord) (decision : String) (user : UserIdentity) (note : String) (version : ℕ)
    → (user.username == "") ≡ false
    → run.approval.required_roles ≡ run.policy.required_roles
    → HasSoundVotes run
    → tally run decision user note version ≡ ok (approved_run run')
    → execution_actor run' ≡ ok (decider user)
approved_run_executes run run' decision user note version named roles s h =
    let (e, b, f, k) = tally-parts run decision user note version (approved_run run') h in
    let (s', _, _, q) = tally-IsSoundTally run decision user note version (approved_run run') s h in
    go b k s' q (vote_allowed-IsAllowed run user version e)
  where
    go :
        (b : Ballot)
        → count_vote run user note b ≡ ok (approved_run run')
        → HasSoundVotes run'
        → run'.approval.required_approvals ≤ length run'.approval.votes
        → IsAllowed run user
        → execution_actor run' ≡ ok (decider user)
    go approve k s' q a = actor_of_approved run run' user note named roles a s' q k
    go deny k s' q a = absurd (denial_approves_nothing run run' user note k)
