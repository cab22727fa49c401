-- ===== src/Approval/Ballots.antt =====
-- What the votes on a run of backend/app/agent.py satisfy at every moment.
use shou_ba_shou_jiaoxue_ai.Prelude.{
  ℕ, String, ◌≡◌, refl, sym, ap, ◌∙◌, true, false, ◌||◌, some, List, [], ◌∷◌, ◌++◌, arith, eq_of_==,
  contains,
}
use shou_ba_shou_jiaoxue_ai.Schemas.{PolicyDecision, UserIdentity, ApprovalVote, RunRecord}
use shou_ba_shou_jiaoxue_ai.Result.{ok}
use shou_ba_shou_jiaoxue_ai.Schemas.{awaiting_approval, approve}
use shou_ba_shou_jiaoxue_ai.Security.Roles.{
  same_subject, same_subject_sym, has_all_roles, require_all_roles, includes,
}
use shou_ba_shou_jiaoxue_ai.Approval.Gate.{truthy, same_text}
use shou_ba_shou_jiaoxue_ai.Approval.Vote.{is_requester, has_voted, vote_allowed}

-- One vote on a run: it approves the compiled plan, and its subject is of the run's tenant, holds
-- every role that the approval asks for (or is an admin) and is not the requester.
pub record IsValidVote (run : RunRecord) (v : ApprovalVote) : Type 0 where
  pub bound : run.policy.plan_hash ≡ some v.plan_hash
  pub approves : v.decision ≡ approve
  pub tenant : v.tenant_id ≡ run.tenant_id
  pub qualified : contains v.roles "admin" || includes run.approval.required_roles v.roles ≡ true
  pub separate : is_requester run.approval v.approver ≡ false

abbrev pub AllValid : RunRecord → List ApprovalVote → Type 0
AllValid run [] = Unit
AllValid run (v ∷ votes) = IsValidVote run v × AllValid run votes

-- No subject has voted twice.
abbrev pub AllDistinct : List ApprovalVote → Type 0
AllDistinct [] = Unit
AllDistinct (v ∷ votes) = (has_voted v.approver votes ≡ false) × AllDistinct votes

pub record HasSoundVotes (run : RunRecord) : Type 0 where
  pub valid : AllValid run run.approval.votes
  pub distinct : AllDistinct run.approval.votes

pub AllValid-append :
    (run : RunRecord) (votes : List ApprovalVote) (v : ApprovalVote)
    → AllValid run votes
    → IsValidVote run v
    → AllValid run (votes ++ v ∷ [])
AllValid-append run [] v a h = (h, tt)
AllValid-append run (w ∷ votes) v a h = (a.0, AllValid-append run votes v a.1 h)

-- The terms of an approval, which no vote changes.
pub AllValid-terms :
    (run run' : RunRecord) (votes : List ApprovalVote)
    → run'.policy ≡ run.policy
    → run'.tenant_id ≡ run.tenant_id
    → run'.approval.required_roles ≡ run.approval.required_roles
    → run'.approval.separation_of_duties ≡ run.approval.separation_of_duties
    → run'.approval.requester ≡ run.approval.requester
    → AllValid run votes
    → AllValid run' votes
AllValid-terms run run' [] p t r s q a = tt
AllValid-terms run run' (v ∷ votes) p t r s q a = (
  record {
    bound = ap (λ (d : PolicyDecision). d.plan_hash) p ∙ a.0.bound;
    approves = a.0.approves;
    tenant = a.0.tenant ∙ sym t;
    qualified = rw r a.0.qualified;
    separate = rw (s, q) a.0.separate;
  },
  AllValid-terms run run' votes p t r s q a.1,
)

has_voted-append :
    (name : String) (votes : List ApprovalVote) (v : ApprovalVote)
    → has_voted name (votes ++ v ∷ []) ≡ has_voted name votes || same_subject v.approver name
unfolding has_voted
has_voted-append name [] v = ground arith
has_voted-append name (w ∷ votes) v = ground (arith, has_voted-append name votes v)

pub AllDistinct-append :
    (votes : List ApprovalVote) (v : ApprovalVote)
    → AllDistinct votes
    → has_voted v.approver votes ≡ false
    → AllDistinct (votes ++ v ∷ [])
unfolding has_voted
AllDistinct-append [] v d h = (refl, tt)
AllDistinct-append (w ∷ votes) v d h = (
  ground
      (arith, has_voted-append w.approver votes v, same_subject_sym v.approver w.approver, h, d.0),
  AllDistinct-append votes v d.1 (ground arith),
)

-- What the checks of `decide` establish.
pub record IsAllowed (run : RunRecord) (user : UserIdentity) : Type 0 where
  pub tenant : run.tenant_id ≡ user.tenant_id
  pub awaiting : run.status ≡ awaiting_approval
  pub accepted : run.policy.accepted ≡ true
  pub hashed : truthy run.policy.plan_hash ≡ true
  pub current : same_text run.approval.plan_hash run.policy.plan_hash ≡ true
  pub qualified : has_all_roles user run.approval.required_roles ≡ true
  pub separate : is_requester run.approval user.username ≡ false
  pub fresh : has_voted user.username run.approval.votes ≡ false

pub vote_allowed-IsAllowed :
    (run : RunRecord) (user : UserIdentity) (version : ℕ)
    → vote_allowed run user version ≡ ok tt
    → IsAllowed run user
unfolding vote_allowed require_all_roles
vote_allowed-IsAllowed run user version h = record {
  tenant = ground (arith, eq_of_== run.tenant_id user.tenant_id);
  awaiting = ground arith;
  accepted = ground arith;
  hashed = ground arith;
  current = ground arith;
  qualified = ground arith;
  separate = ground arith;
  fresh = ground arith;
}
