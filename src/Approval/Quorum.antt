-- ===== src/Approval/Quorum.antt =====
-- The quorum of backend/app/agent.py: what a vote makes of a run, and who may execute it.
use shou_ba_shou_jiaoxue_ai.Prelude.{
  ℕ, ◌≤◌, ◌<◌, String, ◌≡◌, refl, sym, subst, true, false, some, List, [], ◌∷◌, ◌++◌, arith,
  ==_refl, length,
}
use shou_ba_shou_jiaoxue_ai.Schemas.{RunStatus, Node, UserIdentity, Ballot, ApprovalVote, RunRecord}
use shou_ba_shou_jiaoxue_ai.Result.{ok, >>=-eq-ok}
use shou_ba_shou_jiaoxue_ai.Schemas.{awaiting_approval, approve, deny, approved, denied}
use shou_ba_shou_jiaoxue_ai.Security.Roles.{has_all_roles}
use shou_ba_shou_jiaoxue_ai.Approval.Gate.{Quorum, gate}
use shou_ba_shou_jiaoxue_ai.Approval.Vote.{
  Tally, recorded, approved_run, denied_run, vote_of, vote_allowed, ballot, count_vote, tally,
}
use shou_ba_shou_jiaoxue_ai.Approval.Actions.{has_stale_vote}
use shou_ba_shou_jiaoxue_ai.Approval.Ballots.{
  IsValidVote, AllValid, AllDistinct, HasSoundVotes, AllValid-append, AllValid-terms,
  AllDistinct-append, IsAllowed, vote_allowed-IsAllowed,
}

vote_of-IsValidVote :
    (run : RunRecord) (user : UserIdentity) (note : String)
    → IsAllowed run user
    → IsValidVote run (vote_of run user approve note)
unfolding has_all_roles
vote_of-IsValidVote run user note a = record {
  bound = ground (arith, a.hashed);
  approves = refl;
  tenant = sym a.tenant;
  qualified = a.qualified;
  separate = a.separate;
}

-- What a vote may make of a run.
abbrev pub IsSoundTally : RunRecord → UserIdentity → Tally → Type 0
IsSoundTally run user (recorded run') =
    HasSoundVotes run'
    × (run'.status ≡ awaiting_approval)
    × (run'.current_node ≡ run.current_node)
    × (length run'.approval.votes < run'.approval.required_approvals)
IsSoundTally run user (approved_run run') =
    HasSoundVotes run'
    × (run'.status ≡ RunStatus.queued)
    × (run'.current_node ≡ Node.execute)
    × (run'.approval.required_approvals ≤ length run'.approval.votes)
IsSoundTally run user (denied_run run') =
    (run'.status ≡ RunStatus.handed_off) × (run'.approval.decision ≡ denied)

module _ (run : RunRecord) (user : UserIdentity) (note : String) where
  abbrev cast : List ApprovalVote
  cast = run.approval.votes ++ vote_of run user approve note ∷ []

  cast-HasSoundVotes :
      (run' : RunRecord)
      → IsAllowed run user
      → HasSoundVotes run
      → run'.policy ≡ run.policy
      → run'.tenant_id ≡ run.tenant_id
      → run'.approval.required_roles ≡ run.approval.required_roles
      → run'.approval.separation_of_duties ≡ run.approval.separation_of_duties
      → run'.approval.requester ≡ run.approval.requester
      → run'.approval.votes ≡ cast
      → HasSoundVotes run'
  cast-HasSoundVotes run' a s p t r d q v = record {
    valid = subst (AllValid run') (sym v) (
        AllValid-terms run run' cast p t r d q
          (AllValid-append run run.approval.votes _ s.valid (vote_of-IsValidVote run user note a)));
    distinct =
        subst AllDistinct (sym v) (
          AllDistinct-append run.approval.votes (vote_of run user approve note) s.distinct a.fresh);
  }

  count_vote-IsSoundTally :
      (b : Ballot) (t : Tally)
      → IsAllowed run user
      → HasSoundVotes run
      → count_vote run user note b ≡ ok t
      → IsSoundTally run user t
  unfolding count_vote
  count_vote-IsSoundTally approve (recorded run') a s h = (
    cast-HasSoundVotes run' a s (ground arith) (ground arith) (ground arith) (ground arith)
        (ground arith) (ground arith),
    ground (arith, a.awaiting),
    ground arith,
    ground arith,
  )
  count_vote-IsSoundTally approve (approved_run run') a s h = (
    cast-HasSoundVotes run' a s (ground arith) (ground arith) (ground arith) (ground arith)
        (ground arith) (ground arith),
    ground arith,
    ground arith,
    ground arith,
  )
  count_vote-IsSoundTally approve (denied_run run') a s h = ground arith
  count_vote-IsSoundTally deny (recorded run') a s h = ground arith
  count_vote-IsSoundTally deny (approved_run run') a s h = ground arith
  count_vote-IsSoundTally deny (denied_run run') a s h = ground arith

pub tally-parts :
    (run : RunRecord) (decision : String) (user : UserIdentity) (note : String) (version : ℕ)
    (t : Tally)
    → tally run decision user note version ≡ ok t
    → (vote_allowed run user version ≡ ok tt)
      × (b : Ballot) × (ballot decision note ≡ ok b)
      × (count_vote run user note b ≡ ok t)
unfolding tally
tally-parts run decision user note version t h =
    let (_, e, g) = >>=-eq-ok (vote_allowed run user version) _ h in
    let (b, f, k) = >>=-eq-ok (ballot decision note) _ g in (e, b, f, k)

-- A vote that is taken keeps the votes sound: each approves the plan that was compiled, comes from
-- the run's tenant, holds the required roles (or admin) and is not the requester's where duties are
-- separated, and no subject counts twice, in any spelling of its name. The run is queued for
-- execution only with as many votes as the gate asked for; with fewer it keeps waiting where it was;
-- a denial hands it off.
pub tally-IsSoundTally :
    (run : RunRecord) (decision : String) (user : UserIdentity) (note : String) (version : ℕ)
    (t : Tally)
    → HasSoundVotes run
    → tally run decision user note version ≡ ok t
    → IsSoundTally run user t
tally-IsSoundTally run decision user note version t s h =
    let (e, b, f, k) = tally-parts run decision user note version t h in
    count_vote-IsSoundTally run user note b t (vote_allowed-IsAllowed run user version e) s k

-- The gate starts an approval with no votes.
pub gate-HasSoundVotes :
    (q : Quorum) (run run' : RunRecord) → gate q run ≡ ok run' → HasSoundVotes run'
unfolding gate
gate-HasSoundVotes q run run' h = record {
  valid = subst (AllValid run') {x = []} (ground arith) tt;
  distinct = subst AllDistinct {x = []} (ground arith) tt;
}

pub not_stale :
    (run : RunRecord) (votes : List ApprovalVote)
    → AllValid run votes
    → has_stale_vote run.policy.plan_hash votes ≡ false
unfolding has_stale_vote
not_stale run [] a = refl
not_stale run (v ∷ votes) a =
    ground (arith, a.0.bound, not_stale run votes a.1, ==_refl v.plan_hash)

pub approved_fields :
    (run run' : RunRecord) (user : UserIdentity) (note : String)
    → count_vote run user note approve ≡ ok (approved_run run')
    → (run'.approval.required ≡ true)
      × (run'.approval.decision ≡ approved)
      × (run'.approval.plan_hash ≡ run.policy.plan_hash)
      × (run'.policy ≡ run.policy)
      × (run'.approval.decided_by ≡ some user.username)
      × (run'.approval.decided_roles ≡ user.roles)
      × (run'.tenant_id ≡ run.tenant_id)
unfolding count_vote
approved_fields run run' user note h = ground arith
