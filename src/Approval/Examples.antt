-- ===== src/Approval/Examples.antt =====
-- An approval of backend/app/agent.py that one vote completes.
use shou_ba_shou_jiaoxue_ai.Prelude.{◌≡◌, refl, some, [], ◌∷◌, ◌==◌, contains}
use shou_ba_shou_jiaoxue_ai.Schemas.{RunStatus, Node, RunRecord}
use shou_ba_shou_jiaoxue_ai.Schemas.{approve, approved}
use shou_ba_shou_jiaoxue_ai.Result.{ok}
use shou_ba_shou_jiaoxue_ai.Samples.{waiting_run, lead}
use shou_ba_shou_jiaoxue_ai.Store.Table.{insert, find, update_where, row_count}
use shou_ba_shou_jiaoxue_ai.Store.Db.{Db, empty, after}
use shou_ba_shou_jiaoxue_ai.Store.Runs.{
  save_run, get_run, candidate, write_version, with_version, row_of,
}
use shou_ba_shou_jiaoxue_ai.Store.Update.{KeysUnique}
use shou_ba_shou_jiaoxue_ai.Store.Jobs.{enqueue_job, is_none}
use shou_ba_shou_jiaoxue_ai.Security.Roles.{
  has_all_roles, require_all_roles, includes, same_subject,
}
use shou_ba_shou_jiaoxue_ai.Approval.Vote.{
  Tally, approved_run, tally, vote_of, vote_allowed, has_voted, ballot, count_vote, require_run,
}
use shou_ba_shou_jiaoxue_ai.Approval.Actions.{decide, execution_actor, saved_tally, enqueue_after}
use shou_ba_shou_jiaoxue_ai.Approval.Ballots.{HasSoundVotes}
use shou_ba_shou_jiaoxue_ai.Approval.Quorum.{IsSoundTally, tally-IsSoundTally}
use shou_ba_shou_jiaoxue_ai.Approval.Execution.{decider, approved_run_executes}
use shou_ba_shou_jiaoxue_ai.Approval.Decide.{IsCommitted, decide-IsCommitted}

waiting-HasSoundVotes : HasSoundVotes waiting_run
waiting-HasSoundVotes = record { valid = tt; distinct = tt }

abbrev decided_run : RunRecord
decided_run = record waiting_run {
  status = RunStatus.queued;
  current_node = Node.execute;
  approval = record waiting_run.approval {
    decision = approved;
    votes = vote_of waiting_run lead approve "go" ∷ [];
    decided_by = some "lead@harbor.local";
    decided_roles = "on-call-lead" ∷ "observer" ∷ [];
    note = some "go";
  };
  audit = record { actor = "lead@harbor.local"; action = "approval.approved" } ∷ [];
}

vote_decides : tally waiting_run "approve" lead "go" 0 ≡ ok (approved_run decided_run)
unfolding tally vote_allowed require_all_roles has_all_roles contains includes same_subject
    has_voted ballot count_vote ◌==◌
vote_decides = refl

tally-IsSoundTally_example : IsSoundTally waiting_run lead (approved_run decided_run)
tally-IsSoundTally_example =
    tally-IsSoundTally waiting_run "approve" lead "go" 0 (approved_run decided_run)
      waiting-HasSoundVotes vote_decides

approved_run_executes_example : execution_actor decided_run ≡ ok (decider lead)
unfolding ◌==◌
approved_run_executes_example =
    approved_run_executes waiting_run decided_run "approve" lead "go" 0 refl refl
      waiting-HasSoundVotes vote_decides

empty-KeysUnique : KeysUnique empty
empty-KeysUnique = record { runs = tt; jobs = tt }

-- The waiting run as the store holds it.
abbrev waiting_db : Db
waiting_db = after empty (save_run 1 waiting_run empty)

waiting_db-KeysUnique : KeysUnique waiting_db
unfolding save_run find insert
waiting_db-KeysUnique = record { runs = (refl, tt); jobs = tt }

abbrev decided_db : Db
decided_db = (decide "job-1" 5 6 "run-1" "approve" lead "go" 1 waiting_db).1

abbrev resumed_run : RunRecord
resumed_run = record decided_run { version = 2; updated_at = 5 }

decide_runs :
    decide "job-1" 5 6 "run-1" "approve" lead "go" 1 waiting_db ≡ (ok resumed_run, decided_db)
unfolding decide require_run get_run with_version saved_tally enqueue_after enqueue_job is_none
    save_run write_version update_where row_count insert find row_of candidate tally vote_allowed
    require_all_roles has_all_roles contains includes same_subject has_voted ballot count_vote ◌==◌
decide_runs = refl

decide-IsCommitted_example :
    (run : RunRecord) × (t : Tally) × (get_run "run-1" waiting_db ≡ some run)
    × (tally run "approve" lead "go" 1 ≡ ok t)
    × IsCommitted "job-1" 5 6 t resumed_run waiting_db decided_db
decide-IsCommitted_example =
    decide-IsCommitted "job-1" 5 6 waiting_db waiting_db-KeysUnique "run-1" "approve" lead "go" 1
      resumed_run decided_db decide_runs
