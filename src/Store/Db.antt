-- ===== src/Store/Db.antt =====
-- The tables of backend/app/store.py, and a transaction on them. `with self._connect()` commits
-- when its block ends and rolls back when it raises, so an error carries no tables: they are as they
-- were. Times come as arguments; ISO texts in UTC are ordered as the times that they print.
use shou_ba_shou_jiaoxue_ai.Prelude.{ℕ, ◌*◌, String, Option, List, []}
use shou_ba_shou_jiaoxue_ai.Schemas.{RunRecord, JobRecord}
use shou_ba_shou_jiaoxue_ai.Result.{Result, ok, err}
use shou_ba_shou_jiaoxue_ai.Store.Table.{find}

-- A row of `agent_runs`: the payload column holds the whole record.
pub record RunRow : Type 0 where
  pub id : String
  pub payload : RunRecord
  pub updated_at : ℕ
  pub version : ℕ

pub record Db : Type 0 where
  pub runs : List RunRow
  pub jobs : List JobRecord

abbrev pub empty : Db
empty = record { runs = []; jobs = [] }

abbrev pub Tx : Type 0 → Type 0
Tx A = Db → Result (A × Db)

abbrev pub run_key : RunRow → String
run_key r = r.id

abbrev pub job_key : JobRecord → String
job_key j = j.id

abbrev pub find_run : String → Db → Option RunRow
find_run id db = find run_key id db.runs

abbrev pub find_job : String → Db → Option JobRecord
find_job id db = find job_key id db.jobs

-- What a caller is left with: its transaction's tables, or those that it started from.
abbrev pub after : {A : Type 0} → Db → Result (A × Db) → Db
after db (ok (a, db')) = db'
after db (err e) = db

-- `timedelta(seconds=n)` in microseconds.
abbrev pub seconds : ℕ → ℕ
seconds n = n * 1000000
