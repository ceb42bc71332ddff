-- ===== src/Jobs/Tables.antt =====
-- The scheduled_jobs and job_history tables of src/db/schema.ts, and the handlers of
-- src/jobs/registry.ts as the runner sees them.
use alchemist_template.Common.{ℕ, Bool, Option, List, Text, Result}
use alchemist_template.Campaign.Tables.{Mailing}

pub data RunStatus : Type 0 where
  ran_ok ran_failed : RunStatus

-- A JSON object as its entries, of which the last with a name counts.
abbrev pub Payload : Type 0
Payload = List (Text × Text)

-- The timestamps of the row's creation and last change, which nothing reads, are left out.
pub record ScheduledJob : Type 0 where
  pub id : ℕ
  pub organization_id : Option ℕ
  pub kind : Text
  pub cron : Text
  pub timezone : Text
  pub payload : Payload
  pub enabled : Bool
  pub next_run_at : ℕ
  pub last_run_at : Option ℕ
  pub last_status : Option RunStatus
  pub last_error : Option Text
  pub locked_at : Option ℕ

-- The statuses that the runner writes.
pub data HistoryStatus : Type 0 where
  running completed failed : HistoryStatus

pub record JobRun : Type 0 where
  pub id : ℕ
  pub job_type : Text
  pub organization_id : Option ℕ
  pub status : HistoryStatus
  pub payload : Payload
  pub result : Option Payload
  pub error : Option Text
  pub started_at : ℕ
  pub completed_at : Option ℕ

-- `next` is the next generated id.
pub record JobTables : Type 0 where
  pub jobs : List ScheduledJob
  pub runs : List JobRun
  pub mail : Mailing
  pub next : ℕ

pub record JobContext : Type 0 where
  pub job : ScheduledJob
  pub payload : Payload
  pub organization_id : Option ℕ
  pub scheduled_for : ℕ
  pub now : ℕ

-- What a handler does to the mailing tables, for how many milliseconds, and how it ends.
pub record Ran : Type 0 where
  pub mail : Mailing
  pub takes : ℕ
  pub ends : Result Text (Option Payload)

abbrev pub JobHandler : Type 0
JobHandler = JobContext → Mailing → Ran
