-- ===== src/Jobs/Tick.antt =====
-- runJobsTick of src/jobs/runner.ts: schedules, then campaigns, then the outbox.
use alchemist_template.Common.{ℕ, Bool, none}
use alchemist_template.Outbox.Table.{Email}
use alchemist_template.Outbox.Deliver.{SendOutcome, DeliverResult, deliver_due_emails}
use alchemist_template.Campaign.Snapshot
use alchemist_template.Campaign.Advance.{advance_campaigns}
use alchemist_template.Jobs.Tables.{ScheduledJob, JobTables}
use alchemist_template.Jobs.Service.{Env}
use alchemist_template.Jobs.Run.{RunDueResult, run_due_scheduled_jobs}

-- What one tick is given: the two environments, whether communications are on, the rows that other
-- transactions hold in each table, when each handler's turn is over, and how each email goes.
pub record TickEnv : Type 0 where
  pub env : Env
  pub mailing : alchemist_template.Campaign.Snapshot.Env
  pub communications : Bool
  pub held_jobs : ℕ → Bool
  pub held_campaigns : ℕ → Bool
  pub held_emails : ℕ → Bool
  pub done : ScheduledJob → ℕ
  pub send : Email → SendOutcome

-- The counts of the campaigns and the duration, which are only logged, are left out.
pub record TickResult : Type 0 where
  pub jobs : RunDueResult
  pub emails : DeliverResult

-- The tables when the schedules and the campaigns have queued their emails.
unfoldable pub queued : TickEnv → ℕ → JobTables → RunDueResult × JobTables
queued e now t =
    let (jobs, after) = run_due_scheduled_jobs e.env none e.held_jobs now e.done t in
    (
      jobs,
      record after {
        mail = advance_campaigns e.mailing e.communications e.held_campaigns now after.mail;
      },
    )

unfoldable pub run_jobs_tick : TickEnv → ℕ → JobTables → TickResult × JobTables
unfolding queued
run_jobs_tick e now t =
    let (jobs, after) = queued e now t in
    let (emails, outbox) = deliver_due_emails none e.held_emails now e.send after.mail.outbox in
    (
      record { jobs = jobs; emails = emails },
      record after { mail = record after.mail { outbox = outbox } },
    )
