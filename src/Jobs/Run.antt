-- ===== src/Jobs/Run.antt =====
-- runDueScheduledJobs and executeOne of src/services/scheduled-jobs.service.ts.
use alchemist_template.Common.{
  ℕ, ◌+◌, Bool, false, Option, none, some, List, [], ◌∷◌, ◌++◌, ltb, ◌==◌, if◌then◌else◌, length,
  Text, codes, decimal, Result, update_where, ok, err,
}
use alchemist_template.Outbox.Table.{EnqueueInput}
use alchemist_template.Campaign.Tables.{Mailing}
use alchemist_template.Jobs.Tables.{
  RunStatus, ran_ok, ran_failed, Payload, ScheduledJob, HistoryStatus, running, completed, failed,
  JobRun, JobTables, JobContext, Ran, JobHandler,
}
use alchemist_template.Jobs.Cron.{next_run_after}
use alchemist_template.Jobs.Service.{Env}
use alchemist_template.Jobs.Claim.{claim_due}

abbrev pub context : ScheduledJob → ℕ → JobContext
context job now = record {
  job = job;
  payload = job.payload;
  organization_id = job.organization_id;
  scheduled_for = job.next_run_at;
  now = now;
}

-- `ctx.idempotencyKey`; `id` stands for the text of the generated id.
idempotency_key : Env → (ℕ → Text) → JobContext → Text → Text
idempotency_key env id ctx suffix =
    codes "job:"
    ++ ctx.job.kind
    ++ codes ":"
    ++ id ctx.job.id
    ++ codes ":"
    ++ env.iso ctx.scheduled_for
    ++ codes ":"
    ++ suffix

some_or : {A : Type 0} → Option A → Option A → Option A
some_or none d = d
some_or (some a) d = some a

-- The input of `ctx.enqueueEmail`, where the organization and the source that it gives come first.
for_job : ScheduledJob → EnqueueInput → EnqueueInput
unfolding some_or
for_job job i = record i {
  organization_id = some_or i.organization_id job.organization_id;
  source = some_or i.source (some (codes "job:" ++ job.kind));
}

-- How the handler's turn ends, and the mailing tables after it.
pub record Outcome : Type 0 where
  pub status : RunStatus
  pub error : Option Text
  pub result : Option Payload
  pub mail : Mailing

-- The end of the handler, or the timeout where that comes first.
with_timeout : ℕ → Text → Ran → Result Text (Option Payload)
with_timeout ms label ran =
    if ltb ran.takes ms
    then ran.ends
    else err (label ++ codes " timed out after " ++ decimal ms ++ codes "ms")

ended : Mailing → Result Text (Option Payload) → Outcome
ended mail (ok out) = record { status = ran_ok; error = none; result = out; mail = mail }
ended mail (err message) = record {
  status = ran_failed;
  error = some message;
  result = none;
  mail = mail;
}

handled : Env → ScheduledJob → ℕ → Mailing → Option JobHandler → Outcome
unfolding ended with_timeout
handled env job now mail none = record {
  status = ran_failed;
  error = some (codes "No job handler registered for kind \"" ++ job.kind ++ codes "\"");
  result = none;
  mail = mail;
}
handled env job now mail (some handler) =
    let ran = handler (context job now) mail in
    ended ran.mail (with_timeout env.handler_timeout_ms (codes "job " ++ job.kind) ran)

unfoldable pub run_handler : Env → ScheduledJob → ℕ → Mailing → Outcome
unfolding handled
run_handler env job now mail = handled env job now mail (env.handlers job.kind)

joined : Option Text → Text → Text
joined none message = codes "cannot compute next run: " ++ message
joined (some error) message = error ++ codes "; cannot compute next run: " ++ message

-- The outcome with the error of the next fire, where there is one, and that fire.
unfoldable pub advanced : Outcome → Result Text (Option ℕ) → Outcome × Option ℕ
unfolding joined
advanced o (ok next) = (o, next)
advanced o (err message) =
    (record o { status = ran_failed; error = some (joined o.error message) }, none)

abbrev pub history_status : RunStatus → HistoryStatus
history_status ran_ok = completed
history_status ran_failed = failed

unfoldable pub opened : ScheduledJob → Env → ℕ → ℕ → JobRun
opened job env now id = record {
  id = id;
  job_type = job.kind;
  organization_id = job.organization_id;
  status = running;
  payload =
      (codes "scheduledJobId", decimal job.id)
      ∷ (codes "scheduledFor", env.iso job.next_run_at)
      ∷ job.payload;
  result = none;
  error = none;
  started_at = now;
  completed_at = none;
}

unfoldable pub closed : Outcome → ℕ → JobRun → JobRun
closed o done r = record r {
  status = history_status o.status;
  result = o.result;
  error = o.error;
  completed_at = some done;
}

-- What the run leaves on the schedule.
unfoldable pub finished : ℕ → Outcome → Option ℕ → ScheduledJob → ScheduledJob
finished now o none r = record r {
  last_run_at = some now;
  last_status = some o.status;
  last_error = o.error;
  locked_at = none;
  enabled = false;
}
finished now o (some next) r = record r {
  last_run_at = some now;
  last_status = some o.status;
  last_error = o.error;
  locked_at = none;
  next_run_at = next;
}

-- How the run of one claimed row ends, and the tables; `done` is the clock when the handler's turn is
-- over. A handler that is abandoned and acts later counts as done in its turn.
unfoldable pub execute_one : Env → ℕ → ℕ → ScheduledJob → JobTables → RunStatus × JobTables
unfolding run_handler advanced opened closed finished
execute_one env now done job t =
    let id = t.next in
    let (o, next) =
      advanced (run_handler env job now t.mail)
        (next_run_after env.croner job.cron job.timezone now) in
    (
      o.status,
      record {
        jobs = update_where (λ r. r.id == job.id) (finished now o next) t.jobs;
        runs =
            update_where (λ r. r.id == id) (closed o done) (t.runs ++ opened job env now id ∷ []);
        mail = o.mail;
        next = id + 1;
      },
    )

pub record RunDueResult : Type 0 where
  pub claims : ℕ
  pub successes : ℕ
  pub failures : ℕ

abbrev pub counted : RunStatus → RunDueResult → RunDueResult
counted ran_ok n = record n { successes = n.successes + 1 }
counted ran_failed n = record n { failures = n.failures + 1 }

unfoldable pub execute_each :
    Env
    → ℕ
    → (ScheduledJob → ℕ)
    → List ScheduledJob
    → RunDueResult
    → JobTables
    → RunDueResult × JobTables
unfolding execute_one
execute_each env now done [] n t = (n, t)
execute_each env now done (job ∷ more) n t =
    let (status, after) = execute_one env now (done job) job t in
    execute_each env now done more (counted status n) after

-- The counts `claimed`, `ok` and `failed`, and the tables, after a pass that is not interrupted.
unfoldable pub run_due_scheduled_jobs :
    Env → Option ℕ → (ℕ → Bool) → ℕ → (ScheduledJob → ℕ) → JobTables → RunDueResult × JobTables
unfolding claim_due execute_each
run_due_scheduled_jobs env limit held now done t =
    let (took, after) = claim_due limit held now t in
    execute_each env now done took (record { claims = length took; successes = 0; failures = 0 })
      after
