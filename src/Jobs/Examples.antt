-- ===== src/Jobs/Examples.antt =====
-- Tests of scheduled jobs.
use alchemist_template.Common.{
  ℕ, ◌+◌, ◌*◌, ◌≡◌, refl, ◌⊎◌, inl, Bool, true, false, ◌&&◌, none, some, List, [], ◌∷◌, map, arith,
  if◌then◌else◌, All, Text, codes, eq_text, update_where, Keyed, ok, err,
}
use alchemist_template.Common.Members.{In}
use alchemist_template.Common.Pick.{pick}
use alchemist_template.Import.Labels.{is_space, is_nil, trim}
use alchemist_template.Campaign.Tables.{Mailing}
use alchemist_template.Jobs.Tables.{ScheduledJob, JobTables, JobHandler}
use alchemist_template.Jobs.Cron.{
  assert_valid_cron, assert_valid_timezone, shortest_interval_seconds, next_run_after, Croner,
  checked, seconds_between, too_often,
}
use alchemist_template.Jobs.Service.{
  update_scheduled_job, plan_update, sets_nothing, write_update, is_job_kind_registered, Env,
  validate_schedule, CreateScheduledJobInput, UpdateScheduledJobInput,
}
use alchemist_template.Jobs.Claim.{picked, is_due, claim_limit}
use alchemist_template.Jobs.Run.{run_due_scheduled_jobs}
use alchemist_template.Jobs.Pass.{IsAdvanced, IsLeft, job_id, pass_advances}
use alchemist_template.Jobs.CatchUp.{IsLater, catch_up_once}
use alchemist_template.Jobs.History.{
  Turn, Action, creates, reads, writes, claims, executes, act, history, no_jobs,
}
use alchemist_template.Jobs.Cadence.{IsValid}
use alchemist_template.Jobs.Update.{IsFresh, IsCarried, update_validates}
use alchemist_template.Jobs.Valid.{schedules-IsValid}
use alchemist_template.Jobs.Turns.{turn_id}
use alchemist_template.Jobs.Locks.{AllInOrder, one_runner}

-- A cron that fires hourly, every ten seconds, or daily, by its name.
abbrev period : Text → ℕ
period expr =
    if eq_text expr (codes "hourly")
    then 3_600_000
    else if eq_text expr (codes "often")
    then 10_000
    else 86_400_000

abbrev clockwork : Croner
clockwork = record {
  construct = λ expr tz. if is_nil expr then err (codes "empty") else ok checked;
  next_run = λ expr tz now. ok (some (now + period expr));
  next_two = λ expr tz now. ok ((now + period expr) ∷ (now + period expr + period expr) ∷ []);
  knows_zone = λ tz. true;
}

clockwork-IsLater : IsLater clockwork
clockwork-IsLater expr tz now at h = ground arith

abbrev tidy : JobHandler
tidy ctx mail = record { mail = mail; takes = 20; ends = ok none }

abbrev env : Env
env = record {
  croner = clockwork;
  handlers = λ kind. if eq_text kind (codes "tidy") then some tidy else none;
  min_interval_seconds = 300;
  handler_timeout_ms = 60_000;
  iso = λ t. codes "at";
}

abbrev empty_mail : Mailing
empty_mail = record {
  campaigns = [];
  recipients = [];
  contacts = [];
  suppressions = [];
  outbox = [];
  next = 0;
  clock = 0;
}

abbrev missed : ScheduledJob
missed = record {
  id = 0;
  organization_id = none;
  kind = codes "tidy";
  cron = codes "hourly";
  timezone = codes "UTC";
  payload = [];
  enabled = true;
  next_run_at = 1000;
  last_run_at = none;
  last_status = none;
  last_error = none;
  locked_at = none;
}

abbrev tables : JobTables
tables = record { jobs = missed ∷ []; runs = []; mail = empty_mail; next = 1 }

abbrev no_one : ℕ → Bool
no_one i = false

abbrev at_once : ScheduledJob → ℕ
at_once j = 0

-- Forty missed hours are one run, and the next is an hour after the pass.
run_late :
    map
      (λ (r : ScheduledJob). r.next_run_at)
      (run_due_scheduled_jobs env none no_one 144_001_000 at_once tables).1.jobs
    ≡ 147_601_000 ∷ []
unfolding run_due_scheduled_jobs picked pick update_where next_run_after eq_text
run_late = refl

pass_advances_example :
    let after = (run_due_scheduled_jobs env none no_one 9000 at_once tables).1.jobs in
    (map job_id after ≡ map job_id tables.jobs)
    × All (λ x. IsLeft env none no_one 9000 at_once tables (tt, tt) x ⊎ IsAdvanced env 9000 x) after
pass_advances_example = pass_advances env none no_one 9000 at_once tables (tt, tt)

catch_up_once_example :
    All
      (λ x. is_due no_one 9000 x ≡ false)
      (run_due_scheduled_jobs env none no_one 9000 at_once tables).1.jobs
unfolding is_due claim_limit
catch_up_once_example =
    catch_up_once env none no_one 9000 at_once tables (tt, tt) clockwork-IsLater (omega arith)

abbrev hourly : CreateScheduledJobInput
hourly = record {
  kind = codes "tidy";
  cron = codes "hourly";
  timezone = none;
  payload = none;
  organization_id = none;
  enabled = none;
}

abbrev faster : UpdateScheduledJobInput
faster = record { cron = some (codes "often"); timezone = none; payload = none; enabled = none }

-- Ten seconds are too often.
often_refused :
    validate_schedule env (codes "tidy") (codes "often") (codes "UTC") 0 ≡ err (too_often 10)
unfolding validate_schedule seconds_between eq_text is_job_kind_registered assert_valid_cron
    assert_valid_timezone shortest_interval_seconds
often_refused = refl

abbrev a_day : List Action
a_day =
    creates 0 hourly
    ∷ claims none no_one 3_600_000
    ∷ reads 0 3_600_005 faster
    ∷ writes 0
    ∷ executes 0 3_600_100
    ∷ claims none no_one 7_200_000
    ∷ []

abbrev daily : UpdateScheduledJobInput
daily = record { cron = some (codes "daily"); timezone = none; payload = none; enabled = none }

abbrev slowed : JobTables
slowed =
    (history env
      (creates 0 hourly
        ∷ claims none no_one 3_600_000
        ∷ reads 0 3_600_005 daily
        ∷ writes 0
        ∷ executes 0 3_600_100
        ∷ [])
      (no_jobs empty_mail)).tables

-- A schedule that is set to daily while it runs is due again an hour after the claim.
old_cadence :
    (map (λ (r : ScheduledJob). r.cron) slowed.jobs ≡ codes "daily" ∷ [])
    × (map (λ (r : ScheduledJob). r.next_run_at) slowed.jobs ≡ 7_200_000 ∷ [])
unfolding history act picked pick update_where trim eq_text is_job_kind_registered assert_valid_cron
    is_space assert_valid_timezone shortest_interval_seconds next_run_after
old_cadence = (refl, refl)

schedules-IsValid_example : All (IsValid env) (history env a_day (no_jobs empty_mail)).tables.jobs
schedules-IsValid_example = schedules-IsValid env empty_mail a_day

a_day_is_in_order : AllInOrder env a_day (no_jobs empty_mail)
unfolding AllInOrder act picked pick update_where trim eq_text is_job_kind_registered
    assert_valid_cron is_space assert_valid_timezone shortest_interval_seconds next_run_after
a_day_is_in_order = (tt, (λ h m. absurd m, (tt, (tt, (tt, (λ h m. absurd m, tt))))))

one_runner_example :
    let s = history env a_day (no_jobs empty_mail) in
    Keyed turn_id s.turns
    × ((h : Turn)
        → In h s.turns
        → (r : ScheduledJob) → In r s.tables.jobs
        → r.id ≡ turn_id h
        → r.locked_at ≡ some h.now)
one_runner_example = one_runner env empty_mail a_day a_day_is_in_order

-- Every hour, but every ten seconds for the one cron in the one zone.
abbrev odd_period : Text → Text → ℕ
odd_period expr tz =
    if eq_text expr (codes "odd") && eq_text tz (codes "Away") then 10_000 else 3_600_000

abbrev odd_env : Env
odd_env = record env {
  croner = record clockwork {
    next_two = λ expr tz now. ok ((now + odd_period expr tz) ∷ (now + 2 * odd_period expr tz) ∷ []);
  };
}

abbrev to_odd : UpdateScheduledJobInput
to_odd = record { cron = some (codes "odd"); timezone = none; payload = none; enabled = none }

abbrev to_away : UpdateScheduledJobInput
to_away = record { cron = none; timezone = some (codes "Away"); payload = none; enabled = none }

abbrev raced : JobTables
raced =
    (history odd_env
      (creates 0 hourly ∷ reads 0 1000 to_odd ∷ reads 0 1001 to_away ∷ writes 1 ∷ writes 0 ∷ [])
      (no_jobs empty_mail)).tables

-- Two updates that race leave a cron and a zone that validateSchedule refuses together.
pair_unchecked :
    map (λ (r : ScheduledJob). validate_schedule odd_env r.kind r.cron r.timezone 2000) raced.jobs
    ≡ err (too_often 10) ∷ []
unfolding history act update_where trim eq_text is_job_kind_registered assert_valid_cron is_space
    assert_valid_timezone shortest_interval_seconds next_run_after validate_schedule seconds_between
pair_unchecked = refl

abbrev daily_row : ScheduledJob
daily_row = record missed { cron = codes "daily"; next_run_at = 86_409_000 }

update_validates_example : IsFresh env 9000 daily_row ⊎ IsCarried tables.jobs daily_row
unfolding update_scheduled_job plan_update sets_nothing write_update trim eq_text
    is_job_kind_registered assert_valid_cron is_space assert_valid_timezone
    shortest_interval_seconds next_run_after update_where
update_validates_example =
    update_validates env 0 9000 daily (λ t. t) tables (record tables { jobs = daily_row ∷ [] })
      daily_row (tt, tt) refl refl (inl refl) refl
