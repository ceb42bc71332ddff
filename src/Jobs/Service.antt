-- ===== src/Jobs/Service.antt =====
-- validateSchedule and the operations on schedules of src/services/scheduled-jobs.service.ts.
use alchemist_template.Common.{
  ℕ, ◌+◌, min, max, Bool, true, false, not, ◌&&◌, ◌||◌, Option, none, some, List, [], ◌∷◌, ◌++◌,
  ltb, leb, ◌==◌, if◌then◌else◌, is_none, or_else, filter, find?, any, Text, eq_text, Result, ◌>>=◌,
  update_where, count_where, ok, err,
}
use alchemist_template.Common.Pick.{pick}
use alchemist_template.Import.Labels.{trim, is_nil}
use alchemist_template.Jobs.Tables.{ScheduledJob, Payload, JobTables, JobHandler}
use alchemist_template.Jobs.Cron.{
  no_result, Croner, Checked, checked, JobError, no_handler, never_fires, not_found, too_often,
  thrown, utc, assert_valid_cron, assert_valid_timezone, next_run_after, shortest_interval_seconds,
}

-- What is given to the runner: croner, the registered handlers, the two settings, and
-- `toISOString`.
pub record Env : Type 0 where
  pub croner : Croner
  pub handlers : Text → Option JobHandler
  pub min_interval_seconds : ℕ
  pub handler_timeout_ms : ℕ
  pub iso : ℕ → Text

unfoldable pub is_job_kind_registered : Env → Text → Bool
is_job_kind_registered env kind = elim (env.handlers kind) [ none ↦ false | some h ↦ true ]

-- `interval !== null && interval < MIN_INTERVAL_SECONDS`
unfoldable pub check_interval : Env → Option ℕ → Result JobError Checked
check_interval env none = ok checked
check_interval env (some s) =
    if ltb s env.min_interval_seconds then err (too_often s) else ok checked

unfoldable pub check_fires : Option ℕ → Result JobError ℕ
check_fires none = err never_fires
check_fires (some at) = ok at

unfoldable pub validate_schedule : Env → Text → Text → Text → ℕ → Result JobError ℕ
unfolding check_interval check_fires
validate_schedule env kind cron timezone now =
    if not (is_job_kind_registered env kind)
    then err no_handler
    else (assert_valid_cron env.croner cron >>= λ _.
        assert_valid_timezone env.croner timezone >>= λ _.
        thrown (shortest_interval_seconds env.croner cron timezone now) >>= λ interval.
        check_interval env interval >>= λ _.
        thrown (next_run_after env.croner cron timezone now) >>= λ next. check_fires next)

pub record CreateScheduledJobInput : Type 0 where
  pub kind : Text
  pub cron : Text
  pub timezone : Option Text
  pub payload : Option Payload
  pub organization_id : Option ℕ
  pub enabled : Option Bool

-- `input.timezone?.trim() || "UTC"`
unfoldable pub zone_of : Option Text → Text
zone_of none = utc
zone_of (some z) = if is_nil (trim z) then utc else trim z

unfoldable pub new_job : ℕ → ℕ → CreateScheduledJobInput → ScheduledJob
unfolding zone_of
new_job id next_run_at i = record {
  id = id;
  organization_id = i.organization_id;
  kind = i.kind;
  cron = trim i.cron;
  timezone = zone_of i.timezone;
  payload = or_else i.payload [];
  enabled = or_else i.enabled true;
  next_run_at = next_run_at;
  last_run_at = none;
  last_status = none;
  last_error = none;
  locked_at = none;
}

-- The table after an insert; its row is the last one.
unfoldable pub create_scheduled_job :
    Env → ℕ → CreateScheduledJobInput → JobTables → Result JobError JobTables
unfolding validate_schedule new_job zone_of
create_scheduled_job env now i t =
    validate_schedule env i.kind (trim i.cron) (zone_of i.timezone) now >>= λ at.
    ok (record t { jobs = t.jobs ++ new_job t.next at i ∷ []; next = t.next + 1 })

pub record UpdateScheduledJobInput : Type 0 where
  pub cron : Option Text
  pub timezone : Option Text
  pub payload : Option Payload
  pub enabled : Option Bool

-- `patch.cron?.trim() ?? current.cron`, and the same of the zone.
unfoldable pub trimmed_or : Option Text → Text → Text
trimmed_or none old = old
trimmed_or (some s) old = trim s

unfoldable pub cadence_changed : UpdateScheduledJobInput → ScheduledJob → Bool
unfolding trimmed_or
cadence_changed patch current =
    not (eq_text (trimmed_or patch.cron current.cron) current.cron)
    || not (eq_text (trimmed_or patch.timezone current.timezone) current.timezone)

unfoldable pub re_enabled : UpdateScheduledJobInput → ScheduledJob → Bool
re_enabled patch current = or_else patch.enabled current.enabled && not current.enabled

-- The columns that the patch sets, and the next fire where it was computed anew.
unfoldable pub patched : UpdateScheduledJobInput → Option ℕ → ScheduledJob → ScheduledJob
unfolding trimmed_or
patched patch next r = record r {
  cron = trimmed_or patch.cron r.cron;
  timezone = trimmed_or patch.timezone r.timezone;
  payload = or_else patch.payload r.payload;
  enabled = or_else patch.enabled r.enabled;
  next_run_at = or_else next r.next_run_at;
}

unfoldable pub new_fire :
    Env → ℕ → UpdateScheduledJobInput → ScheduledJob → Result JobError (Option ℕ)
unfolding cadence_changed re_enabled validate_schedule trimmed_or
new_fire env now patch current =
    if cadence_changed patch current || re_enabled patch current
    then (validate_schedule env current.kind (trimmed_or patch.cron current.cron)
          (trimmed_or patch.timezone current.timezone) now
        >>= λ at. ok (some at))
    else ok none

-- The read of updateScheduledJob and its checks: the next fire where it is computed anew.
unfoldable pub plan_current :
    Env → ℕ → UpdateScheduledJobInput → Option ScheduledJob → Result JobError (Option ℕ)
unfolding new_fire
plan_current env now patch none = err not_found
plan_current env now patch (some current) = new_fire env now patch current

unfoldable pub plan_update :
    Env → ℕ → ℕ → UpdateScheduledJobInput → JobTables → Result JobError (Option ℕ)
unfolding plan_current
plan_update env id now patch t = plan_current env now patch (find? (λ r. r.id == id) t.jobs)

-- Its UPDATE, by the id alone.
unfoldable pub write_update :
    ℕ → UpdateScheduledJobInput → Option ℕ → JobTables → Result JobError JobTables
unfolding patched
write_update id patch next t =
    if any (λ (r : ScheduledJob). r.id == id) t.jobs
    then ok (record t { jobs = update_where (λ r. r.id == id) (patched patch next) t.jobs })
    else err no_result

-- A patch without any column; a next fire is computed only for another.
unfoldable pub sets_nothing : UpdateScheduledJobInput → Bool
sets_nothing patch =
    is_none patch.cron
    && (is_none patch.timezone && (is_none patch.payload && is_none patch.enabled))

-- `between` is what other transactions commit between the read and the write, which are not one.
unfoldable pub update_scheduled_job :
    Env
    → ℕ
    → ℕ
    → UpdateScheduledJobInput
    → (JobTables → JobTables)
    → JobTables
    → Result JobError JobTables
unfolding plan_update write_update sets_nothing
update_scheduled_job env id now patch between t = plan_update env id now patch t >>= λ next.
    if sets_nothing patch then ok (between t) else write_update id patch next (between t)

-- Whether a row was deleted, and the tables.
unfoldable pub delete_scheduled_job : ℕ → JobTables → Bool × JobTables
delete_scheduled_job id t = (
  ltb 0 (count_where (λ (r : ScheduledJob). r.id == id) t.jobs),
  record t { jobs = filter (λ r. not (r.id == id)) t.jobs },
)

abbrev pub fires_before : ScheduledJob → ScheduledJob → Bool
fires_before a b = leb a.next_run_at b.next_run_at

-- No filter, the schedules of the application, or those of an organization.
of_organization : Option (Option ℕ) → ScheduledJob → Bool
of_organization none r = true
of_organization (some none) r = elim r.organization_id [ none ↦ true | some o ↦ false ]
of_organization (some (some org)) r = elim r.organization_id [ none ↦ false | some o ↦ o == org ]

-- With `limit`, `Math.min(Math.max(opts.limit ?? 100, 1), 500)` rows.
list_scheduled_jobs : Option (Option ℕ) → Option ℕ → JobTables → List ScheduledJob
unfolding of_organization
list_scheduled_jobs organization limit t =
    pick fires_before (min (max (or_else limit 100) 1) 500) (of_organization organization) t.jobs
