-- ===== src/Jobs/Update.antt =====
-- updateScheduledJob of src/services/scheduled-jobs.service.ts while no other call touches the
-- schedules.
use alchemist_template.Common.{
  ℕ, ◌≡◌, refl, ◌⊎◌, inl, inr, true, ◌||◌, Option, none, some, List, arith, ◌==◌, Bool-cases,
  Option-cases, find?, any, eq_text_iff, ok-sequence, update_where, Keyed, Keyed-same,
  In-update-cases, ok,
}
use alchemist_template.Common.Members.{In, find?-In}
use alchemist_template.Jobs.Tables.{ScheduledJob, JobTables}
use alchemist_template.Jobs.Service.{
  Env, UpdateScheduledJobInput, update_scheduled_job, plan_update, plan_current, write_update,
  sets_nothing, validate_schedule, new_fire, patched, trimmed_or, cadence_changed, re_enabled,
}
use alchemist_template.Jobs.Pass.{job_id}

-- Its cron, zone and next fire are those of a schedule with the same id before, which was on if this
-- one is.
abbrev pub IsCarried : List ScheduledJob → ScheduledJob → Type 0
IsCarried before x =
    (old : ScheduledJob) × In old before
    × (x.id ≡ old.id)
    × (x.cron ≡ old.cron)
    × (x.timezone ≡ old.timezone)
    × (x.next_run_at ≡ old.next_run_at)
    × (x.enabled ≡ true → old.enabled ≡ true)

-- validateSchedule accepts its cadence, with its next fire.
abbrev pub IsFresh : Env → ℕ → ScheduledJob → Type 0
IsFresh env now x = validate_schedule env x.kind x.cron x.timezone now ≡ ok x.next_run_at

patched_row :
    (env : Env) (now : ℕ) (patch : UpdateScheduledJobInput) (next : Option ℕ) (w : ScheduledJob)
    (before : List ScheduledJob)
    → In w before
    → new_fire env now patch w ≡ ok next
    → IsFresh env now (patched patch next w) ⊎ IsCarried before (patched patch next w)
unfolding new_fire patched cadence_changed re_enabled
patched_row env now patch next w before m h =
    elim (Bool-cases (cadence_changed patch w || re_enabled patch w)) [
      | inl changed ↦
          let (at, passed, e) =
            ok-sequence
              (validate_schedule env w.kind (trimmed_or patch.cron w.cron)
                (trimmed_or patch.timezone w.timezone) now)
              (λ a. ok (some a)) (rw changed at h) in
          let fires : next ≡ some at = cc in inl (rw fires passed)
      | inr same ↦
          let kept : next ≡ none = cc (rw same at h) in
          inr (
            w,
            m,
            refl,
            (eq_text_iff (trimmed_or patch.cron w.cron) w.cron).0 (ground arith),
            (eq_text_iff (trimmed_or patch.timezone w.timezone) w.timezone).0 (ground arith),
            rw kept refl,
            λ on. ground arith,
          )
    ]

-- The row that is read is the one that is found.
plan-found :
    (env : Env) (id now : ℕ) (patch : UpdateScheduledJobInput) (t : JobTables) (next : Option ℕ)
    (w : ScheduledJob)
    → plan_update env id now patch t ≡ ok next
    → Keyed job_id t.jobs
    → In w t.jobs
    → w.id ≡ id
    → new_fire env now patch w ≡ ok next
unfolding plan_update plan_current
plan-found env id now patch t next w h k m is_id =
    elim (Option-cases (find? (λ (r : ScheduledJob). r.id == id) t.jobs)) [
      | inl missing ↦ absurd (cc (h, missing))
      | inr (current, found) ↦
          let (mc, hit) = find?-In (λ (r : ScheduledJob). r.id == id) current t.jobs found in
          let one : w ≡ current = Keyed-same job_id w current t.jobs k m mc (ground arith) in
          rw one (rw found at h)
    ]

write-rows :
    (id : ℕ) (patch : UpdateScheduledJobInput) (next : Option ℕ) (t after : JobTables)
    → write_update id patch next t ≡ ok after
    → after.jobs ≡ update_where (λ r. r.id == id) (patched patch next) t.jobs
unfolding write_update
write-rows id patch next t after h =
    elim (Bool-cases (any (λ (r : ScheduledJob). r.id == id) t.jobs)) [
      | inl there ↦
          let e : record t { jobs = update_where (λ r. r.id == id) (patched patch next) t.jobs }
              ≡ after =
            cc (rw there at h) in
          rw (← e) refl
      | inr gone ↦ absurd (cc (rw gone at h))
    ]

-- Given that ids are unique and that no other transaction touches the schedules between the read and
-- the write: after an update that succeeds, the schedule either has a cron and a time zone that
-- validateSchedule accepts together at the time of the update, and the next fire that it computes; or
-- it has kept its cron, its time zone and its next fire, and was not turned on.
pub update_validates :
    (env : Env) (id now : ℕ) (patch : UpdateScheduledJobInput) (between : JobTables → JobTables)
    (t after : JobTables) (x : ScheduledJob)
    → Keyed job_id t.jobs
    → (between t).jobs ≡ t.jobs
    → update_scheduled_job env id now patch between t ≡ ok after
    → In x after.jobs
    → x.id ≡ id
    → IsFresh env now x ⊎ IsCarried t.jobs x
unfolding update_scheduled_job write_update
update_validates env id now patch between t after x k quiet h m is_id =
    let (next, plan, write) = ok-sequence (plan_update env id now patch t) _ h in
    elim (Bool-cases (sets_nothing patch)) [
      | inl nothing ↦
          let same : between t ≡ after = cc (rw nothing at write) in
          inr (x, rw (← quiet, same) m, refl, refl, refl, refl, λ on. on)
      | inr sets ↦
          let rows = write-rows id patch next (between t) after (rw sets at write) in
          elim (In-update-cases (λ (r : ScheduledJob). r.id == id) (patched patch next) x t.jobs
            (rw (← quiet, ← rows) m)) [
              | inr (there, other) ↦ absurd (ground arith)
              | inl (w, mw, hit, e) ↦ rw e (
                  patched_row env now patch next w t.jobs mw
                    (plan-found env id now patch t next w plan k mw (ground arith)))
            ]
    ]
