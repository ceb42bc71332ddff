-- ===== src/Jobs/Rows.antt =====
-- What each call does to the table of schedules.
use alchemist_template.Common.{
  ℕ, ◌+◌, ◌≡◌, refl, ◌⊎◌, inl, inr, Option, some, [], ◌∷◌, ◌++◌, arith, ◌==◌, Bool-cases,
  Option-cases, find?, any, Result, ok-sequence, update_where, ok, err,
}
use alchemist_template.Common.Members.{In, find?-In}
use alchemist_template.Import.Labels.{trim}
use alchemist_template.Jobs.Tables.{ScheduledJob, JobTables}
use alchemist_template.Jobs.History.{Plan, State, written, planned, read_update}
use alchemist_template.Jobs.Cron.{JobError}
use alchemist_template.Jobs.Service.{
  Env, CreateScheduledJobInput, UpdateScheduledJobInput, create_scheduled_job, plan_update,
  validate_schedule, new_job, new_fire, patched, zone_of, write_update, sets_nothing,
}

-- A create that succeeds has validated the schedule and appends its row.
pub create-rows :
    (env : Env) (now : ℕ) (i : CreateScheduledJobInput) (t after : JobTables)
    → create_scheduled_job env now i t ≡ ok after
    → (at : ℕ) × (validate_schedule env i.kind (trim i.cron) (zone_of i.timezone) now ≡ ok at)
      × (after ≡ record t { jobs = t.jobs ++ new_job t.next at i ∷ []; next = t.next + 1 })
unfolding create_scheduled_job
create-rows env now i t after h =
    let (at, passed, e) =
      ok-sequence (validate_schedule env i.kind (trim i.cron) (zone_of i.timezone) now) _ h in
    (at, passed, ground arith)

-- The write of an update patches the rows with its id, if there are any.
pub written-rows :
    (p : Plan) (t : JobTables)
    → (written (some p) t
        ≡ record t { jobs = update_where (λ r. r.id == p.id) (patched p.patch p.next) t.jobs })
      ⊎ (written (some p) t ≡ t)
unfolding written write_update
written-rows p t = elim (Bool-cases (any (λ (r : ScheduledJob). r.id == p.id) t.jobs)) [
  | inl there ↦ inl (rw there refl)
  | inr gone ↦ inr (rw gone refl)
]

-- The read of one that succeeds has found its row.
pub plan-reads :
    (env : Env) (id now : ℕ) (patch : UpdateScheduledJobInput) (t : JobTables) (next : Option ℕ)
    → plan_update env id now patch t ≡ ok next
    → (current : ScheduledJob) × In current t.jobs × (new_fire env now patch current ≡ ok next)
unfolding plan_update
plan-reads env id now patch t next h =
    elim (Option-cases (find? (λ (r : ScheduledJob). r.id == id) t.jobs)) [
      | inl missing ↦ absurd (cc (h, missing))
      | inr (current, found) ↦
          let (m, is_id) = find?-In (λ (r : ScheduledJob). r.id == id) current t.jobs found in
          (current, m, rw found at h)
    ]

planned-same :
    (id : ℕ) (patch : UpdateScheduledJobInput) (r : Result JobError (Option ℕ)) (s : State)
    → ((planned id patch r s).tables ≡ s.tables) × ((planned id patch r s).turns ≡ s.turns)
unfolding planned
planned-same id patch (err e) s = (refl, refl)
planned-same id patch (ok next) s = (refl, refl)

-- The read writes nothing.
pub read-same :
    (env : Env) (id now : ℕ) (patch : UpdateScheduledJobInput) (s : State)
    → ((read_update env id now patch s).tables ≡ s.tables)
      × ((read_update env id now patch s).turns ≡ s.turns)
unfolding read_update
read-same env id now patch s = elim (Bool-cases (sets_nothing patch)) [
  | inl e ↦ rw e (refl, refl)
  | inr e ↦ rw e (planned-same id patch (plan_update env id now patch s.tables) s)
]
