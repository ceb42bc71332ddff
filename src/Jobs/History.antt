-- ===== src/Jobs/History.antt =====
-- Histories of schedules: any sequence of the calls of src/services/scheduled-jobs.service.ts, with
-- the claims and the runs of any number of runners between them. The read and the write of an update
-- are two actions.
use alchemist_template.Common.{
  ℕ, Bool, Option, none, some, List, [], ◌∷◌, ◌++◌, map, if◌then◌else◌, get_elem?, Result, ok, err,
}
use alchemist_template.Campaign.Tables.{Mailing}
use alchemist_template.Common.Removal.{remove_at}
use alchemist_template.Jobs.Tables.{ScheduledJob, JobTables}
use alchemist_template.Jobs.Cron.{JobError}
use alchemist_template.Jobs.Service.{
  Env, CreateScheduledJobInput, UpdateScheduledJobInput, create_scheduled_job, plan_update,
  write_update, sets_nothing, delete_scheduled_job,
}
use alchemist_template.Jobs.Claim.{claim_due}
use alchemist_template.Jobs.Run.{execute_one}

-- A claimed row as a runner holds it, with the time of its tick.
pub record Turn : Type 0 where
  pub job : ScheduledJob
  pub now : ℕ

-- An update that has read its row and not yet written.
pub record Plan : Type 0 where
  pub id : ℕ
  pub patch : UpdateScheduledJobInput
  pub next : Option ℕ

pub record State : Type 0 where
  pub tables : JobTables
  pub plans : List Plan
  pub turns : List Turn

-- A run takes the turn at its index, and a write the plan at its; a runner that stops loses its turn.
pub data Action : Type 0 where
  creates : ℕ → CreateScheduledJobInput → Action
  reads : ℕ → ℕ → UpdateScheduledJobInput → Action
  writes : ℕ → Action
  deletes : ℕ → Action
  claims : Option ℕ → (ℕ → Bool) → ℕ → Action
  executes : ℕ → ℕ → Action
  stops : ℕ → Action

-- A call that throws leaves the tables.
abbrev pub kept : JobTables → Result JobError JobTables → JobTables
kept t (err e) = t
kept t (ok after) = after

abbrev pub turn_of : ℕ → ScheduledJob → Turn
turn_of now job = record { job = job; now = now }

unfoldable pub planned : ℕ → UpdateScheduledJobInput → Result JobError (Option ℕ) → State → State
planned id patch (err e) s = s
planned id patch (ok next) s = record s {
  plans = record { id = id; patch = patch; next = next } ∷ s.plans;
}

unfoldable pub read_update : Env → ℕ → ℕ → UpdateScheduledJobInput → State → State
unfolding plan_update sets_nothing planned
read_update env id now patch s =
    if sets_nothing patch then s else planned id patch (plan_update env id now patch s.tables) s

unfoldable pub written : Option Plan → JobTables → JobTables
unfolding write_update
written none t = t
written (some p) t = kept t (write_update p.id p.patch p.next t)

unfoldable pub executed : Env → ℕ → Option Turn → JobTables → JobTables
unfolding execute_one
executed env done none t = t
executed env done (some h) t = (execute_one env h.now done h.job t).1

unfoldable pub act : Env → Action → State → State
unfolding create_scheduled_job read_update written delete_scheduled_job claim_due executed
act env (creates now i) s = record s {
  tables = kept s.tables (create_scheduled_job env now i s.tables);
}
act env (reads id now patch) s = read_update env id now patch s
act env (writes i) s = record s {
  tables = written (get_elem? s.plans i) s.tables;
  plans = remove_at i s.plans;
}
act env (deletes id) s = record s { tables = (delete_scheduled_job id s.tables).1 }
act env (claims limit held now) s =
    let (took, after) = claim_due limit held now s.tables in
    record s { tables = after; turns = s.turns ++ map (turn_of now) took }
act env (executes i done) s = record s {
  tables = executed env done (get_elem? s.turns i) s.tables;
  turns = remove_at i s.turns;
}
act env (stops i) s = record s { turns = remove_at i s.turns }

unfoldable pub history : Env → List Action → State → State
unfolding act
history env [] s = s
history env (a ∷ more) s = history env more (act env a s)

abbrev pub no_jobs : Mailing → State
no_jobs mail = record {
  tables = record { jobs = []; runs = []; mail = mail; next = 0 };
  plans = [];
  turns = [];
}
