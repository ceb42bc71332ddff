-- ===== src/Jobs/Valid.antt =====
-- What of the schedules stays valid when updates interleave.
use alchemist_template.Common.{
  ℕ, ◌≡◌, refl, inl, inr, not, Option, none, some, List, [], ◌∷◌, ◌==◌, Bool-cases, get_elem?, All,
  All-append, All-filter, Result, update-All, ok, err,
}
use alchemist_template.Common.Members.{All-In, get-In, All-of-In}
use alchemist_template.Common.Removal.{remove_at, remove_at-In}
use alchemist_template.Common.Pick.{is_among}
use alchemist_template.Campaign.Tables.{Mailing}
use alchemist_template.Jobs.Tables.{ScheduledJob, JobTables}
use alchemist_template.Jobs.Cron.{JobError, next_run_after}
use alchemist_template.Jobs.Service.{
  Env, CreateScheduledJobInput, UpdateScheduledJobInput, create_scheduled_job, plan_update,
  delete_scheduled_job, new_job, patched, sets_nothing,
}
use alchemist_template.Jobs.Claim.{claim_due, claimed, picked}
use alchemist_template.Jobs.Run.{Outcome, advanced, run_handler, finished}
use alchemist_template.Jobs.Pass.{job_id}
use alchemist_template.Jobs.History.{
  Turn, Plan, State, Action, act, history, executed, kept, no_jobs, creates, reads, writes, deletes,
  claims, executes, stops, planned, read_update, written,
}
use alchemist_template.Jobs.Rows.{create-rows, written-rows, plan-reads}
use alchemist_template.Jobs.Ids.{executed-rows}
use alchemist_template.Jobs.Cadence.{
  IsCron, IsZone, IsValid, IsSound, validated, fire-IsValid, trimmed_value, patched-IsValid,
}

create-IsValid :
    (env : Env) (now : ℕ) (i : CreateScheduledJobInput) (t : JobTables)
    (r : Result JobError JobTables)
    → create_scheduled_job env now i t ≡ r
    → All (IsValid env) t.jobs
    → All (IsValid env) (kept t r).jobs
unfolding new_job
create-IsValid env now i t (err e) h v = v
create-IsValid env now i t (ok after) h v =
    let (at, passed, e) = create-rows env now i t after h in
    rw e (
      All-append (IsValid env) t.jobs (new_job t.next at i ∷ []) v
        (validated env _ _ _ now at passed, tt))

written-IsValid :
    (env : Env) (p : Plan) (t : JobTables)
    → IsSound env p
    → All (IsValid env) t.jobs
    → All (IsValid env) (written (some p) t).jobs
written-IsValid env p t sound v = elim (written-rows p t) [
  | inr e ↦ rw e v
  | inl e ↦ rw e (
      update-All (IsValid env) (λ r. r.id == p.id) (patched p.patch p.next) t.jobs
        (λ x hit vx. patched-IsValid env p x sound vx) v)
]

finished-IsValid :
    (env : Env) (now : ℕ) (o : Outcome) (next : Option ℕ) (x : ScheduledJob)
    → IsValid env x
    → IsValid env (finished now o next x)
unfolding finished
finished-IsValid env now o none x v = v
finished-IsValid env now o (some n) x v = v

execute-IsValid :
    (env : Env) (done : ℕ) (h : Option Turn) (t : JobTables)
    → All (IsValid env) t.jobs
    → All (IsValid env) (executed env done h t).jobs
execute-IsValid env done none t v = unfold executed in v
execute-IsValid env done (some h) t v =
    let o = run_handler env h.job h.now t.mail in
    let (end, next) = advanced o (next_run_after env.croner h.job.cron h.job.timezone h.now) in
    let (rows, bound) = executed-rows env done h t in
    rw rows (
      update-All (IsValid env) (λ r. r.id == h.job.id) (finished h.now end next) t.jobs
        (λ x hit vx. finished-IsValid env h.now end next x vx) v)

-- The rows are valid, and so is what the updates under way will write.
record Inv (env : Env) (s : State) : Type 0 where
  rows : All (IsValid env) s.tables.jobs
  plans : All (IsSound env) s.plans

planned-Inv :
    (env : Env) (id now : ℕ) (patch : UpdateScheduledJobInput) (s : State)
    (r : Result JobError (Option ℕ))
    → plan_update env id now patch s.tables ≡ r
    → Inv env s
    → Inv env (planned id patch r s)
unfolding planned
planned-Inv env id now patch s (err e) h v = v
planned-Inv env id now patch s (ok next) h v =
    let (current, m, fire) = plan-reads env id now patch s.tables next h in
    let (cron, zone) =
      fire-IsValid env now patch current next fire
        (All-In (IsValid env) current s.tables.jobs v.rows m) in
    record {
      rows = v.rows;
      plans = (
        (
          λ c e. trimmed_value (IsCron env) patch.cron current.cron c cron e,
          λ z e. trimmed_value (IsZone env) patch.timezone current.timezone z zone e,
        ),
        v.plans,
      );
    }

read-Inv :
    (env : Env) (id now : ℕ) (patch : UpdateScheduledJobInput) (s : State)
    → Inv env s
    → Inv env (read_update env id now patch s)
unfolding read_update
read-Inv env id now patch s v = elim (Bool-cases (sets_nothing patch)) [
  | inl e ↦ rw e v
  | inr e ↦ rw e (planned-Inv env id now patch s _ refl v)
]

write-IsValid :
    (env : Env) (o : Option Plan) (t : JobTables)
    → ((p : Plan) → o ≡ some p → IsSound env p)
    → All (IsValid env) t.jobs
    → All (IsValid env) (written o t).jobs
write-IsValid env none t sound v = unfold written in v
write-IsValid env (some p) t sound v = written-IsValid env p t (sound p refl) v

removed-Sound :
    (env : Env) (i : ℕ) (plans : List Plan)
    → All (IsSound env) plans
    → All (IsSound env) (remove_at i plans)
removed-Sound env i plans v =
    All-of-In (IsSound env) (remove_at i plans)
      (λ p m. All-In (IsSound env) p plans v (remove_at-In i p plans m))

act-Inv : (env : Env) (a : Action) (s : State) → Inv env s → Inv env (act env a s)
unfolding act delete_scheduled_job claim_due
act-Inv env (creates now i) s v = record {
  rows = create-IsValid env now i s.tables _ refl v.rows;
  plans = v.plans;
}
act-Inv env (reads id now patch) s v = read-Inv env id now patch s v
act-Inv env (writes i) s v = record {
  rows =
      write-IsValid env (get_elem? s.plans i) s.tables
        (λ p e. All-In (IsSound env) p s.plans v.plans (get-In s.plans i e)) v.rows;
  plans = removed-Sound env i s.plans v.plans;
}
act-Inv env (deletes id) s v = record {
  rows = All-filter (IsValid env) (λ r. not (r.id == id)) s.tables.jobs v.rows;
  plans = v.plans;
}
act-Inv env (claims limit held now) s v = record {
  rows =
      update-All (IsValid env) (is_among job_id (picked limit held now s.tables.jobs)) (claimed now)
        s.tables.jobs (λ x hit vx. vx) v.rows;
  plans = v.plans;
}
act-Inv env (executes i done) s v = record {
  rows = execute-IsValid env done (get_elem? s.turns i) s.tables v.rows;
  plans = v.plans;
}
act-Inv env (stops i) s v = record { rows = v.rows; plans = v.plans }

history-Inv :
    (env : Env) (actions : List Action) (s : State) → Inv env s → Inv env (history env actions s)
unfolding history
history-Inv env [] s v = v
history-Inv env (a ∷ more) s v = history-Inv env more (act env a s) (act-Inv env a s v)

-- Whatever is created, updated, deleted, claimed, run or lost in a crash, in whatever order, and with
-- any calls between the read and the write of an update: each schedule of the table has a registered
-- kind, a cron that croner accepts and a time zone that the runtime knows. Nothing is said of the pair:
-- the interval and the fires of a cron in a zone that two updates set are not checked together.
pub schedules-IsValid :
    (env : Env) (mail : Mailing) (actions : List Action)
    → All (IsValid env) (history env actions (no_jobs mail)).tables.jobs
schedules-IsValid env mail actions =
    (history-Inv env actions (no_jobs mail) (record { rows = tt; plans = tt })).rows
