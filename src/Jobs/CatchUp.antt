-- ===== src/Jobs/CatchUp.antt =====
-- What is due after a pass of runDueScheduledJobs.
use alchemist_template.Common.{
  ℕ, ◌≤◌, ◌<◌, ◌≡◌, inl, inr, Bool, false, Option, some, arith, Bool-cases, length, filter, All,
  Text, ok-sequence, Keyed, ok,
}
use alchemist_template.Common.Members.{All-In, All-of-In}
use alchemist_template.Common.Pick.{In-among, pick_all}
use alchemist_template.Jobs.Tables.{ScheduledJob, JobTables}
use alchemist_template.Jobs.Cron.{Croner, next_run_after}
use alchemist_template.Jobs.Service.{Env, fires_before}
use alchemist_template.Jobs.Claim.{claim_limit, is_due, picked}
use alchemist_template.Jobs.Run.{run_due_scheduled_jobs}
use alchemist_template.Jobs.Pass.{IsAdvanced, job_id, pass_advances}

-- The next fire that croner gives is strictly later than the time that it is asked for.
abbrev pub IsLater : Croner → Type 0
IsLater croner =
    (expr tz : Text) (after at : ℕ) → croner.next_run expr tz after ≡ ok (some at) → after < at

fire_later :
    (croner : Croner) (expr tz : Text) (now at : ℕ)
    → IsLater croner
    → next_run_after croner expr tz now ≡ ok (some at)
    → now < at
unfolding next_run_after
fire_later croner expr tz now at later h =
    let (u, made, fires) =
      ok-sequence (croner.construct expr tz) (λ _. croner.next_run expr tz now) h in
    later expr tz now at fires

advanced_not_due :
    (env : Env) (held : ℕ → Bool) (now : ℕ) (x : ScheduledJob)
    → IsLater env.croner
    → IsAdvanced env now x
    → is_due held now x ≡ false
unfolding is_due
advanced_not_due env held now x later (free, ran, inl off) = ground arith
advanced_not_due env held now x later (free, ran, inr fires) =
    let ahead = fire_later env.croner x.cron x.timezone now x.next_run_at later fires in
    ground arith

-- Given that ids are unique, that croner's next fire is later than the time asked for, and that the
-- limit leaves room for all that is due: after a pass that is not interrupted no schedule is due at
-- the time of the pass, however many fires each of them had missed, so that another pass at that
-- time runs nothing.
pub catch_up_once :
    (env : Env) (limit : Option ℕ) (held : ℕ → Bool) (now : ℕ) (done : ScheduledJob → ℕ)
    (t : JobTables)
    → Keyed job_id t.jobs
    → IsLater env.croner
    → length (filter (is_due held now) t.jobs) ≤ claim_limit limit
    → All (λ x. is_due held now x ≡ false) (run_due_scheduled_jobs env limit held now done t).1.jobs
unfolding picked
catch_up_once env limit held now done t k later room =
    let after = (run_due_scheduled_jobs env limit held now done t).1.jobs in
    let rows = (pass_advances env limit held now done t k).1 in
    All-of-In _ after (λ x m. elim (All-In _ x after rows m) [
      | inr a ↦ advanced_not_due env held now x later a
      | inl (mx, left) ↦ elim (Bool-cases (is_due held now x)) [
        | inr out ↦ out
        | inl due ↦ absurd (
            cc (
              left,
              In-among job_id (picked limit held now t.jobs) x (
                  pick_all fires_before (claim_limit limit) (is_due held now) t.jobs x room mx due),
            ))
      ]
    ])
