-- ===== src/Jobs/Pass.antt =====
-- What a pass of runDueScheduledJobs does to each schedule.
use alchemist_template.Common.{
  ℕ, ◌≡◌, refl, sym, ap, ◌∙◌, subst, ◌≢◌, ◌⊎◌, inl, inr, Bool, true, false, Option, none, some,
  List, [], ◌∷◌, map, arith, ◌==◌, length, All, Text, Result, Keyed, In-update-cases, map-update,
  ok, err,
}
use alchemist_template.Common.Members.{In, In-any, All-In, All-of-In}
use alchemist_template.Common.Pick.{among-In, is_among, pick-In, pick-Keyed}
use alchemist_template.Jobs.Tables.{ScheduledJob, JobTables}
use alchemist_template.Jobs.Cron.{next_run_after}
use alchemist_template.Jobs.Service.{Env, fires_before}
use alchemist_template.Jobs.Claim.{claim_limit, claimed, picked, claim_due, is_due}
use alchemist_template.Jobs.Run.{
  Outcome, RunDueResult, run_due_scheduled_jobs, advanced, finished, run_handler, execute_one,
  execute_each,
}

-- The row says that it ran at `now`, is free, and is disabled or set to its next fire after `now`.
abbrev pub IsAdvanced : Env → ℕ → ScheduledJob → Type 0
IsAdvanced env now x =
    (x.locked_at ≡ none)
    × (x.last_run_at ≡ some now)
    × ((x.enabled ≡ false)
        ⊎ (next_run_after env.croner x.cron x.timezone now ≡ ok (some x.next_run_at)))

finished-IsAdvanced :
    (env : Env) (now : ℕ) (o : Outcome) (x : ScheduledJob) (fire : Result Text (Option ℕ))
    → next_run_after env.croner x.cron x.timezone now ≡ fire
    → let (end, next) = advanced o fire in IsAdvanced env now (finished now end next x)
unfolding advanced finished
finished-IsAdvanced env now o x (err e) h = (refl, refl, inl refl)
finished-IsAdvanced env now o x (ok none) h = (refl, refl, inl refl)
finished-IsAdvanced env now o x (ok (some n)) h = (refl, refl, inr h)

pub finished-id :
    (now : ℕ) (o : Outcome) (next : Option ℕ) (x : ScheduledJob) → (finished now o next x).id ≡ x.id
unfolding finished
finished-id now o none x = refl
finished-id now o (some n) x = refl

abbrev pub job_id : ScheduledJob → ℕ
job_id r = r.id

-- The loop over the claimed rows, where `Left` holds of the rows that it leaves alone.
module _ (env : Env) (now : ℕ) (Left : ScheduledJob → Type 0) where
  abbrev Done : ScheduledJob → Type 0
  Done x = Left x ⊎ IsAdvanced env now x

  -- A row waits for its turn as it was claimed, or is done and has no turn.
  abbrev InTurn : List ScheduledJob → ScheduledJob → Type 0
  InTurn cs x =
      ((c : ScheduledJob) × In c cs × (x ≡ claimed now c))
      ⊎ (Done x × All (λ (c : ScheduledJob). x.id ≢ c.id) cs)

  turn :
      (c : ScheduledJob) (cs : List ScheduledJob) (o : Outcome) (x : ScheduledJob)
      → All (λ (d : ScheduledJob). c.id ≢ d.id) cs
      → InTurn (c ∷ cs) x
      → (x.id == c.id) ≡ true
      → let (end, next) = advanced o (next_run_after env.croner c.cron c.timezone now) in
        InTurn cs (finished now end next x)
  turn c cs o x apart (inr (d, out)) hit = absurd (out.0 (ground arith))
  turn c cs o x apart (inl (d, inr m, e)) hit =
      absurd (All-In (λ (b : ScheduledJob). c.id ≢ b.id) d cs apart m (ground arith))
  turn c cs o x apart (inl (d, inl e, q)) hit =
      let same : x ≡ claimed now c = q ∙ ap (claimed now) e in
      let (end, next) = advanced o (next_run_after env.croner c.cron c.timezone now) in
      inr (
        inr (rw same (finished-IsAdvanced env now o (claimed now c) _ refl)),
        rw (finished-id now end next x, same) apart,
      )

  no_turn :
      (c : ScheduledJob) (cs : List ScheduledJob) (x : ScheduledJob)
      → InTurn (c ∷ cs) x
      → (x.id == c.id) ≡ false
      → InTurn cs x
  no_turn c cs x (inr (d, out)) miss = inr (d, out.1)
  no_turn c cs x (inl (d, inr m, e)) miss = inl (d, m, e)
  no_turn c cs x (inl (d, inl e, q)) miss = absurd (ground arith)

  pub loop-IsAdvanced :
      (done : ScheduledJob → ℕ) (cs : List ScheduledJob) (n : RunDueResult) (t : JobTables)
      → Keyed job_id cs
      → ((x : ScheduledJob) → In x t.jobs → InTurn cs x)
      → All Done (execute_each env now done cs n t).1.jobs
  unfolding execute_each execute_one
  loop-IsAdvanced done [] n t k turns =
      All-of-In Done t.jobs
        (λ x m. elim (turns x m) [ inl (c, none_left, e) ↦ absurd none_left | inr (d, out) ↦ d ])
  loop-IsAdvanced done (c ∷ cs) n t k turns =
      let o = run_handler env c now t.mail in
      let (end, next) = advanced o (next_run_after env.croner c.cron c.timezone now) in
      loop-IsAdvanced done cs _ _ k.1 (λ x m.
        elim (In-update-cases (λ r. r.id == c.id) (finished now end next) x t.jobs m) [
          | inl (y, my, hit, e) ↦ subst (InTurn cs) (sym e) (turn c cs o y k.0 (turns y my) hit)
          | inr (my, miss) ↦ no_turn c cs x (turns x my) miss
        ])

loop-ids :
    (env : Env) (now : ℕ) (done : ScheduledJob → ℕ) (cs : List ScheduledJob) (n : RunDueResult)
    (t : JobTables)
    → map job_id (execute_each env now done cs n t).1.jobs ≡ map job_id t.jobs
unfolding execute_each execute_one
loop-ids env now done [] n t = refl
loop-ids env now done (c ∷ cs) n t =
    let o = run_handler env c now t.mail in
    let (end, next) = advanced o (next_run_after env.croner c.cron c.timezone now) in
    loop-ids env now done cs _ _
    ∙ map-update job_id (λ r. r.id == c.id) (finished now end next) t.jobs
        (finished-id now end next)

module _ (env : Env) (limit : Option ℕ) (held : ℕ → Bool) (now : ℕ) (done : ScheduledJob → ℕ)
    (t : JobTables) (k : Keyed (λ (r : ScheduledJob). r.id) t.jobs) where
  abbrev took : List ScheduledJob
  took = picked limit held now t.jobs

  -- A row of the table that the pass does not claim.
  abbrev pub IsLeft : ScheduledJob → Type 0
  IsLeft x = In x t.jobs × (is_among job_id took x ≡ false)

  took-In : (x : ScheduledJob) → In x took → In x t.jobs × (is_due held now x ≡ true)
  unfolding picked
  took-In x m = pick-In fires_before (claim_limit limit) (is_due held now) t.jobs x m

  waiting :
      (x : ScheduledJob) → In x (claim_due limit held now t).1.jobs → InTurn env now IsLeft took x
  unfolding claim_due
  waiting x m = elim (In-update-cases (is_among job_id took) (claimed now) x t.jobs m) [
    | inl (y, my, hit, e) ↦
        inl (y, among-In job_id took t.jobs y (λ z mz. (took-In z mz).0) k my hit, e)
    | inr (mx, miss) ↦ inr (
      inl (mx, miss),
      All-of-In (λ (c : ScheduledJob). x.id ≢ c.id) took
          (λ c mc same. absurd (cc (In-any (λ r. x.id == r.id) c took mc (ground arith), miss))),
    )
  ]

  pass-jobs :
      (run_due_scheduled_jobs env limit held now done t).1.jobs
      ≡ (execute_each env now done took
          (record { claims = length took; successes = 0; failures = 0 })
          (claim_due limit held now t).1).1.jobs
  unfolding run_due_scheduled_jobs claim_due
  pass-jobs = refl

  -- Given that ids are unique, a pass that is not interrupted keeps the schedules in their places,
  -- and each schedule afterwards is one that the pass did not claim, as it was, or says that it ran
  -- now, is not locked, and is disabled or due at the first fire of its own cron after now. This
  -- holds however its handler ended, and with no handler.
  pub pass_advances :
      let after = (run_due_scheduled_jobs env limit held now done t).1.jobs in
      (map job_id after ≡ map job_id t.jobs) × All (λ x. IsLeft x ⊎ IsAdvanced env now x) after
  unfolding claim_due
  pass_advances = rw pass-jobs (
    loop-ids env now done took _ (claim_due limit held now t).1
        ∙ map-update job_id (is_among job_id took) (claimed now) t.jobs (λ x. refl),
    loop-IsAdvanced env now IsLeft done took _ (claim_due limit held now t).1
        (unfold picked in
          pick-Keyed fires_before job_id (claim_limit limit) (is_due held now) t.jobs k)
        waiting,
  )
