-- ===== src/Jobs/Ids.antt =====
-- The ids of schedules stay different, and below the next generated id.
use alchemist_template.Common.{
  ℕ, ◌+◌, ◌<◌, ◌≡◌, refl, sym, ap, ◌∙◌, subst, inl, inr, Bool, not, Option, none, some, [], ◌∷◌,
  arith, ◌==◌, get_elem?, Result, update_where, Keyed, update-Keyed, append-Keyed, In-update-cases,
  ok, err,
}
use alchemist_template.Common.Members.{In, In-filter, In-append}
use alchemist_template.Common.Pick.{filter-Keyed, is_among}
use alchemist_template.Campaign.Tables.{Mailing}
use alchemist_template.Jobs.Tables.{ScheduledJob, JobTables}
use alchemist_template.Jobs.Cron.{JobError, next_run_after}
use alchemist_template.Jobs.Service.{
  Env, CreateScheduledJobInput, create_scheduled_job, delete_scheduled_job, new_job, patched,
}
use alchemist_template.Jobs.Claim.{claim_due, claimed, picked}
use alchemist_template.Jobs.Run.{advanced, run_handler, execute_one, finished}
use alchemist_template.Jobs.Pass.{job_id, finished-id}
use alchemist_template.Jobs.Rows.{create-rows, written-rows, read-same}
use alchemist_template.Jobs.History.{
  Turn, State, Action, creates, reads, writes, Plan, written, deletes, claims, executes, stops, act,
  kept, executed, no_jobs,
}

pub record HasIds (t : JobTables) : Type 0 where
  pub keyed : Keyed job_id t.jobs
  pub fresh : (r : ScheduledJob) → In r t.jobs → r.id < t.next

-- Such as every change of rows that keeps their ids.
pub updated-HasIds :
    (p : ScheduledJob → Bool) (f : ScheduledJob → ScheduledJob) (t : JobTables)
    → ((x : ScheduledJob) → (f x).id ≡ x.id)
    → HasIds t
    → HasIds (record t { jobs = update_where p f t.jobs })
updated-HasIds p f t same v = record {
  keyed = update-Keyed job_id p f t.jobs same v.keyed;
  fresh = λ r m. elim (In-update-cases p f r t.jobs m) [
    | inl (x, mx, hit, e) ↦ rw (e, same x) (v.fresh x mx)
    | inr (mr, miss) ↦ v.fresh r mr
  ];
}

create-HasIds :
    (env : Env) (now : ℕ) (i : CreateScheduledJobInput) (t : JobTables)
    (r : Result JobError JobTables)
    → create_scheduled_job env now i t ≡ r
    → HasIds t
    → HasIds (kept t r)
unfolding new_job
create-HasIds env now i t (err e) h v = v
create-HasIds env now i t (ok after) h v =
    let (at, passed, e) = create-rows env now i t after h in
    let new = new_job t.next at i in
    rw e (record {
      keyed =
          append-Keyed job_id t.jobs (new ∷ []) v.keyed (tt, tt)
            (λ x y mx my same. elim my [
              | inl q ↦ omega (arith, v.fresh x mx, same ∙ ap job_id q ∙ new_id at)
              | inr none_left ↦ absurd none_left
            ]);
      fresh = λ x m. elim (In-append x t.jobs (new ∷ []) m) [
        | inl old ↦ omega (arith, v.fresh x old)
        | inr (inl q) ↦ omega (arith, ap job_id q ∙ new_id at)
        | inr (inr none_left) ↦ absurd none_left
      ];
    })
  where
    new_id : (at : ℕ) → (new_job t.next at i).id ≡ t.next
    new_id at = refl

written-HasIds : (p : Option Plan) (t : JobTables) → HasIds t → HasIds (written p t)
unfolding patched
written-HasIds none t v = unfold written in v
written-HasIds (some p) t v = elim (written-rows p t) [
  | inl e ↦ rw e (updated-HasIds (λ r. r.id == p.id) (patched p.patch p.next) t (λ x. refl) v)
  | inr e ↦ rw e v
]

-- A run writes one row, and takes the next id for its row of the history.
pub executed-rows :
    (env : Env) (done : ℕ) (h : Turn) (t : JobTables)
    → let o = run_handler env h.job h.now t.mail in
      let (end, next) = advanced o (next_run_after env.croner h.job.cron h.job.timezone h.now) in
      let after = executed env done (some h) t in
      (after.jobs ≡ update_where (λ r. r.id == h.job.id) (finished h.now end next) t.jobs)
      × (after.next ≡ t.next + 1)
unfolding executed execute_one
executed-rows env done h t = (refl, refl)

execute-HasIds :
    (env : Env) (done : ℕ) (h : Option Turn) (t : JobTables)
    → HasIds t
    → HasIds (executed env done h t)
unfolding executed
execute-HasIds env done none t v = v
execute-HasIds env done (some h) t v =
    let o = run_handler env h.job h.now t.mail in
    let (end, next) = advanced o (next_run_after env.croner h.job.cron h.job.timezone h.now) in
    let (rows, bound) = executed-rows env done h t in
    let w =
      updated-HasIds (λ r. r.id == h.job.id) (finished h.now end next) t
        (finished-id h.now end next) v in
    record {
      keyed = rw rows w.keyed;
      fresh = λ r m. rw bound (omega (arith, w.fresh r (rw rows at m)));
    }

pub act-HasIds :
    (env : Env) (a : Action) (s : State) → HasIds s.tables → HasIds (act env a s).tables
unfolding act delete_scheduled_job claim_due
act-HasIds env (creates now i) s v = create-HasIds env now i s.tables _ refl v
act-HasIds env (reads id now patch) s v = subst HasIds (sym (read-same env id now patch s).0) v
act-HasIds env (writes i) s v = written-HasIds (get_elem? s.plans i) s.tables v
act-HasIds env (deletes id) s v = record {
  keyed = filter-Keyed job_id (λ r. not (r.id == id)) s.tables.jobs v.keyed;
  fresh = λ r m. v.fresh r (In-filter (λ r. not (r.id == id)) r s.tables.jobs m).0;
}
act-HasIds env (claims limit held now) s v =
    updated-HasIds (is_among job_id (picked limit held now s.tables.jobs)) (claimed now) s.tables
      (λ x. refl) v
act-HasIds env (executes i done) s v = execute-HasIds env done (get_elem? s.turns i) s.tables v
act-HasIds env (stops i) s v = v

pub no_jobs-HasIds : (mail : Mailing) → HasIds (no_jobs mail).tables
no_jobs-HasIds mail = record { keyed = tt; fresh = λ r m. absurd m }
