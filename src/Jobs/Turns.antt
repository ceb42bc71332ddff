-- ===== src/Jobs/Turns.antt =====
-- One runner at a time runs a schedule: the locks that claims take.
use alchemist_template.Common.{
  ℕ, ◌+◌, ◌<◌, ◌≡◌, sym, ap, ◌∙◌, inl, inr, Bool, true, Option, none, some, List, [], ◌∷◌, arith,
  ◌==◌, get_elem?, Result, Keyed, In-update-cases, ok, err,
}
use alchemist_template.Common.Members.{In, In-append}
use alchemist_template.Common.Removal.{remove_at, remove_at-In, remove_at-Keyed, remove_at-apart}
use alchemist_template.Jobs.Tables.{ScheduledJob, JobTables}
use alchemist_template.Jobs.Cron.{JobError, next_run_after}
use alchemist_template.Jobs.Service.{
  Env, CreateScheduledJobInput, create_scheduled_job, new_job, patched,
}
use alchemist_template.Jobs.Claim.{is_due, stale_job_lock_ms}
use alchemist_template.Jobs.Run.{advanced, run_handler, finished}
use alchemist_template.Jobs.Pass.{job_id, finished-id}
use alchemist_template.Jobs.Rows.{create-rows, written-rows}
use alchemist_template.Jobs.Ids.{executed-rows}
use alchemist_template.Jobs.History.{Plan, written, Turn, kept, executed}

abbrev pub turn_id : Turn → ℕ
turn_id h = h.job.id

-- Every turn has the lock of its row, if the row is still there, and no row has two turns.
pub record HasLocks (t : JobTables) (turns : List Turn) : Type 0 where
  pub known : (h : Turn) → In h turns → turn_id h < t.next
  pub owned :
      (h : Turn)
      → In h turns
      → (r : ScheduledJob) → In r t.jobs
      → r.id ≡ turn_id h
      → r.locked_at ≡ some h.now
  pub apart : Keyed turn_id turns

pub create-HasLocks :
    (env : Env) (now : ℕ) (i : CreateScheduledJobInput) (t : JobTables) (turns : List Turn)
    (r : Result JobError JobTables)
    → create_scheduled_job env now i t ≡ r
    → HasLocks t turns
    → HasLocks (kept t r) turns
unfolding new_job
create-HasLocks env now i t turns (err e) h v = v
create-HasLocks env now i t turns (ok after) h v =
    let (at, passed, e) = create-rows env now i t after h in
    rw e (record {
      known = λ g mg. omega (arith, v.known g mg);
      owned = λ g mg x mx same. elim (In-append x t.jobs (new_job t.next at i ∷ []) mx) [
        | inl old ↦ v.owned g mg x old same
        | inr (inl q) ↦ absurd (omega (arith, v.known g mg, sym same ∙ ap job_id q))
        | inr (inr none_left) ↦ absurd none_left
      ];
      apart = v.apart;
    })

pub written-HasLocks :
    (p : Option Plan) (t : JobTables) (turns : List Turn)
    → HasLocks t turns
    → HasLocks (written p t) turns
unfolding patched
written-HasLocks none t turns v = unfold written in v
written-HasLocks (some p) t turns v = elim (written-rows p t) [
  | inr e ↦ rw e v
  | inl e ↦ rw e (record {
    known = v.known;
    owned = λ g mg x mx same.
        elim (In-update-cases (λ r. r.id == p.id) (patched p.patch p.next) x t.jobs mx) [
          | inl (y, my, hit, q) ↦
              ap (λ (z : ScheduledJob). z.locked_at) q
              ∙ v.owned g mg y my (sym (ap job_id q) ∙ same)
          | inr (my, miss) ↦ v.owned g mg x my same
        ];
    apart = v.apart;
  })
]

-- A turn that ends, or is lost.
pub stop-HasLocks :
    (i : ℕ) (t : JobTables) (turns : List Turn) → HasLocks t turns → HasLocks t (remove_at i turns)
stop-HasLocks i t turns v = record {
  known = λ h m. v.known h (remove_at-In i h turns m);
  owned = λ h m. v.owned h (remove_at-In i h turns m);
  apart = remove_at-Keyed turn_id i turns v.apart;
}

pub execute-HasLocks :
    (env : Env) (i done : ℕ) (h : Option Turn) (t : JobTables) (turns : List Turn)
    → get_elem? turns i ≡ h
    → HasLocks t turns
    → HasLocks (executed env done h t) (remove_at i turns)
execute-HasLocks env i done none t turns at v = unfold executed in stop-HasLocks i t turns v
execute-HasLocks env i done (some h) t turns at v =
    let o = run_handler env h.job h.now t.mail in
    let (end, next) = advanced o (next_run_after env.croner h.job.cron h.job.timezone h.now) in
    let (rows, bound) = executed-rows env done h t in
    let w = stop-HasLocks i t turns v in
    record {
      known = λ g mg. rw bound (omega (arith, w.known g mg));
      owned = λ g mg x mx same.
          elim (In-update-cases (λ r. r.id == h.job.id) (finished h.now end next) x t.jobs
            (rw rows at mx)) [
              | inl (y, my, hit, q) ↦ absurd (
                  remove_at-apart turn_id i h g turns v.apart at mg (
                    let is : y.id ≡ h.job.id = ground arith in
                    sym is ∙ sym (finished-id h.now end next y) ∙ sym (ap job_id q) ∙ same))
              | inr (my, miss) ↦ w.owned g mg x my same
            ];
      apart = w.apart;
    }

pub due-free :
    (held : ℕ → Bool) (now at : ℕ) (r : ScheduledJob)
    → is_due held now r ≡ true
    → r.locked_at ≡ some at
    → at + stale_job_lock_ms < now
unfolding is_due
due-free held now at r h l = ground arith
