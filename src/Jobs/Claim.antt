-- ===== src/Jobs/Claim.antt =====
-- The claim of runDueScheduledJobs in src/services/scheduled-jobs.service.ts.
use alchemist_template.Common.{
  ℕ, ◌*◌, min, max, Bool, true, not, ◌&&◌, Option, none, some, List, leb, or_else, update_where,
}
use alchemist_template.Common.Pick.{pick, is_among}
use alchemist_template.Outbox.Deliver.{locked_before}
use alchemist_template.Jobs.Tables.{ScheduledJob, JobTables}
use alchemist_template.Jobs.Service.{fires_before}

abbrev pub stale_job_lock_ms : ℕ
stale_job_lock_ms = 15 * 60 * 1000

-- `lockedAt` is null, or before the stale time.
is_free : ℕ → Option ℕ → Bool
unfolding locked_before
is_free now none = true
is_free now (some at) = locked_before stale_job_lock_ms now (some at)

-- The WHERE clause of the claim; `held` are the rows that other transactions have locked.
unfoldable pub is_due : (ℕ → Bool) → ℕ → ScheduledJob → Bool
unfolding is_free
is_due held now r =
    r.enabled && (leb r.next_run_at now && (is_free now r.locked_at && not (held r.id)))

-- `Math.min(Math.max(opts.limit ?? 20, 1), 200)`
unfoldable pub claim_limit : Option ℕ → ℕ
claim_limit limit = min (max (or_else limit 20) 1) 200

unfoldable pub picked : Option ℕ → (ℕ → Bool) → ℕ → List ScheduledJob → List ScheduledJob
unfolding is_due claim_limit
picked limit held now rows = pick fires_before (claim_limit limit) (is_due held now) rows

abbrev pub claimed : ℕ → ScheduledJob → ScheduledJob
claimed now r = record r { locked_at = some now }

-- The rows that are claimed, as they were read, and the tables with their locks.
unfoldable pub claim_due : Option ℕ → (ℕ → Bool) → ℕ → JobTables → List ScheduledJob × JobTables
unfolding picked
claim_due limit held now t =
    let took = picked limit held now t.jobs in
    (took, record t { jobs = update_where (is_among (λ r. r.id) took) (claimed now) t.jobs })
