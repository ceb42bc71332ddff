-- ===== src/JobLock/Examples.antt =====
-- Tests of the job lock.
use alchemist_template.Common.{ℕ, ◌<◌, ◌≡◌, refl, true, false, some, List, [], ◌∷◌, arith}
use alchemist_template.JobLock.{
  Locks, Lock, Action, answered, unanswered, unreachable, starts, refreshes, ends, retries, act,
  history, no_locks, start_job, acquire_lock, refresh_lock, refreshed, guarded_lock_op, started,
  end_job, release_lock, released, retried,
}
use alchemist_template.JobLock.OnePod.{AllInTime, one_pod}

-- Pod 0 starts, refreshes and ends, but the reply to its release is lost; pod 1 is refused at first.
abbrev a_minute : List Action
a_minute =
    starts answered 0 60 0
    ∷ starts answered 1 60 10
    ∷ refreshes answered 0 60 20_000
    ∷ ends unanswered true 0 30_000
    ∷ starts answered 1 60 30_010
    ∷ retries answered 0 30_500
    ∷ []

expires-eq : (k l : Lock) (now : ℕ) → some k ≡ some l → now < k.expires_at → now < l.expires_at
expires-eq k l now e h = ground arith

a_minute_in_time : AllInTime a_minute no_locks
unfolding AllInTime act start_job acquire_lock refresh_lock refreshed guarded_lock_op started
    end_job release_lock released retried
a_minute_in_time = (
  λ p run l at. absurd (cc),
  λ e. absurd (cc),
  (
    λ p run l at. expires-eq (record { token = 0; expires_at = 60_000 }) l 10 at (omega arith),
    λ e. absurd (cc),
    (
      λ p run l at.
          expires-eq (record { token = 0; expires_at = 60_000 }) l 20_000 at (omega arith),
      tt,
      (
        λ p run l at.
            expires-eq (record { token = 0; expires_at = 80_000 }) l 30_000 at (omega arith),
        tt,
        (
          λ p run l at. absurd (cc),
          λ e. absurd (cc),
          (
            λ p run l at.
                expires-eq (record { token = 1; expires_at = 90_010 }) l 30_500 at (omega arith),
            tt,
            tt,
          ),
        ),
      ),
    ),
  ),
)

pod_1_runs : (history a_minute no_locks).running 1 ≡ true
unfolding history act start_job acquire_lock refresh_lock refreshed guarded_lock_op started end_job
    release_lock released retried
pod_1_runs = refl

one_pod_example :
    let s = history a_minute no_locks in
    ((p q : ℕ) → s.running p ≡ true → s.running q ≡ true → p ≡ q)
    × ((p : ℕ) → s.running p ≡ true → (l : Lock) × (s.key ≡ some l) × (s.held p ≡ some l.token))
one_pod_example = one_pod a_minute a_minute_in_time

abbrev without_redis : Locks
without_redis = history (starts unreachable 0 60 0 ∷ starts unreachable 1 60 0 ∷ []) no_locks

-- Without a client of Redis both pods run.
fail_open : (without_redis.running 0 ≡ true) × (without_redis.running 1 ≡ true)
unfolding history act start_job acquire_lock started
fail_open = (refl, refl)

-- A reply that is lost leaves a lock that no pod has, so that nobody runs until it expires.
reply_lost :
    (start_job answered 1 60 59_999 (history (starts unanswered 0 60 0 ∷ []) no_locks)).0 ≡ false
unfolding history act start_job acquire_lock started
reply_lost = refl
