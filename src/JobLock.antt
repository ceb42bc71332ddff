-- ===== src/JobLock.antt =====
-- The lock that runs a periodic job on one pod at a time: withJobLock of src/lib/job-lock.ts over
-- acquireLock, refreshLock and releaseLock of src/lib/redis.ts, for the lock of one name.
mod Exclusion
mod Release
mod OnePod
mod Examples
use alchemist_template.Common.{
  ℕ, ◌+◌, ◌*◌, max, Bool, true, false, not, ◌&&◌, Option, none, some, List, [], ◌∷◌, ltb, leb, ◌==◌,
  if◌then◌else◌, get_elem?,
}

-- The value of the key and when it expires.
pub record Lock : Type 0 where
  pub token : ℕ
  pub expires_at : ℕ

-- What becomes of an operation on Redis: there is no client, it fails before the server runs it, the
-- server runs it and the reply is lost, or it is answered.
pub data Reach : Type 0 where
  unreachable dropped unanswered answered : Reach

-- The key, then `heldLocks` and `runningInProcess` of each pod, the tokens of the releases that are
-- to be tried again, and the next random token.
pub record Locks : Type 0 where
  pub key : Option Lock
  pub held : ℕ → Option ℕ
  pub running : ℕ → Bool
  pub deferred : List ℕ
  pub next : ℕ

abbrev pub put {ℓ} : {A : Type ℓ} → ℕ → A → (ℕ → A) → ℕ → A
put p a f q = if q == p then a else f q

-- A key that has expired is gone.
abbrev pub is_gone : ℕ → Option Lock → Bool
is_gone now none = true
is_gone now (some l) = leb l.expires_at now

abbrev pub has_token : ℕ → ℕ → Option Lock → Bool
has_token t now none = false
has_token t now (some l) = ltb now l.expires_at && l.token == t

-- WATCH, GET and MULTI/EXEC are one step: EXEC does nothing where the key has changed meanwhile.
unfoldable pub guarded_lock_op : Reach → ℕ → ℕ → Option Lock → Option Lock → Bool × Option Lock
guarded_lock_op unreachable t now new key = (false, key)
guarded_lock_op dropped t now new key = (false, key)
guarded_lock_op unanswered t now new key = (false, if has_token t now key then new else key)
guarded_lock_op answered t now new key =
    (has_token t now key, if has_token t now key then new else key)

-- `EX max(1, ttlSeconds)`
abbrev pub locked_for : ℕ → ℕ → ℕ → Lock
locked_for t now ttl = record { token = t; expires_at = now + max 1 ttl * 1000 }

unfoldable pub acquire_lock : Reach → ℕ → ℕ → ℕ → Locks → Bool × Locks
acquire_lock unreachable p ttl now s = (true, s)
acquire_lock dropped p ttl now s = (false, s)
acquire_lock unanswered p ttl now s = (
  false,
  if is_gone now s.key
      then record s { key = some (locked_for s.next now ttl); next = s.next + 1 }
      else s,
)
acquire_lock answered p ttl now s =
    if is_gone now s.key
    then (
      true,
      record s {
        key = some (locked_for s.next now ttl);
        held = put p (some s.next) s.held;
        next = s.next + 1;
      },
    )
    else (false, s)

unfoldable pub refreshed : Reach → Option ℕ → ℕ → ℕ → Locks → Bool × Locks
unfolding guarded_lock_op
refreshed reach none ttl now s = (false, s)
refreshed reach (some t) ttl now s =
    let (applied, key) = guarded_lock_op reach t now (some (locked_for t now ttl)) s.key in
    (applied, record s { key = key })

unfoldable pub refresh_lock : Reach → ℕ → ℕ → ℕ → Locks → Bool × Locks
unfolding refreshed
refresh_lock reach p ttl now s = refreshed reach (s.held p) ttl now s

-- `again` says that Redis is configured and in its cooldown.
unfoldable pub released : Reach → Bool → Option ℕ → ℕ → Locks → Locks
unfolding guarded_lock_op
released reach again none now s = s
released reach again (some t) now s =
    let (applied, key) = guarded_lock_op reach t now none s.key in
    record s { key = key; deferred = if not applied && again then t ∷ s.deferred else s.deferred }

unfoldable pub release_lock : Reach → Bool → ℕ → ℕ → Locks → Locks
unfolding released
release_lock reach again p now s =
    released reach again (s.held p) now (record s { held = put p none s.held })

-- The release that a timer tries again.
unfoldable pub retried : Reach → Option ℕ → ℕ → Locks → Locks
unfolding guarded_lock_op
retried reach none now s = s
retried reach (some t) now s = record s { key = (guarded_lock_op reach t now none s.key).1 }

unfoldable pub started : ℕ → Bool × Locks → Bool × Locks
started p (false, s) = (false, s)
started p (true, s) = (true, record s { running = put p true s.running })

-- withJobLock until its function runs: whether it does, and the locks.
unfoldable pub start_job : Reach → ℕ → ℕ → ℕ → Locks → Bool × Locks
unfolding started acquire_lock
start_job reach p ttl now s =
    if s.running p then (false, s) else started p (acquire_lock reach p ttl now s)

-- withJobLock from the end of its function, whether that returned or threw.
unfoldable pub end_job : Reach → Bool → ℕ → ℕ → Locks → Locks
unfolding release_lock
end_job reach again p now s =
    let rest = release_lock reach again p now s in
    if s.running p then record rest { running = put p false rest.running } else s

-- A pod that crashes forgets what it holds, and the key stays.
pub data Action : Type 0 where
  starts : Reach → ℕ → ℕ → ℕ → Action
  refreshes : Reach → ℕ → ℕ → ℕ → Action
  ends : Reach → Bool → ℕ → ℕ → Action
  retries : Reach → ℕ → ℕ → Action
  crashes : ℕ → ℕ → Action

unfoldable pub act : Action → Locks → Locks
unfolding start_job refresh_lock end_job retried
act (starts reach p ttl now) s = (start_job reach p ttl now s).1
act (refreshes reach p ttl now) s = (refresh_lock reach p ttl now s).1
act (ends reach again p now) s = end_job reach again p now s
act (retries reach i now) s = retried reach (get_elem? s.deferred i) now s
act (crashes p now) s = record s { held = put p none s.held; running = put p false s.running }

unfoldable pub history : List Action → Locks → Locks
unfolding act
history [] s = s
history (a ∷ more) s = history more (act a s)

abbrev pub no_locks : Locks
no_locks = record { key = none; held = λ p. none; running = λ p. false; deferred = []; next = 0 }
