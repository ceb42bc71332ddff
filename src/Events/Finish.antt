-- ===== src/Events/Finish.antt =====
-- The status writes of src/lib/events.ts that end or undo a claim: completeDelivery, failDelivery
-- with computeBackoffMs, releaseClaims, replayDelivery and requeueStaleDeliveries. Each is one
-- transaction, so one step on the tables.
use alchemist_template.Common.{
  ℕ, ◌+◌, ◌-◌, ◌*◌, ◌/◌, ◌^◌, min, max, Bool, true, false, ◌&&◌, Option, none, some, List, [], ◌∷◌,
  ◌++◌, ltb, leb, ◌==◌, if◌then◌else◌, is_some_eq, or_else, take, any, Text, codes, eq_text,
  update_where, count_where,
}
use alchemist_template.Common.Int.{ℤ, pos_part}
use mathlib.Core.Option
use alchemist_template.Events.Store.{
  pending, done, failed, dead, Delivery, Receipt, Store, Subscription, ClaimToken, is_running,
  is_replayable, owns, subscription_of, delete_receipts,
}

-- BACKOFF_BASE_MS and BACKOFF_CAP_MS
abbrev pub backoff_base_ms : ℕ
backoff_base_ms = 1000

abbrev pub backoff_cap_ms : ℕ
backoff_cap_ms = 60 * 60 * 1000

-- The value of `random()`, the fraction numerator / (below + 1).
pub record Random : Type 0 where
  pub numerator : ℤ
  pub below : ℕ

-- `Math.min(BACKOFF_CAP_MS, BACKOFF_BASE_MS * 2 ** Math.max(0, attempt - 1))`
unfoldable pub exponential_ms : ℕ → ℕ
exponential_ms attempt = min backoff_cap_ms (backoff_base_ms * 2 ^ (attempt - 1))

-- `Math.min(1, Math.max(0, random()))`, as the numerator over the same denominator.
unfoldable pub clamped_numerator : Random → ℕ
clamped_numerator r = min (r.below + 1) (pos_part r.numerator)

-- `Math.round(exp / 2 + r * (exp / 2))`: over the denominator 2 * d, plus a half, rounded down.
unfoldable pub compute_backoff_ms : ℕ → Random → ℕ
unfolding exponential_ms clamped_numerator
compute_backoff_ms attempt r =
    (exponential_ms attempt * (r.below + 1 + clamped_numerator r) + (r.below + 1))
    / (2 * (r.below + 1))

-- What a `catch` clause is given.
pub data Thrown : Type 0 where
  error : Text → Text → Thrown
  other : Text → Thrown

-- `.slice(0, 2_000)` of `name: message`, or of the text of a value that is no Error.
unfoldable pub error_message : Thrown → Text
error_message (error name message) = take 2000 (name ++ codes ": " ++ message)
error_message (other text) = take 2000 text

-- The insert of a receipt with `ON CONFLICT (subscription_id, idempotency_key) DO UPDATE SET
-- completed_at = now() WHERE delivery_id = id`.
same_receipt : ℕ → Text → Receipt → Bool
same_receipt subscription_id key r =
    r.subscription_id == subscription_id && eq_text r.idempotency_key key

unfoldable pub complete_receipt : Receipt → ℕ → ℕ → List Receipt → List Receipt
unfolding same_receipt
complete_receipt new delivery_id now [] = new ∷ []
complete_receipt new delivery_id now (r ∷ rs) =
    if same_receipt new.subscription_id new.idempotency_key r
    then (if is_some_eq r.delivery_id delivery_id then record r { completed_at = some now } else r)
      ∷ rs
    else r ∷ complete_receipt new delivery_id now rs

completed_receipts : ClaimToken → ℕ → ℕ → Option Text → Store → List Receipt
unfolding complete_receipt
completed_receipts t subscription_id event_id none s = s.receipts
completed_receipts t subscription_id event_id (some key) s =
    complete_receipt
      (record {
        subscription_id = subscription_id;
        idempotency_key = key;
        event_id = event_id;
        delivery_id = some t.id;
        completed_at = some s.now;
      })
      t.id s.now s.receipts

unfoldable pub finished : ℕ → Delivery → Delivery
finished now d = record d { status = done; done_at = some now; last_error = none }

-- Whether the row was still this claim's, and the tables after it.
unfoldable pub complete_delivery : ClaimToken → ℕ → ℕ → Option Text → Store → Bool × Store
unfolding completed_receipts
complete_delivery t subscription_id event_id key s = (
  ltb 0 (count_where (owns t) s.deliveries),
  record s {
    deliveries = update_where (owns t) (finished s.now) s.deliveries;
    receipts = completed_receipts t subscription_id event_id key s;
  },
)

pub data FailOutcome : Type 0 where
  retried : ℕ → FailOutcome
  dead_lettered : FailOutcome

abbrev is_dead : FailOutcome → Bool
is_dead (retried delay) = false
is_dead dead_lettered = true

abbrev delay_of : FailOutcome → ℕ
delay_of (retried delay) = delay
delay_of dead_lettered = 0

-- Out of attempts, or the delay to the next one.
unfoldable pub fail_outcome : ClaimToken → ℕ → Random → ℕ → FailOutcome
fail_outcome t max_attempts r min_delay_ms =
    if leb max_attempts t.attempts
    then dead_lettered
    else retried (max (compute_backoff_ms t.attempts r) min_delay_ms)

unfoldable pub failed_row : FailOutcome → Text → ℕ → Delivery → Delivery
failed_row outcome message now d = record d {
  status = if is_dead outcome then dead else failed;
  last_error = some message;
  next_attempt_at = now + delay_of outcome;
}

unfoldable pub fail_delivery : ClaimToken → ℕ → Thrown → Random → ℕ → Store → FailOutcome × Store
unfolding fail_outcome
fail_delivery t max_attempts thrown r min_delay_ms s =
    let outcome = fail_outcome t max_attempts r min_delay_ms in
    (
      outcome,
      record s {
        deliveries =
            update_where (owns t) (failed_row outcome (error_message thrown) s.now) s.deliveries;
        receipts =
            if ltb 0 (count_where (owns t) s.deliveries)
            then delete_receipts (λ i. i == t.id) s.receipts
            else s.receipts;
      },
    )

-- `attempts = GREATEST(0, attempts - 1)`, and due after the delay.
unfoldable pub released : ℕ → Delivery → Delivery
released due d = record d {
  status = pending;
  attempts = d.attempts - 1;
  claimed_by = none;
  claimed_at = none;
  next_attempt_at = due;
}

-- `FROM (VALUES ...) AS v`: a row that one of the tokens owns.
abbrev pub owned_by_any : List ClaimToken → Delivery → Bool
owned_by_any ts d = any (λ t. owns t d) ts

-- The number of rows that were given back unrun, and the tables after it.
unfoldable pub release_claims : List ClaimToken → ℕ → Store → ℕ × Store
release_claims ts delay_ms s = (
  count_where (owned_by_any ts) s.deliveries,
  record s {
    deliveries = update_where (owned_by_any ts) (released (s.now + delay_ms)) s.deliveries;
    receipts =
        delete_receipts (λ i. any (λ d. owned_by_any ts d && d.id == i) s.deliveries) s.receipts;
  },
)

unfoldable pub replayed : ℕ → Delivery → Delivery
replayed now d = record d {
  status = pending;
  attempts = 0;
  next_attempt_at = now;
  last_error = none;
}

abbrev pub is_replay : ℕ → Delivery → Bool
is_replay id d = d.id == id && is_replayable d.status

unfoldable pub replay_delivery : ℕ → Store → Bool × Store
replay_delivery id s = (
  ltb 0 (count_where (is_replay id) s.deliveries),
  record s { deliveries = update_where (is_replay id) (replayed s.now) s.deliveries },
)

-- `claimed_at < now() - stale`; a null is not.
unfoldable pub is_stale_at : ℕ → ℕ → Option ℕ → Bool
is_stale_at stale_ms now none = false
is_stale_at stale_ms now (some at) = ltb (at + stale_ms) now

unfoldable pub max_attempts_of : List Subscription → Delivery → Option ℕ
max_attempts_of subs d = Option.map (λ s. s.max_attempts) (subscription_of subs d.subscription_id)

unfoldable pub is_some : Option ℕ → Bool
is_some none = false
is_some (some m) = true

unfoldable pub is_stale : ℕ → Store → Delivery → Bool
unfolding is_stale_at max_attempts_of is_some
is_stale stale_ms s d =
    is_some (max_attempts_of s.subscriptions d)
    && (is_running d.status && is_stale_at stale_ms s.now d.claimed_at)

unfoldable pub stale_message : Text
stale_message = codes "stale claim: consumer did not finish"

unfoldable pub requeued : Store → Delivery → Delivery
unfolding max_attempts_of stale_message
requeued s d = record d {
  status = if leb (or_else (max_attempts_of s.subscriptions d) 0) d.attempts then dead else failed;
  last_error = some stale_message;
  next_attempt_at = s.now;
}

-- The number of rows taken from claimers that did not finish, and the tables after it.
unfoldable pub requeue_stale_deliveries : ℕ → Store → ℕ × Store
requeue_stale_deliveries stale_ms s = (
  count_where (is_stale stale_ms s) s.deliveries,
  record s {
    deliveries = update_where (is_stale stale_ms s) (requeued s) s.deliveries;
    receipts =
        delete_receipts (λ i. any (λ d. is_stale stale_ms s d && d.id == i) s.deliveries)
          s.receipts;
  },
)
