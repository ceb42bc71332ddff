-- ===== src/Outbox/Deliver.antt =====
-- deliverDueEmails of src/services/email-outbox.service.ts.
use alchemist_template.Common.{
  ℕ, ◌+◌, ◌*◌, min, max, Bool, false, not, ◌&&◌, ◌||◌, Option, none, some, List, [], ◌∷◌, ◌++◌, map,
  ltb, leb, ◌==◌, if◌then◌else◌, or_else, length, Text, codes, update_where,
}
use alchemist_template.Common.Pick.{pick, is_among}
use alchemist_template.Outbox.Table.{Email, pending, sending, sent, failed, is_pending, is_sending}

abbrev pub stale_lock_ms : ℕ
stale_lock_ms = 10 * 60 * 1000

-- RETRY_BACKOFF_SECONDS, at an index that `backoffSecondsForAttempt` keeps in range.
unfoldable pub backoff_seconds_for_attempt : ℕ → ℕ
backoff_seconds_for_attempt n =
    let i = min (max n 1) 5 in
    if i == 1
    then 60
    else if i == 2
    then 300
    else if i == 3
    then 1800
    else if i == 4
    then 7200
    else 43200

-- `lockedAt < now - STALE_LOCK_MS`, which a null never is.
unfoldable pub locked_before : ℕ → ℕ → Option ℕ → Bool
locked_before stale now none = false
locked_before stale now (some at) = ltb (at + stale) now

-- The WHERE clause of the claim; `held` are the rows that other transactions have locked.
unfoldable pub is_due : (ℕ → Bool) → ℕ → Email → Bool
unfolding locked_before
is_due held now r =
    leb r.send_at now
    && ((is_pending r.status
          || (is_sending r.status && locked_before stale_lock_ms now r.locked_at))
        && not (held r.id))

abbrev pub sends_before : Email → Email → Bool
sends_before a b = leb a.send_at b.send_at

-- `Math.min(Math.max(opts.limit ?? 50, 1), 500)`
unfoldable pub claim_limit : Option ℕ → ℕ
claim_limit limit = min (max (or_else limit 50) 1) 500

unfoldable pub claimed : ℕ → Email → Email
claimed now r = record r { status = sending; locked_at = some now; attempts = r.attempts + 1 }

unfoldable pub picked : Option ℕ → (ℕ → Bool) → ℕ → List Email → List Email
unfolding is_due claim_limit
picked limit held now rows = pick sends_before (claim_limit limit) (is_due held now) rows

-- What the claim hands to the loop: the rows as they were, with the attempt counted.
abbrev pub counted : Email → Email
counted r = record r { attempts = r.attempts + 1 }

unfoldable pub claim_due : Option ℕ → (ℕ → Bool) → ℕ → List Email → List Email × List Email
unfolding picked claimed
claim_due limit held now rows =
    let took = picked limit held now rows in
    (map counted took, update_where (is_among (λ r. r.id) took) (claimed now) rows)

-- How sending one email ends: the transport takes it and the row says so; it takes it and the
-- write of that fails; the sender's domain is rejected; or another error.
pub data SendOutcome : Type 0 where
  delivered : SendOutcome
  unrecorded rejected threw : Text → SendOutcome

fail_permanently : Text → Email → Email
fail_permanently message r = record r {
  status = failed;
  locked_at = none;
  last_error = some message;
}

-- The rest of the text that a rejected sender leaves.
abbrev advice : Text
advice =
    codes
      " -- retrying the same From cannot succeed. Verify the sending domain (or restore the platform sender), then re-enqueue."

-- The catch block; `c` is the claimed row.
on_error : ℕ → Email → Text → Email → Email
unfolding fail_permanently backoff_seconds_for_attempt
on_error now c message r =
    if leb c.max_attempts c.attempts then fail_permanently message r else record r {
      status = pending;
      send_at = now + backoff_seconds_for_attempt c.attempts * 1000;
      locked_at = none;
      last_error = some message;
    }

-- What is written on the row.
unfoldable pub settled : ℕ → Email → SendOutcome → Email → Email
unfolding fail_permanently on_error
settled now c delivered r = record r {
  status = sent;
  sent_at = some now;
  locked_at = none;
  last_error = none;
}
settled now c (unrecorded message) r = on_error now c message r
settled now c (rejected message) r = fail_permanently (message ++ advice) r
settled now c (threw message) r = on_error now c message r

-- The status write of one email, by its id alone.
unfoldable pub settle : ℕ → Email → SendOutcome → List Email → List Email
unfolding settled
settle now c outcome rows = update_where (λ r. r.id == c.id) (settled now c outcome) rows

-- `calls` are the emails that the transport was called with, the last one first, which the code does
-- not return.
pub record DeliverResult : Type 0 where
  pub claims : ℕ
  pub sends : ℕ
  pub retries : ℕ
  pub failures : ℕ
  pub calls : List Email

unfoldable pub count_outcome : Email → SendOutcome → DeliverResult → DeliverResult
count_outcome c delivered t = record t { sends = t.sends + 1 }
count_outcome c (rejected m) t = record t { failures = t.failures + 1 }
count_outcome c (threw m) t =
    if leb c.max_attempts c.attempts
    then record t { failures = t.failures + 1 }
    else record t { retries = t.retries + 1 }
count_outcome c (unrecorded m) t =
    if leb c.max_attempts c.attempts
    then record t { failures = t.failures + 1 }
    else record t { retries = t.retries + 1 }

unfoldable pub settle_each :
    ℕ → (Email → SendOutcome) → List Email → DeliverResult → List Email → DeliverResult × List Email
unfolding settle count_outcome
settle_each now send [] t rows = (t, rows)
settle_each now send (c ∷ cs) t rows =
    settle_each now send cs (count_outcome c (send c) (record t { calls = c ∷ t.calls }))
      (settle now c (send c) rows)

-- The counts `claimed`, `sent`, `retried` and `failed`, and the table, after a pass that is not
-- interrupted; `send` says how each email goes.
unfoldable pub deliver_due_emails :
    Option ℕ → (ℕ → Bool) → ℕ → (Email → SendOutcome) → List Email → DeliverResult × List Email
unfolding claim_due settle_each
deliver_due_emails limit held now send rows =
    let (took, after) = claim_due limit held now rows in
    settle_each now send took
      (record { claims = length took; sends = 0; retries = 0; failures = 0; calls = [] }) after
