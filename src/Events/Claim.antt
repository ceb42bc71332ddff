-- ===== src/Events/Claim.antt =====
-- claimDeliveries of src/lib/events.ts: the claim transaction, and what a caller that timed out
-- leaves behind.
use alchemist_template.Common.{
  ℕ, ◌+◌, min, max, Bool, true, false, not, ◌&&◌, ◌||◌, Option, none, some, List, [], ◌∷◌, ◌++◌,
  map, ltb, leb, ◌==◌, if◌then◌else◌, take, filter, any, Text, eq_text, Result, update_where, ok,
  err,
}
use alchemist_template.Events.Store.{
  running, Kind, handler, webhook, Event, Subscription, Delivery, Store, ClaimedDelivery,
  is_claimable, subscription_of, event_of,
}
use alchemist_template.Events.Finish.{release_claims}

-- A (topic, handler) pair that the process can run.
pub record RunnableHandler : Type 0 where
  pub topic : Text
  pub handler_name : Text

pub record ClaimOptions : Type 0 where
  pub claimed_by : ℕ
  pub topics : List Text
  pub runnable_handlers : Option (List RunnableHandler)

-- `AND e.topic IN (...)`, if any topic was given.
topic_filter : List Text → Event → Bool
topic_filter [] e = true
topic_filter (t ∷ ts) e = any (λ u. eq_text e.topic u) (t ∷ ts)

is_webhook : Kind → Bool
is_webhook handler = false
is_webhook webhook = true

-- `AND (s.kind <> 'handler' OR (e.topic, s.handler) IN (...))`, if a list was given.
handler_filter : Option (List RunnableHandler) → Event → Subscription → Bool
unfolding is_webhook
handler_filter none e s = true
handler_filter (some runnable) e s =
    is_webhook s.kind
    || any (λ h. eq_text e.topic h.topic && eq_text s.handler h.handler_name) runnable

-- The joins on events and event_subscriptions, and their filters.
unfoldable pub joined : ClaimOptions → Option Event → Option Subscription → Bool
unfolding topic_filter handler_filter
joined opts (some e) (some s) =
    s.active && (topic_filter opts.topics e && handler_filter opts.runnable_handlers e s)
joined opts _ _ = false

-- The WHERE clause of the pick; `locked` are the rows that another transaction holds, which
-- SKIP LOCKED passes over.
unfoldable pub is_due : ClaimOptions → (ℕ → Bool) → Store → Delivery → Bool
unfolding joined
is_due opts locked s d =
    is_claimable d.status
    && (leb d.next_attempt_at s.now
        && (joined opts (event_of s.events d.event_id)
              (subscription_of s.subscriptions d.subscription_id)
            && not (locked d.id)))

-- `ORDER BY next_attempt_at, created_at`
unfoldable pub comes_first : Delivery → Delivery → Bool
comes_first a b =
    ltb a.next_attempt_at b.next_attempt_at
    || (a.next_attempt_at == b.next_attempt_at && leb a.created_at b.created_at)

unfoldable pub insert_by_due : Delivery → List Delivery → List Delivery
unfolding comes_first
insert_by_due d [] = d ∷ []
insert_by_due d (e ∷ es) = if comes_first d e then d ∷ e ∷ es else e ∷ insert_by_due d es

unfoldable pub sort_by_due : List Delivery → List Delivery
unfolding insert_by_due
sort_by_due [] = []
sort_by_due (d ∷ ds) = insert_by_due d (sort_by_due ds)

-- `Math.max(1, Math.min(500, Math.floor(batch)))`
unfoldable pub claim_limit : ℕ → ℕ
claim_limit batch = max 1 (min 500 batch)

unfoldable pub picked : ℕ → ClaimOptions → (ℕ → Bool) → Store → List Delivery
unfolding is_due sort_by_due claim_limit
picked batch opts locked s =
    take (claim_limit batch) (sort_by_due (filter (is_due opts locked s) s.deliveries))

abbrev pub is_in : List Delivery → Delivery → Bool
is_in rows d = any (λ p. d.id == p.id) rows

unfoldable pub claimed : ℕ → ℕ → Delivery → Delivery
claimed claimed_by now d = record d {
  status = running;
  claimed_by = some claimed_by;
  claimed_at = some now;
  attempts = d.attempts + 1;
}

-- The row that RETURNING gives for a claimed delivery.
unfoldable pub returned_row :
    ℕ → Delivery → Option Event → Option Subscription → List ClaimedDelivery
returned_row claimed_by d (some e) (some s) =
    record {
      token = record { id = d.id; claimed_by = claimed_by; attempts = d.attempts + 1 };
      subscription_id = d.subscription_id;
      max_attempts = s.max_attempts;
      handler_name = s.handler;
      kind = s.kind;
      url = s.url;
      secret_ref = s.secret_ref;
      event = e;
    }
    ∷ []
returned_row claimed_by d _ _ = []

unfoldable pub returned_of : ℕ → Store → Delivery → List ClaimedDelivery
unfolding returned_row
returned_of claimed_by s d =
    returned_row claimed_by d (event_of s.events d.event_id)
      (subscription_of s.subscriptions d.subscription_id)

unfoldable pub returned_rows : ℕ → Store → List Delivery → List ClaimedDelivery
unfolding returned_of
returned_rows claimed_by s [] = []
returned_rows claimed_by s (d ∷ ds) = returned_of claimed_by s d ++ returned_rows claimed_by s ds

-- The claim transaction, committed.
unfoldable pub claim_transaction :
    ℕ → ClaimOptions → (ℕ → Bool) → Store → List ClaimedDelivery × Store
unfolding picked returned_rows
claim_transaction batch opts locked s =
    let rows = picked batch opts locked s in
    (
      returned_rows opts.claimed_by s (filter (is_in rows) s.deliveries),
      record s {
        deliveries = update_where (is_in rows) (claimed opts.claimed_by s.now) s.deliveries;
      },
    )

-- When the caller's timer fired: not at all, before the transaction started or while its update ran
-- (it rolls back), or once it could only commit.
pub data ClaimTiming : Type 0 where
  in_time before_start during_update after_check : ClaimTiming

pub data ClaimError : Type 0 where
  claim_timed_out : ClaimError

-- The claim as its caller sees it. `release_commits` says whether the hand-back of rows that were
-- committed too late could itself be written.
unfoldable pub claim_deliveries :
    ClaimTiming
    → Bool
    → ℕ
    → ClaimOptions
    → (ℕ → Bool)
    → Store
    → Result ClaimError (List ClaimedDelivery) × Store
unfolding claim_transaction
claim_deliveries in_time release_commits batch opts locked s =
    let (rows, after) = claim_transaction batch opts locked s in (ok rows, after)
claim_deliveries before_start release_commits batch opts locked s = (err claim_timed_out, s)
claim_deliveries during_update release_commits batch opts locked s = (err claim_timed_out, s)
claim_deliveries after_check release_commits batch opts locked s =
    let (rows, after) = claim_transaction batch opts locked s in
    (
      err claim_timed_out,
      if release_commits then (release_claims (map (λ r. r.token) rows) 0 after).1 else after,
    )
