-- ===== src/Events/Retention.antt =====
-- sweepEventRetention of src/lib/events.ts. Each batch is its own transaction. A batch takes the
-- rows in the order of the table, since its query names none; no other transaction commits between
-- two batches.
use alchemist_template.Common.{
  ℕ, zero, suc, ◌+◌, ◌*◌, min, max, Bool, true, false, not, ◌&&◌, Option, none, some, List, [], ◌∷◌,
  map, ltb, ◌==◌, if◌then◌else◌, or_else, filter, any,
}
use alchemist_template.Events.Store.{
  dead, failed, done, Store, Status, Event, Subscription, Delivery, subscription_of, Receipt,
  pending, is_some_where, running,
}

abbrev pub day_ms : ℕ
day_ms = 24 * 60 * 60 * 1000

pub record RetentionOptions : Type 0 where
  pub done_deliveries_after_days : ℕ
  pub events_after_days : ℕ
  pub batch : Option ℕ
  pub max_batches : Option ℕ

pub record RetentionResult : Type 0 where
  pub deliveries_deleted : ℕ
  pub events_deleted : ℕ

-- `Math.max(1, Math.min(10_000, batch ?? 1_000))` and `Math.max(1, Math.min(1_000, maxBatches ?? 20))`
unfoldable pub sweep_batch : Option ℕ → ℕ
sweep_batch batch = max 1 (min 10000 (or_else batch 1000))

unfoldable pub sweep_rounds : Option ℕ → ℕ
sweep_rounds max_batches = max 1 (min 1000 (or_else max_batches 20))

-- `DELETE FROM t WHERE id IN (SELECT id FROM t WHERE p LIMIT n) RETURNING id`: the number of rows
-- and the table after it.
unfoldable pub delete_limit {ℓ} : {A : Type ℓ} → (A → Bool) → ℕ → List A → ℕ × List A
delete_limit p zero xs = (0, xs)
delete_limit p (suc n) [] = (0, [])
delete_limit p (suc n) (x ∷ xs) =
    let fewer = delete_limit p n xs in
    let same = delete_limit p (suc n) xs in
    if p x then (suc fewer.0, fewer.1) else (same.0, x ∷ same.1)

-- The loop: at most `rounds` batches, until one is not full.
unfoldable pub sweep_table {ℓ} : {A : Type ℓ} → (A → Bool) → ℕ → ℕ → List A → ℕ × List A
unfolding delete_limit
sweep_table p batch zero xs = (0, xs)
sweep_table p batch (suc rounds) xs =
    let round = delete_limit p batch xs in
    let rest = sweep_table p batch rounds round.1 in
    if ltb round.0 batch then round else (round.0 + rest.0, rest.1)

unfoldable pub is_done : Status → Bool
is_done done = true
is_done _ = false

-- `at < now() - days`; a null is not.
unfoldable pub is_before : ℕ → ℕ → Option ℕ → Bool
is_before days now none = false
is_before days now (some at) = ltb (at + days * day_ms) now

unfoldable pub is_expired_delivery : ℕ → ℕ → Delivery → Bool
unfolding is_done is_before
is_expired_delivery days now d = is_done d.status && is_before days now d.done_at

-- `status IN ('pending', 'running', 'failed')`
unfoldable pub is_unfinished : Status → Bool
is_unfinished pending = true
is_unfinished running = true
is_unfinished failed = true
is_unfinished done = false
is_unfinished dead = false

unfoldable pub is_active : Option Subscription → Bool
is_active none = false
is_active (some s) = s.active

-- A delivery that holds its event past the window.
unfoldable pub holds_event : Store → ℕ → Delivery → Bool
unfolding is_unfinished is_active
holds_event s event_id d =
    d.event_id == event_id
    && (is_unfinished d.status && is_active (subscription_of s.subscriptions d.subscription_id))

unfoldable pub is_expired_event : ℕ → Store → Event → Bool
unfolding holds_event is_before
is_expired_event days s e =
    is_before days s.now (some e.created_at) && not (any (holds_event s e.id) s.deliveries)

-- `ON DELETE SET NULL` for the receipts of a deleted delivery.
unfoldable pub forget_delivery : List Delivery → Receipt → Receipt
forget_delivery ds r =
    if is_some_where (λ i. any (λ d. d.id == i) ds) r.delivery_id
    then r
    else record r { delivery_id = none }

unfoldable pub has_event : List Event → ℕ → Bool
has_event es i = any (λ e. e.id == i) es

-- The foreign keys after a sweep: deliveries and receipts go with their event.
unfoldable pub cascade : List Event → List Delivery → Store → Store
unfolding has_event forget_delivery
cascade es ds s =
    let kept = filter (λ d. has_event es d.event_id) ds in
    record s {
      events = es;
      deliveries = kept;
      receipts = map (forget_delivery kept) (filter (λ r. has_event es r.event_id) s.receipts);
    }

-- `if (deliveryDays > 0)`, the deliveries.
unfoldable pub sweep_deliveries : RetentionOptions → Store → ℕ × Store
unfolding sweep_batch sweep_rounds sweep_table is_expired_delivery cascade
sweep_deliveries opts s =
    let swept =
      sweep_table (is_expired_delivery opts.done_deliveries_after_days s.now)
        (sweep_batch opts.batch) (sweep_rounds opts.max_batches) s.deliveries in
    if ltb 0 opts.done_deliveries_after_days then (swept.0, cascade s.events swept.1 s) else (0, s)

-- `if (eventDays > 0)`, the events.
unfoldable pub sweep_events : RetentionOptions → Store → ℕ × Store
unfolding sweep_batch sweep_rounds sweep_table is_expired_event cascade
sweep_events opts s =
    let swept =
      sweep_table (is_expired_event opts.events_after_days s) (sweep_batch opts.batch)
        (sweep_rounds opts.max_batches) s.events in
    if ltb 0 opts.events_after_days then (swept.0, cascade swept.1 s.deliveries s) else (0, s)

unfoldable pub sweep_event_retention : RetentionOptions → Store → RetentionResult × Store
unfolding sweep_deliveries sweep_events
sweep_event_retention opts s =
    let first = sweep_deliveries opts s in
    let second = sweep_events opts first.1 in
    (record { deliveries_deleted = first.0; events_deleted = second.0 }, second.1)
