-- ===== src/Events/Reserve.antt =====
-- scopedIdempotencyKey and reserveIdempotencyKey of src/lib/events.ts. The reservation is one
-- transaction; other transactions are not interleaved with its statements, so the two answers for a
-- row that vanishes between them do not arise.
use alchemist_template.Common.{
  ℕ, Bool, not, ◌&&◌, Option, none, some, List, ◌∷◌, ◌++◌, ◌==◌, if◌then◌else◌, filter, find?, any,
  Text, codes, eq_text,
}
use alchemist_template.Events.Store.{Delivery, Receipt, Store, ClaimedDelivery, is_running}

-- `${organizationId ?? "global"}:${key}`, given how an organisation's id prints.
unfoldable pub scoped_idempotency_key : (ℕ → Text) → Option ℕ → Text → Text
scoped_idempotency_key print none key = codes "global" ++ b':' ∷ key
scoped_idempotency_key print (some org) key = print org ++ b':' ∷ key

pub data Reservation : Type 0 where
  reserved : Reservation
  seen : ℕ → Reservation
  in_flight : ℕ → Reservation

-- `subscription_id = i AND idempotency_key = key`
unfoldable pub is_receipt_for : ℕ → Text → Receipt → Bool
is_receipt_for i key r = r.subscription_id == i && eq_text r.idempotency_key key

unfoldable pub receipt_of : ℕ → Text → List Receipt → Option Receipt
unfolding is_receipt_for
receipt_of i key receipts = find? (is_receipt_for i key) receipts

-- `LEFT JOIN event_deliveries`: whether the delivery that a reservation names is running.
unfoldable pub delivery_runs : ℕ → List Delivery → Bool
delivery_runs i ds = any (λ d. d.id == i && is_running d.status) ds

unfoldable pub reservation : ClaimedDelivery → Text → Receipt
reservation c key = record {
  subscription_id = c.subscription_id;
  idempotency_key = key;
  event_id = c.event.id;
  delivery_id = some c.id;
  completed_at = none;
}

unfoldable pub with_reservation :
    ClaimedDelivery → Text → Store → List Receipt → Reservation × Store
unfolding reservation
with_reservation c key s receipts = (reserved, record s { receipts = reservation c key ∷ receipts })

-- What a conflicting receipt means: handled, held by a run in flight, or an orphan to replace.
unfoldable pub take_over : ClaimedDelivery → Text → Store → Receipt → Reservation × Store
unfolding with_reservation
take_over c key s r = elim r.completed_at [
  | some at ↦ (seen r.event_id, s)
  | none ↦ elim r.delivery_id [
    | none ↦
        with_reservation c key s
          (filter (λ q. not (is_receipt_for c.subscription_id key q)) s.receipts)
    | some owner ↦
        if not (owner == c.id) && delivery_runs owner s.deliveries
        then (in_flight owner, s)
        else with_reservation c key s
            (filter (λ q. not (is_receipt_for c.subscription_id key q)) s.receipts)
  ]
]

unfoldable pub reserve_idempotency_key : ClaimedDelivery → Text → Store → Reservation × Store
unfolding with_reservation
reserve_idempotency_key c key s = elim (receipt_of c.subscription_id key s.receipts) [
  | none ↦ with_reservation c key s s.receipts
  | some r ↦ take_over c key s r
]
