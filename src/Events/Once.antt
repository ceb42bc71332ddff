-- ===== src/Events/Once.antt =====
-- One run per idempotency key: the reservation of src/lib/events.ts.
use alchemist_template.Common.{
  ℕ, ◌≡◌, refl, ap, ◌∙◌, ◌≢◌, true, false, some, List, [], ◌∷◌, arith, Text, eq_text_self, Result,
  ok,
}
use alchemist_template.Events.Topic.{RegisteredHandler, find_handler}
use alchemist_template.Events.Process.{
  process_keyed, after_reserve, release, complete, catch_failure, World, process_delivery,
  process_kind, process_registered, process_derived,
}
use alchemist_template.Events.Finish.{complete_delivery, complete_receipt, Thrown}
use alchemist_template.Events.Store.{ClaimedDelivery, Store, Receipt, Event, handler}
use alchemist_template.Events.Reserve.{
  scoped_idempotency_key, reserve_idempotency_key, take_over, reservation, receipt_of,
  with_reservation, delivery_runs, is_receipt_for, in_flight, reserved, seen, Reservation,
  scoped_idempotency_key,
}

-- A receipt for the subscription and key, held by the claim.
abbrev pub Holds : ClaimedDelivery → Text → Store → Type 0
Holds c key s = receipt_of c.subscription_id key s.receipts ≡ some (reservation c key)

-- A reservation that succeeded is on record.
reserved-Holds :
    (c : ClaimedDelivery) (key : Text) (s after : Store)
    → reserve_idempotency_key c key s ≡ (reserved, after)
    → Holds c key after
unfolding reserve_idempotency_key take_over with_reservation receipt_of is_receipt_for reservation
reserved-Holds c key s after h = ground (arith, eq_text_self key)

-- While the claim that holds a key runs, no other delivery of that subscription gets the key.
held-in-flight :
    (c d : ClaimedDelivery) (key : Text) (s : Store)
    → Holds c key s
    → d.subscription_id ≡ c.subscription_id
    → d.id ≢ c.id
    → delivery_runs c.id s.deliveries ≡ true
    → reserve_idempotency_key d key s ≡ (in_flight c.id, s)
unfolding reserve_idempotency_key take_over reservation
held-in-flight c d key s h sub ne runs = rw (sub, h, reserve_idempotency_key) (ground arith)

complete-held :
    (new : Receipt) (id now : ℕ) (rs : List Receipt) (r : Receipt)
    → receipt_of new.subscription_id new.idempotency_key rs ≡ some r
    → r.delivery_id ≡ some id
    → receipt_of new.subscription_id new.idempotency_key (complete_receipt new id now rs)
      ≡ some (record r { completed_at = some now })
unfolding receipt_of is_receipt_for complete_receipt
complete-held new id now [] r h e = absurd (cc)
complete-held new id now (x ∷ xs) r h e = ground (arith, complete-held new id now xs r)

-- Once the claim that holds a key has completed, the key is seen.
completed-seen :
    (c d : ClaimedDelivery) (key : Text) (s : Store)
    → Holds c key s
    → d.subscription_id ≡ c.subscription_id
    → let after = (complete_delivery c.token c.subscription_id c.event.id (some key) s).1 in
      reserve_idempotency_key d key after ≡ (seen c.event.id, after)
unfolding complete_delivery reserve_idempotency_key take_over reservation
completed-seen c d key s h sub =
    let new : Receipt = record (reservation c key) { completed_at = some s.now } in
    let kept = complete-held new c.id s.now s.receipts (reservation c key) h refl in
    rw (sub, kept, reserve_idempotency_key)

-- One run per idempotency key. Given that a claim has just reserved a key and that its delivery is
-- running: another delivery of the subscription that asks for the key is told that it is in flight,
-- and changes nothing; and once the claim has completed, it is told that the key was handled, and by
-- which event.
pub key_reserved_once :
    (c d : ClaimedDelivery) (key : Text) (s held : Store)
    → reserve_idempotency_key c key s ≡ (reserved, held)
    → d.subscription_id ≡ c.subscription_id
    → d.id ≢ c.id
    → delivery_runs c.id held.deliveries ≡ true
    → (reserve_idempotency_key d key held ≡ (in_flight c.id, held))
      × (let after = (complete_delivery c.token c.subscription_id c.event.id (some key) held).1 in
          reserve_idempotency_key d key after ≡ (seen c.event.id, after))
key_reserved_once c d key s held got sub ne runs =
    let h = reserved-Holds c key s held got in
    (held-in-flight c d key held h sub ne runs, completed-seen c d key held h sub)

keyed_unstarted :
    (w : World) (d : ClaimedDelivery) (key : Text) (s after : Store) (r : Reservation)
    → reserve_idempotency_key d key s ≡ (r, after)
    → r ≢ reserved
    → (process_keyed w d key s).started ≡ false
unfolding process_keyed after_reserve release complete catch_failure
keyed_unstarted w d key s after r h ne = ground arith

-- Where a registered handler derives a key from the event, and the key is not reserved for its
-- delivery (another run is in flight, or the key was handled), the handler is not started.
pub process_unstarted :
    (w : World) (d : ClaimedDelivery) (entry : RegisteredHandler)
    (derive : Event → Result Thrown Text) (raw : Text) (s after : Store) (r : Reservation)
    → d.kind ≡ handler
    → find_handler d.event.topic d.handler_name w.registry ≡ some entry
    → entry.idempotency_key ≡ some derive
    → derive d.event ≡ ok raw
    → reserve_idempotency_key d
        (scoped_idempotency_key w.print_organization d.event.organization_id raw)
        s
      ≡ (r, after)
    → r ≢ reserved
    → (process_delivery w d s).started ≡ false
unfolding process_delivery process_kind process_registered process_derived
process_unstarted w d entry derive raw s after r is_handler found keyed derived h ne =
    let key = scoped_idempotency_key w.print_organization d.event.organization_id raw in
    ap (λ k. (process_kind k w d s).started) is_handler
    ∙ ap (λ o. (process_registered w d o s).started) found
    ∙ rw (keyed, process_registered)
        (ap (λ x. (process_derived w d x s).started) derived
          ∙ keyed_unstarted w d key s after r h ne)
