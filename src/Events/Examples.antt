-- ===== src/Events/Examples.antt =====
-- Tests of the event modules, and their theorems at concrete inputs.
use alchemist_template.Common.{
  ℕ, ◌+◌, ◌≤◌, ◌≡◌, refl, ◌⊎◌, true, false, not, Option, none, some, List, [], ◌∷◌, ◌++◌, arith,
  length, get_elem?, filter, any, Text, codes, eq_text, Result, ok,
}
use alchemist_template.Events.Fence.{late_write_fenced}
use alchemist_template.Events.Stale.{stale_requeued}
use alchemist_template.Events.Due.{Takeable}
use alchemist_template.Events.Picks.{claim_takes_due, claim_takes_all}
use alchemist_template.Events.Once.{key_reserved_once}
use alchemist_template.Events.Fanout.{IsFanout, publish_fans_out}
use alchemist_template.Events.Sample.{
  half, signup_topic, taken_claim, busy_store, claim_options, order_key, other_claim, none_locked,
  signup_input, throwing, taken, fresh_store, waiting, taken_token, welcome,
}
use alchemist_template.Events.Settle.{LetsGo, process-LetsGo}
use alchemist_template.Events.Reserve.{
  reserve_idempotency_key, receipt_of, delivery_runs, in_flight, seen,
}
use alchemist_template.Events.Finish.{
  complete_delivery, compute_backoff_ms, is_stale, requeue_stale_deliveries, Thrown, Random,
  stale_message, fail_delivery, release_claims,
}
use alchemist_template.Events.Topic.{is_topic, RegisteredHandler}
use alchemist_template.Events.Publish.{publish_event, PublishResult, hears, insert_event}
use alchemist_template.Events.Store.{
  Delivery, failed, Store, event_of, subscription_of, object, Event,
}
use alchemist_template.Events.Process.{process_delivery, World}
use alchemist_template.Events.Claim.{claimed, picked, is_due, claim_limit, claim_transaction}

late_write_fenced_example :
    ((subscription_id event_id : ℕ) (key : Option Text)
      → get_elem?
          (complete_delivery other_claim.token subscription_id event_id key busy_store).1.deliveries
          0
        ≡ some taken)
    × ((m : ℕ) (thrown : Thrown) (r : Random) (delay : ℕ)
        → get_elem? (fail_delivery other_claim.token m thrown r delay busy_store).1.deliveries 0
          ≡ some taken)
    × ((delay : ℕ)
        → get_elem? (release_claims (other_claim.token ∷ []) delay busy_store).1.deliveries 0
          ≡ some taken)
late_write_fenced_example =
    late_write_fenced busy_store 0 taken 7 other_claim.token refl refl (omega arith)

third_backoff : compute_backoff_ms 3 half ≡ 3000
unfolding compute_backoff_ms
third_backoff = refl

claim_takes_due_example :
    (length (picked 10 claim_options none_locked fresh_store) ≤ 500)
    × ((get_elem? (claim_transaction 10 claim_options none_locked fresh_store).1.deliveries 0
          ≡ some waiting)
        ⊎ (Takeable none_locked fresh_store waiting
            × (get_elem? (claim_transaction 10 claim_options none_locked fresh_store).1.deliveries 0
                ≡ some (claimed 7 10 waiting))))
claim_takes_due_example =
    claim_takes_due 10 claim_options none_locked fresh_store 0 waiting (tt, tt) refl

claim_takes_all_example :
    get_elem? (claim_transaction 10 claim_options none_locked fresh_store).1.deliveries 0
    ≡ some (claimed 7 10 waiting)
unfolding is_due claim_limit event_of subscription_of
claim_takes_all_example =
    claim_takes_all 10 claim_options none_locked fresh_store 0 waiting refl refl (omega arith)

process-LetsGo_example : LetsGo taken_claim (process_delivery throwing taken_claim busy_store)
process-LetsGo_example = process-LetsGo throwing taken_claim refl busy_store

key_reserved_once_example :
    (reserve_idempotency_key other_claim order_key
        (reserve_idempotency_key taken_claim order_key busy_store).1
      ≡ (in_flight 3, (reserve_idempotency_key taken_claim order_key busy_store).1))
    × (let after =
          (complete_delivery taken_token 2 1
            (some order_key)
            (reserve_idempotency_key taken_claim order_key busy_store).1).1 in
        reserve_idempotency_key other_claim order_key after ≡ (seen 1, after))
unfolding reserve_idempotency_key receipt_of delivery_runs
key_reserved_once_example =
    key_reserved_once taken_claim other_claim order_key busy_store
      (reserve_idempotency_key taken_claim order_key busy_store).1 refl refl (omega arith) refl

abbrev held_store : Store
held_store = record busy_store {
  receipts =
      record {
        subscription_id = 2;
        idempotency_key = order_key;
        event_id = 1;
        delivery_id = some 3;
        completed_at = none;
      }
      ∷ [];
}

abbrev derive_order : Event → Result Thrown Text
derive_order e = ok (codes "order")

abbrev keyed_handler : RegisteredHandler
keyed_handler = record {
  topic = signup_topic;
  name = codes "welcome";
  max_attempts = 3;
  idempotency_key = some derive_order;
}

abbrev keyed_world : World
keyed_world = record throwing { registry = keyed_handler ∷ [] }

malformed : (is_topic (codes "order") ≡ false) × (is_topic (codes "order..made") ≡ false)
unfolding is_topic
malformed = (refl, refl)

abbrev late_store : Store
late_store = record busy_store { now = 20 }

stale_requeued_example :
    (get_elem? (requeue_stale_deliveries 5 late_store).1.deliveries 0
      ≡ some
          (record taken { status = failed; last_error = some stale_message; next_attempt_at = 20 }))
    × (any (is_stale 5 late_store) (requeue_stale_deliveries 5 late_store).1.deliveries ≡ false)
    × ((requeue_stale_deliveries 5 late_store).0
          + length (filter (λ d. not (is_stale 5 late_store d)) late_store.deliveries)
        ≡ length late_store.deliveries)
unfolding is_stale subscription_of
stale_requeued_example = stale_requeued 5 late_store 0 taken welcome refl refl

abbrev after_signup : Store
after_signup = (insert_event (λ i. i + 100) 9 signup_input (object []) fresh_store).1

abbrev signup_result : PublishResult
signup_result = record { id = 9; topic = signup_topic; deliveries = 1; inserted = true }

publish_fans_out_example :
    ((signup_result.inserted ≡ true)
      × (event_of fresh_store.events 9 ≡ none)
      × ((added : List Delivery) × (after_signup.deliveries ≡ fresh_store.deliveries ++ added)
          × (signup_result.deliveries ≡ length added)
          × IsFanout signup_input 9 fresh_store added))
    ⊎ ((signup_result.inserted ≡ false)
        × (signup_result.deliveries ≡ 0)
        × (after_signup ≡ fresh_store))
unfolding publish_event hears eq_text is_topic event_of
publish_fans_out_example =
    publish_fans_out 0 (λ i. i + 100) signup_input fresh_store after_signup signup_result refl
