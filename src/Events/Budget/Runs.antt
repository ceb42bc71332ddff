-- ===== src/Events/Budget/Runs.antt =====
-- Every transaction keeps the attempt budget, so every history does.
use alchemist_template.Common.{
  ℕ, ◌+◌, ◌≡◌, refl, Bool, Option, none, some, List, [], ◌∷◌, All, All-append, Text, update-All,
  update-All-In,
}
use alchemist_template.Events.Store.{
  Store, Subscription, Delivery, ClaimedDelivery, Event, ClaimToken,
}
use alchemist_template.Events.Finish.{
  Thrown, Random, complete_delivery, fail_delivery, release_claims, replay_delivery,
  requeue_stale_deliveries, finished, failed_row, fail_outcome, error_message, released, replayed,
  requeued,
}
use alchemist_template.Events.Claim.{
  ClaimOptions, claimed, returned_row, returned_rows, claim_transaction,
}
use alchemist_template.Events.Picks.{is_in-due, update-HasKey}
use alchemist_template.Events.Budget.{
  RowOk, SubOk, ClaimOk, Budgeted, finished-RowOk, failed-RowOk, released-RowOk, replayed-RowOk,
  requeued-RowOk, claimed-RowOk, sub-max, claim-due,
}

module _ (sub_of max_of : ℕ → ℕ) where
  pub complete-Budgeted :
      (c : ClaimedDelivery) (key : Option Text) (s : Store)
      → Budgeted sub_of max_of s
      → Budgeted sub_of max_of (complete_delivery c.token c.subscription_id c.event.id key s).1
  unfolding complete_delivery finished
  complete-Budgeted c key s v = record {
    rows =
        update-All (RowOk sub_of max_of) _ (finished s.now) s.deliveries
          (λ d h. finished-RowOk sub_of max_of s.now d) v.rows;
    subs = v.subs;
    key = update-HasKey _ (finished s.now) s.deliveries (λ d. refl) v.key;
  }

  pub fail-Budgeted :
      (c : ClaimedDelivery) (thrown : Thrown) (r : Random) (delay : ℕ) (s : Store)
      → ClaimOk sub_of max_of c
      → Budgeted sub_of max_of s
      → Budgeted sub_of max_of (fail_delivery c.token c.max_attempts thrown r delay s).1
  unfolding fail_delivery failed_row
  fail-Budgeted c thrown r delay s k v =
      let outcome = fail_outcome c.token c.max_attempts r delay in
      record {
        rows =
            update-All (RowOk sub_of max_of) _ (failed_row outcome (error_message thrown) s.now)
              s.deliveries
              (λ d. failed-RowOk sub_of max_of c r delay (error_message thrown) s.now d k) v.rows;
        subs = v.subs;
        key =
            update-HasKey _ (failed_row outcome (error_message thrown) s.now) s.deliveries
              (λ d. refl) v.key;
      }

  pub release-Budgeted :
      (ts : List ClaimToken) (delay : ℕ) (s : Store)
      → Budgeted sub_of max_of s
      → Budgeted sub_of max_of (release_claims ts delay s).1
  unfolding release_claims released
  release-Budgeted ts delay s v = record {
    rows =
        update-All (RowOk sub_of max_of) _ (released (s.now + delay)) s.deliveries
          (λ d h. released-RowOk sub_of max_of (s.now + delay) d) v.rows;
    subs = v.subs;
    key = update-HasKey _ (released (s.now + delay)) s.deliveries (λ d. refl) v.key;
  }

  pub replay-Budgeted :
      (id : ℕ) (s : Store)
      → Budgeted sub_of max_of s
      → Budgeted sub_of max_of (replay_delivery id s).1
  unfolding replay_delivery replayed
  replay-Budgeted id s v = record {
    rows =
        update-All (RowOk sub_of max_of) _ (replayed s.now) s.deliveries
          (λ d h. replayed-RowOk sub_of max_of s.now d) v.rows;
    subs = v.subs;
    key = update-HasKey _ (replayed s.now) s.deliveries (λ d. refl) v.key;
  }

  pub requeue-Budgeted :
      (stale_ms : ℕ) (s : Store)
      → Budgeted sub_of max_of s
      → Budgeted sub_of max_of (requeue_stale_deliveries stale_ms s).1
  unfolding requeue_stale_deliveries requeued
  requeue-Budgeted stale_ms s v = record {
    rows =
        update-All (RowOk sub_of max_of) _ (requeued s) s.deliveries
          (λ d. requeued-RowOk sub_of max_of stale_ms s d v.subs) v.rows;
    subs = v.subs;
    key = update-HasKey _ (requeued s) s.deliveries (λ d. refl) v.key;
  }

  pub claim-Budgeted :
      (batch : ℕ) (opts : ClaimOptions) (locked : ℕ → Bool) (s : Store)
      → Budgeted sub_of max_of s
      → Budgeted sub_of max_of (claim_transaction batch opts locked s).1
  unfolding claim_transaction claimed
  claim-Budgeted batch opts locked s v = record {
    rows =
        update-All-In (RowOk sub_of max_of) _ (claimed opts.claimed_by s.now) s.deliveries
          (λ d m h. claimed-RowOk sub_of max_of opts.claimed_by s.now d (
            claim-due sub_of max_of batch opts locked s d
              (is_in-due batch opts locked s d v.key m h)))
          v.rows;
    subs = v.subs;
    key = update-HasKey _ (claimed opts.claimed_by s.now) s.deliveries (λ d. refl) v.key;
  }

  row-ClaimOk :
      (by : ℕ) (d : Delivery) (e : Option Event) (o : Option Subscription)
      → RowOk sub_of max_of d
      → ((s : Subscription) → o ≡ some s → s.max_attempts ≡ max_of d.subscription_id)
      → All (ClaimOk sub_of max_of) (returned_row by d e o)
  unfolding returned_row
  row-ClaimOk by d none o v m = tt
  row-ClaimOk by d (some e) none v m = tt
  row-ClaimOk by d (some e) (some s) v m = (record { of_sub = v.of_sub; max = m s refl }, tt)

  pub rows-ClaimOk :
      (by : ℕ) (s : Store) (ds : List Delivery)
      → All (SubOk sub_of max_of) s.subscriptions
      → All (RowOk sub_of max_of) ds
      → All (ClaimOk sub_of max_of) (returned_rows by s ds)
  unfolding returned_rows
  rows-ClaimOk by s [] subs h = tt
  rows-ClaimOk by s (d ∷ ds) subs h =
      All-append (ClaimOk sub_of max_of) (returned_row by d _ _) (returned_rows by s ds)
        (row-ClaimOk by d _ _ h.0
          (λ sub e. sub-max sub_of max_of s.subscriptions d.subscription_id sub subs e))
        (rows-ClaimOk by s ds subs h.1)
