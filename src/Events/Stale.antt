-- ===== src/Events/Stale.antt =====
-- requeueStaleDeliveries of src/lib/events.ts: no delivery stays with a consumer that died.
use alchemist_template.Common.{
  ℕ, ◌+◌, ◌≡◌, refl, ap, ◌∙◌, inl, inr, Bool, false, not, some, List, [], ◌∷◌, arith, leb,
  if◌then◌else◌, Bool-cases, length, get_elem?, filter, any, update-kept, update-hit, update-clears,
}
use alchemist_template.Events.Store.{failed, dead}
use alchemist_template.Events.Store.{Store, Delivery, Subscription, subscription_of}
use alchemist_template.Events.Finish.{
  requeue_stale_deliveries, is_stale, stale_message, requeued, max_attempts_of,
}

split_length :
    {A : Type 0} (p : A → Bool) (xs : List A)
    → length (filter p xs) + length (filter (λ x. not (p x)) xs) ≡ length xs
split_length p [] = refl
split_length p (x ∷ xs) = ground (arith, split_length p xs)

-- For a row of the table whose subscription exists: where its claim was held for longer than the
-- limit, it is taken back, due now, and failed or dead as its attempts leave one or not; otherwise
-- the row stays. Afterwards no such claim is left. The count that is returned and the number of rows
-- without such a claim make up the number of rows of the table.
pub stale_requeued :
    (stale_ms : ℕ) (s : Store) (i : ℕ) (d : Delivery) (sub : Subscription)
    → get_elem? s.deliveries i ≡ some d
    → subscription_of s.subscriptions d.subscription_id ≡ some sub
    → (get_elem? (requeue_stale_deliveries stale_ms s).1.deliveries i
        ≡ some (
            if is_stale stale_ms s d
            then record d {
              status = if leb sub.max_attempts d.attempts then dead else failed;
              last_error = some stale_message;
              next_attempt_at = s.now;
            }
            else d))
      × (any (is_stale stale_ms s) (requeue_stale_deliveries stale_ms s).1.deliveries ≡ false)
      × ((requeue_stale_deliveries stale_ms s).0
            + length (filter (λ d. not (is_stale stale_ms s d)) s.deliveries)
          ≡ length s.deliveries)
unfolding requeue_stale_deliveries
stale_requeued stale_ms s i d sub at of = (
  elim (Bool-cases (is_stale stale_ms s d)) [
    | inr out ↦ update-kept (is_stale stale_ms s) (requeued s) s.deliveries i at out ∙ rw out
    | inl hit ↦
        update-hit (is_stale stale_ms s) (requeued s) s.deliveries i at hit
        ∙ ap some (unfold requeued max_attempts_of in rw (of, hit))
  ],
  update-clears (is_stale stale_ms s) (requeued s) s.deliveries
      (λ d h. unfold is_stale requeued in ground arith),
  split_length (is_stale stale_ms s) s.deliveries,
)
