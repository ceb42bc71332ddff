-- ===== src/Events/Fence.antt =====
-- The fence of the status writes: a write made under a claim token reaches only the row that the
-- token still owns.
use alchemist_template.Common.{
  ℕ, ◌+◌, ◌≡◌, ◌∙◌, ◌≢◌, false, Option, some, [], ◌∷◌, arith, get_elem?, Text, update-kept,
}
use alchemist_template.Events.Store.{Delivery, Store, ClaimToken, owns}
use alchemist_template.Events.Finish.{
  Thrown, Random, fail_outcome, error_message, complete_delivery, fail_delivery, release_claims,
  finished, failed_row, released, owned_by_any,
}

-- A row that another consumer claimed is not the token's.
foreign-not-owned :
    (t : ClaimToken) (d : Delivery) (by : ℕ)
    → d.claimed_by ≡ some by
    → by ≢ t.claimed_by
    → owns t d ≡ false
unfolding owns
foreign-not-owned t d by e h = ground arith

any-one : (t : ClaimToken) (d : Delivery) → owned_by_any (t ∷ []) d ≡ owns t d
any-one t d = ground arith

-- While a delivery is claimed by another consumer, a completion, a failure or a release that is
-- written late under an older claim leaves its row as it is, whatever token the older claim holds.
pub late_write_fenced :
    (s : Store) (i : ℕ) (d : Delivery) (by : ℕ) (t : ClaimToken)
    → get_elem? s.deliveries i ≡ some d
    → d.claimed_by ≡ some by
    → by ≢ t.claimed_by
    → ((subscription_id event_id : ℕ) (key : Option Text)
        → get_elem? (complete_delivery t subscription_id event_id key s).1.deliveries i ≡ some d)
      × ((m : ℕ) (thrown : Thrown) (r : Random) (delay : ℕ)
          → get_elem? (fail_delivery t m thrown r delay s).1.deliveries i ≡ some d)
      × ((delay : ℕ) → get_elem? (release_claims (t ∷ []) delay s).1.deliveries i ≡ some d)
unfolding complete_delivery fail_delivery release_claims
late_write_fenced s i d by t at claim ne =
    let free = foreign-not-owned t d by claim ne in
    (
      λ subscription_id event_id key. update-kept (owns t) (finished s.now) s.deliveries i at free,
      λ m thrown r delay.
          update-kept (owns t) (failed_row (fail_outcome t m r delay) (error_message thrown) s.now)
            s.deliveries i at free,
      λ delay.
          update-kept (owned_by_any (t ∷ [])) (released (s.now + delay)) s.deliveries i at
            (any-one t d ∙ free),
    )
