-- ===== src/Events/Timeout.antt =====
-- A claim of src/lib/events.ts whose caller timed out orphans no delivery.
use alchemist_template.Common.{
  ℕ, ◌+◌, ◌≡◌, ap, ◌∙◌, ◌⊎◌, inl, inr, Bool, true, false, none, some, List, map, arith, Bool-cases,
  get_elem?, update-kept, update-hit,
}
use alchemist_template.Common.Members.{
  In, In-filter, any-In, In-any, get-In, filter-In, In-map, map-In,
}
use alchemist_template.Events.Rows.{owns-id}
use alchemist_template.Events.Returned.{returned-from, due-returned}
use alchemist_template.Events.Finish.{released, owned_by_any, release_claims}
use alchemist_template.Events.Picks.{HasKey, is_in-due, same-row}
use alchemist_template.Events.Store.{Store, ClaimToken, Delivery, ClaimedDelivery, owns, pending}
use alchemist_template.Events.Claim.{
  ClaimOptions, claim_transaction, claimed, is_in, picked, claim_deliveries, after_check, is_due,
}

module _ (batch : ℕ) (opts : ClaimOptions) (locked : ℕ → Bool) (s : Store) where
  tokens : List ClaimToken
  tokens = map (λ (c : ClaimedDelivery). c.token) (claim_transaction batch opts locked s).0

  -- A row that was picked is owned, once claimed, by a token that the release is given.
  picked-owned :
      (d : Delivery)
      → HasKey s.deliveries
      → In d s.deliveries
      → is_in (picked batch opts locked s) d ≡ true
      → owned_by_any tokens (claimed opts.claimed_by s.now d) ≡ true
  unfolding tokens claim_transaction claimed
  picked-owned d k m hit =
      let due = is_in-due batch opts locked s d k m hit in
      let (c, at, t) =
        due-returned opts locked opts.claimed_by s d _
          (filter-In (is_in (picked batch opts locked s)) d s.deliveries m hit) due in
      In-any (λ x. owns x (claimed opts.claimed_by s.now d)) c.token tokens
        (map-In (λ (x : ClaimedDelivery). x.token) c _ at) (rw t (unfold owns in ground arith))

  -- A row that was not picked is owned by none of them.
  other-not-owned :
      (d : Delivery)
      → HasKey s.deliveries
      → In d s.deliveries
      → is_in (picked batch opts locked s) d ≡ false
      → owned_by_any tokens d ≡ false
  unfolding tokens claim_transaction
  other-not-owned d k m out = elim (Bool-cases (owned_by_any tokens d)) [
    | inr free ↦ free
    | inl held ↦
        let (t, at, own) = any-In (λ x. owns x d) tokens held in
        let (c, from, e) = In-map (λ (x : ClaimedDelivery). x.token) t _ at in
        let (q, mq, eq) = returned-from opts.claimed_by s _ c from in
        let (inq, hit) = In-filter (is_in (picked batch opts locked s)) q s.deliveries mq in
        let id : d.id ≡ q.id = owns-id t d own ∙ ap (λ (x : ClaimToken). x.id) (e ∙ eq) in
        let same : d ≡ q = same-row q d s.deliveries k inq m id in cc (same, out, hit)
  ]

  release-claimed :
      (by : ℕ) (d : Delivery)
      → released (s.now + 0) (claimed by s.now d) ≡ record d {
        status = pending;
        claimed_by = none;
        claimed_at = none;
        next_attempt_at = s.now;
      }
  unfolding released claimed
  release-claimed by d = ground arith

  -- A claim that commits after its caller timed out gives its rows straight back: each row of the
  -- table is as it was, or was due and is pending again, unclaimed and due now, with its attempts as
  -- they were.
  pub late_claim_released :
      HasKey s.deliveries
      → (i : ℕ) (d : Delivery) → get_elem? s.deliveries i ≡ some d
      → (get_elem? (claim_deliveries after_check true batch opts locked s).1.deliveries i ≡ some d)
        ⊎ ((is_due opts locked s d ≡ true)
            × (get_elem? (claim_deliveries after_check true batch opts locked s).1.deliveries i
                ≡ some (record d {
                  status = pending;
                  claimed_by = none;
                  claimed_at = none;
                  next_attempt_at = s.now;
                })))
  unfolding claim_deliveries claim_transaction release_claims tokens
  late_claim_released k i d at =
      let by = opts.claimed_by in
      let rows = picked batch opts locked s in
      let m = get-In s.deliveries i at in
      elim (Bool-cases (is_in rows d)) [
        | inr out ↦ inl (
            update-kept (owned_by_any tokens) (released (s.now + 0)) _ i
              (update-kept (is_in rows) (claimed by s.now) s.deliveries i at out)
              (other-not-owned d k m out))
        | inl hit ↦ inr (
          is_in-due batch opts locked s d k m hit,
          update-hit (owned_by_any tokens) (released (s.now + 0)) _ i
                (update-hit (is_in rows) (claimed by s.now) s.deliveries i at hit)
                (picked-owned d k m hit)
              ∙ ap some (release-claimed by d),
        )
      ]
