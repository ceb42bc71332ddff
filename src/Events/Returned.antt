-- ===== src/Events/Returned.antt =====
-- The rows that the claim transaction of src/lib/events.ts returns, against those it updates.
use alchemist_template.Common.{
  ℕ, ◌+◌, ◌≡◌, refl, ap, subst, inl, inr, Bool, true, Option, none, some, List, [], ◌∷◌, arith,
}
use alchemist_template.Common.Members.{In, In-append, append-In-left, append-In-right}
use alchemist_template.Events.Store.{
  Delivery, Store, ClaimToken, Event, ClaimedDelivery, event_of, Subscription, subscription_of,
}
use alchemist_template.Events.Claim.{
  returned_row, returned_rows, is_due, joined, ClaimOptions, returned_of,
}

abbrev pub token_of : ℕ → Delivery → ClaimToken
token_of by d = record { id = d.id; claimed_by = by; attempts = d.attempts + 1 }

returned-token :
    (by : ℕ) (d : Delivery) (e : Option Event) (o : Option Subscription) (c : ClaimedDelivery)
    → In c (returned_row by d e o)
    → c.token ≡ token_of by d
unfolding returned_row
returned-token by d none o c m = absurd m
returned-token by d (some e) none c m = absurd m
returned-token by d (some e) (some s) c (inl q) = ap (λ (x : ClaimedDelivery). x.token) q
returned-token by d (some e) (some s) c (inr m) = absurd m

-- Each row that RETURNING gives carries the token of a row of the update.
pub returned-from :
    (by : ℕ) (s : Store) (ds : List Delivery) (c : ClaimedDelivery)
    → In c (returned_rows by s ds)
    → (d : Delivery) × In d ds × (c.token ≡ token_of by d)
unfolding returned_rows
returned-from by s [] c m = absurd m
returned-from by s (d ∷ ds) c m =
    elim (In-append c (returned_of by s d) (returned_rows by s ds) m) [
      | inl q ↦ (
        d,
        inl refl,
        returned-token by d (event_of s.events d.event_id)
            (subscription_of s.subscriptions d.subscription_id) c q,
      )
      | inr q ↦ let (e, at, t) = returned-from by s ds c q in (e, inr at, t)
    ]

row-returned :
    (opts : ClaimOptions) (by : ℕ) (d : Delivery) (e : Option Event) (o : Option Subscription)
    → joined opts e o ≡ true
    → (c : ClaimedDelivery) × In c (returned_row by d e o) × (c.token ≡ token_of by d)
unfolding returned_row joined
row-returned opts by d none o h = absurd (cc)
row-returned opts by d (some e) none h = absurd (cc)
row-returned opts by d (some e) (some s) h = (_, inl refl, refl)

of-returned :
    (opts : ClaimOptions) (locked : ℕ → Bool) (by : ℕ) (s : Store) (d : Delivery)
    → is_due opts locked s d ≡ true
    → (c : ClaimedDelivery) × In c (returned_of by s d) × (c.token ≡ token_of by d)
unfolding returned_of is_due
of-returned opts locked by s d h =
    row-returned opts by d (event_of s.events d.event_id)
      (subscription_of s.subscriptions d.subscription_id) (ground arith)

-- Each due row of the update is among those that RETURNING gives.
pub due-returned :
    (opts : ClaimOptions) (locked : ℕ → Bool) (by : ℕ) (s : Store) (d : Delivery)
    (ds : List Delivery)
    → In d ds
    → is_due opts locked s d ≡ true
    → (c : ClaimedDelivery) × In c (returned_rows by s ds) × (c.token ≡ token_of by d)
unfolding returned_rows
due-returned opts locked by s d [] m h = absurd m
due-returned opts locked by s d (x ∷ xs) (inl e) h =
    let (c, at, t) = of-returned opts locked by s d h in
    (
      c,
      append-In-left c (returned_of by s x) (returned_rows by s xs)
          (subst (λ (y : Delivery). In c (returned_of by s y)) e at),
      t,
    )
due-returned opts locked by s d (x ∷ xs) (inr m) h =
    let (c, at, t) = due-returned opts locked by s d xs m h in
    (c, append-In-right c (returned_of by s x) (returned_rows by s xs) at, t)
