-- ===== src/Events/Kept.antt =====
-- What the retention sweep holds back, and what it clears.
use alchemist_template.Common.{
  ℕ, ◌*◌, ◌≤◌, ◌<◌, ◌≡◌, refl, ◌⊎◌, inl, inr, Bool, true, false, some, List, [], ◌∷◌, arith, ltb,
  ◌==◌, lt→ltb, Bool-cases, length, filter,
}
use alchemist_template.Common.Members.{In, In-filter, In-any, filter-In}
use alchemist_template.Events.Sweeps.{sweep-keeps, sweep-all}
use alchemist_template.Events.Retention.{
  is_unfinished, is_done, is_expired_delivery, sweep_events, cascade, sweep_deliveries, has_event,
  RetentionOptions, is_active, sweep_event_retention, is_expired_event, sweep_rounds, holds_event,
  sweep_batch, sweep_table,
}
use alchemist_template.Events.Store.{
  failed, done, dead, Store, Event, Delivery, Status, pending, running, subscription_of,
  Subscription,
}

unfinished_not_done : (t : Status) → is_unfinished t ≡ true → is_done t ≡ false
unfolding is_unfinished is_done
unfinished_not_done pending h = refl
unfinished_not_done running h = refl
unfinished_not_done failed h = refl
unfinished_not_done done h = cc
unfinished_not_done dead h = cc

module _ (s : Store) (e : Event) (d : Delivery) where
  not_expired :
      (opts : RetentionOptions)
      → is_unfinished d.status ≡ true
      → is_expired_delivery opts.done_deliveries_after_days s.now d ≡ false
  unfolding is_expired_delivery
  not_expired opts h = rw (unfinished_not_done d.status h) refl

  has_its_event : (es : List Event) → In e es → d.event_id ≡ e.id → has_event es d.event_id ≡ true
  unfolding has_event
  has_its_event es m at = In-any (λ e. e.id == d.event_id) e es m (ground arith)

  held :
      (days : ℕ)
      → In d s.deliveries
      → d.event_id ≡ e.id
      → is_unfinished d.status ≡ true
      → is_active (subscription_of s.subscriptions d.subscription_id) ≡ true
      → is_expired_event days s e ≡ false
  unfolding is_expired_event holds_event
  held days md at live on =
      let some_holds = In-any (holds_event s e.id) d s.deliveries md (ground arith) in ground arith

  cascade-keeps :
      (es : List Event) (ds : List Delivery) (t : Store)
      → In e es
      → In d ds
      → d.event_id ≡ e.id
      → In e (cascade es ds t).events × In d (cascade es ds t).deliveries
  unfolding cascade
  cascade-keeps es ds t me md at =
      (me, filter-In (λ d. has_event es d.event_id) d ds md (has_its_event es me at))

  deliveries-keep :
      (opts : RetentionOptions)
      → In e s.events
      → In d s.deliveries
      → d.event_id ≡ e.id
      → is_unfinished d.status ≡ true
      → (In e (sweep_deliveries opts s).1.events × In d (sweep_deliveries opts s).1.deliveries)
        × ((sweep_deliveries opts s).1.subscriptions ≡ s.subscriptions)
  unfolding sweep_deliveries
  deliveries-keep opts me md at live = elim (Bool-cases (ltb 0 opts.done_deliveries_after_days)) [
    | inr off ↦ rw off ((me, md), refl)
    | inl on ↦
        let kept =
          sweep-keeps (is_expired_delivery opts.done_deliveries_after_days s.now)
            (sweep_batch opts.batch) (sweep_rounds opts.max_batches) d s.deliveries md
            (not_expired opts live) in
        let both = cascade-keeps s.events _ s me kept at in rw on (both, refl)
  ]

  events-keep :
      (opts : RetentionOptions)
      → In e s.events
      → In d s.deliveries
      → d.event_id ≡ e.id
      → is_unfinished d.status ≡ true
      → is_active (subscription_of s.subscriptions d.subscription_id) ≡ true
      → In e (sweep_events opts s).1.events × In d (sweep_events opts s).1.deliveries
  unfolding sweep_events
  events-keep opts me md at live on = elim (Bool-cases (ltb 0 opts.events_after_days)) [
    | inr off ↦ rw off (me, md)
    | inl days ↦
        let kept =
          sweep-keeps (is_expired_event opts.events_after_days s) (sweep_batch opts.batch)
            (sweep_rounds opts.max_batches) e s.events me
            (held opts.events_after_days md at live on) in
        rw days (cascade-keeps _ s.deliveries s kept md at)
  ]

unfinished_of : (t : Status) → (t ≡ pending) ⊎ (t ≡ running) ⊎ (t ≡ failed) → is_unfinished t ≡ true
unfolding is_unfinished
unfinished_of t (inl e) = rw e refl
unfinished_of t (inr (inl e)) = rw e refl
unfinished_of t (inr (inr e)) = rw e refl

-- Unfinished work survives the sweep, whatever its options: where a delivery of an active
-- subscription is pending, running or failed, neither it nor its event is deleted.
pub sweep_holds :
    (opts : RetentionOptions) (s : Store) (e : Event) (d : Delivery) (sub : Subscription)
    → In e s.events
    → In d s.deliveries
    → d.event_id ≡ e.id
    → (d.status ≡ pending) ⊎ (d.status ≡ running) ⊎ (d.status ≡ failed)
    → subscription_of s.subscriptions d.subscription_id ≡ some sub
    → sub.active ≡ true
    → In e (sweep_event_retention opts s).1.events
      × In d (sweep_event_retention opts s).1.deliveries
unfolding sweep_event_retention is_active
sweep_holds opts s e d sub me md at live found on =
    let unfinished = unfinished_of d.status live in
    let ((me', md'), same) = deliveries-keep s e d opts me md at unfinished in
    let active : is_active (subscription_of s.subscriptions d.subscription_id) ≡ true =
      rw (found, on) refl in
    events-keep (sweep_deliveries opts s).1 e d opts me' md' at unfinished (rw same active)

no_member : {A : Type 0} (x : A) (xs : List A) → length xs ≡ 0 → ¬ In x xs
no_member x [] empty m = absurd m
no_member x (y ∷ ys) empty m = absurd (omega (arith, empty))

-- A table of which nothing passes has no row that passes.
none_passes :
    {A : Type 0} (p : A → Bool) (x : A) (xs : List A)
    → length (filter p xs) ≡ 0
    → In x xs
    → p x ≡ false
none_passes p x xs empty m = elim (Bool-cases (p x)) [
  | inr e ↦ e
  | inl e ↦ absurd (no_member x (filter p xs) empty (filter-In p x xs m e))
]

swept_deliveries :
    (opts : RetentionOptions) (s : Store) (d : Delivery)
    → 0 < opts.done_deliveries_after_days
    → In d (sweep_deliveries opts s).1.deliveries
    → In d
        (sweep_table
          (is_expired_delivery opts.done_deliveries_after_days s.now)
          (sweep_batch opts.batch)
          (sweep_rounds opts.max_batches)
          s.deliveries).1
unfolding sweep_deliveries cascade
swept_deliveries opts s d on m =
    let m' = rw (lt→ltb 0 opts.done_deliveries_after_days on) at m in (In-filter _ d _ m').0

events_only_delete :
    (opts : RetentionOptions) (s : Store) (d : Delivery)
    → In d (sweep_events opts s).1.deliveries
    → In d s.deliveries
unfolding sweep_events cascade
events_only_delete opts s d m = elim (Bool-cases (ltb 0 opts.events_after_days)) [
  | inl on ↦ (In-filter _ d _ (rw on at m)).0
  | inr off ↦ rw off at m
]

-- A sweep of the deliveries is complete where its batches cover the done deliveries past the
-- window: none of them is left after it.
pub sweep_complete :
    (opts : RetentionOptions) (s : Store)
    → 0 < opts.done_deliveries_after_days
    → length (filter (is_expired_delivery opts.done_deliveries_after_days s.now) s.deliveries)
      ≤ sweep_rounds opts.max_batches * sweep_batch opts.batch
    → (d : Delivery) → In d (sweep_event_retention opts s).1.deliveries
    → is_expired_delivery opts.done_deliveries_after_days s.now d ≡ false
unfolding sweep_event_retention
sweep_complete opts s on fits d m =
    let left =
      swept_deliveries opts s d on (events_only_delete opts (sweep_deliveries opts s).1 d m) in
    none_passes _ d _ (sweep-all _ _ _ s.deliveries fits).0 left
