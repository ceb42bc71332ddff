-- ===== src/Events/Fanout.antt =====
-- publishEvent of src/lib/events.ts: one delivery for each subscription that hears the event, once.
use alchemist_template.Common.{
  ℕ, ◌≡◌, refl, sym, ◌∙◌, ◌⊎◌, inl, inr, true, false, Option, none, some, List, ◌++◌, map, arith,
  length, filter, length-map, eq_text_self, eq_text_iff, Keyed, map-Keyed, ok,
}
use alchemist_template.Common.Members.{In, In-filter, filter-In, In-map, map-In}
use alchemist_template.Common.Pick.{filter-Keyed}
use alchemist_template.Events.Store.{event_of, Store, Subscription, Delivery, pending}
use alchemist_template.Events.Publish.{
  publish_event, assert_plain_object, insert_event, PublishInput, new_event, PublishResult,
  new_delivery, hears, hears_organization,
}

publish_cases :
    (uuid : ℕ) (delivery_id : ℕ → ℕ) (input : PublishInput) (s after : Store) (r : PublishResult)
    → publish_event uuid delivery_id input s ≡ ok (r, after)
    → ((r.inserted ≡ true)
        × (event_of s.events r.id ≡ none)
        × (after.deliveries
            ≡ s.deliveries
              ++ map
                  (new_delivery delivery_id r.id s.now)
                  (filter (hears input.topic input.organization_id) s.subscriptions))
        × (r.deliveries
            ≡ length (filter (hears input.topic input.organization_id) s.subscriptions)))
      ⊎ ((r.inserted ≡ false) × (r.deliveries ≡ 0) × (after ≡ s))
unfolding publish_event assert_plain_object insert_event
publish_cases uuid delivery_id input s after r h = ground arith

-- The subscription is active, of the topic, and global or of the event's organisation.
abbrev pub Listens : PublishInput → Subscription → Type 0
Listens input s =
    (s.active ≡ true)
    × (s.topic ≡ input.topic)
    × ((s.organization_id ≡ none)
        ⊎ ((org : ℕ) × (input.organization_id ≡ some org) × (s.organization_id ≡ some org)))

-- A delivery of the event that no consumer has seen.
abbrev pub IsUntried : ℕ → ℕ → Delivery → Type 0
IsUntried event_id now d =
    (d.event_id ≡ event_id)
    × (d.status ≡ pending)
    × (d.attempts ≡ 0)
    × (d.next_attempt_at ≡ now)
    × (d.claimed_by ≡ none)

organization-Listens :
    (org sub : Option ℕ)
    → hears_organization org sub ≡ true
    → (sub ≡ none) ⊎ ((o : ℕ) × (org ≡ some o) × (sub ≡ some o))
unfolding hears_organization
organization-Listens none none h = inl refl
organization-Listens none (some s) h = absurd (cc)
organization-Listens (some o) none h = inl refl
organization-Listens (some o) (some s) h = inr (o, refl, ground arith)

hears-Listens :
    (input : PublishInput) (s : Subscription)
    → hears input.topic input.organization_id s ≡ true
    → Listens input s
unfolding hears
hears-Listens input s h = (
  ground arith,
  (eq_text_iff s.topic input.topic).0 (ground arith),
  organization-Listens input.organization_id s.organization_id (ground arith),
)

Listens-organization :
    (org sub : Option ℕ)
    → (sub ≡ none) ⊎ ((o : ℕ) × (org ≡ some o) × (sub ≡ some o))
    → hears_organization org sub ≡ true
unfolding hears_organization
Listens-organization none sub (inl e) = rw e refl
Listens-organization (some o) sub (inl e) = rw e refl
Listens-organization org sub (inr (o, e, q)) = rw (e, q) (ground arith)

Listens-hears :
    (input : PublishInput) (s : Subscription)
    → Listens input s
    → hears input.topic input.organization_id s ≡ true
unfolding hears
Listens-hears input s (on, topic, org) =
    rw
      (
        on,
        topic,
        eq_text_self input.topic,
        Listens-organization input.organization_id s.organization_id org,
      )
      refl

-- What a publish that inserts its event adds.
abbrev pub IsFanout : PublishInput → ℕ → Store → List Delivery → Type 0
IsFanout input event_id s added =
    ((d : Delivery)
      → In d added
      → IsUntried event_id s.now d
        × ((sub : Subscription) × In sub s.subscriptions
            × Listens input sub
            × (d.subscription_id ≡ sub.id)))
    × ((sub : Subscription)
        → In sub s.subscriptions
        → Listens input sub
        → (d : Delivery) × In d added × (d.subscription_id ≡ sub.id))
    × (Keyed (λ (sub : Subscription). sub.id) s.subscriptions
        → Keyed (λ (d : Delivery). d.subscription_id) added)

fanned :
    (delivery_id : ℕ → ℕ) (input : PublishInput) (event_id : ℕ) (s : Store)
    → IsFanout input event_id s (
        map
          (new_delivery delivery_id event_id s.now)
          (filter (hears input.topic input.organization_id) s.subscriptions))
unfolding new_delivery
fanned delivery_id input event_id s =
    let p = hears input.topic input.organization_id in
    let make = new_delivery delivery_id event_id s.now in
    (
      λ d m.
          let (sub, ms, e) = In-map make d (filter p s.subscriptions) m in
          let (mt, heard) = In-filter p sub s.subscriptions ms in
          (
            rw e (refl, refl, refl, refl, refl),
            (sub, mt, hears-Listens input sub heard, rw e refl),
          ),
      λ sub m listens. (
        make sub,
        map-In make sub (filter p s.subscriptions)
            (filter-In p sub s.subscriptions m (Listens-hears input sub listens)),
        refl,
      ),
      λ k.
          map-Keyed make (λ (d : Delivery). d.subscription_id) (λ sub. refl)
            (filter p s.subscriptions)
            (filter-Keyed (λ (sub : Subscription). sub.id) p s.subscriptions k),
    )

-- A publish that inserts its event, whose id was not taken, keeps the deliveries and adds some, whose
-- number it reports. Each of them is pending, due now, with no attempt and no claimer, of this event
-- and of a subscription that is active, of its topic, and global or of its organisation; and each
-- such subscription gets one, and no second one where subscription ids are unique. A publish under
-- an id that is taken reports that it inserted nothing, and changes nothing.
pub publish_fans_out :
    (uuid : ℕ) (delivery_id : ℕ → ℕ) (input : PublishInput) (s after : Store) (r : PublishResult)
    → publish_event uuid delivery_id input s ≡ ok (r, after)
    → ((r.inserted ≡ true)
        × (event_of s.events r.id ≡ none)
        × ((added : List Delivery) × (after.deliveries ≡ s.deliveries ++ added)
            × (r.deliveries ≡ length added)
            × IsFanout input r.id s added))
      ⊎ ((r.inserted ≡ false) × (r.deliveries ≡ 0) × (after ≡ s))
publish_fans_out uuid delivery_id input s after r h =
    elim (publish_cases uuid delivery_id input s after r h) [
      | inr same ↦ inr same
      | inl (inserted, free, rows, count) ↦ inl (
        inserted,
        free,
        (
          map (new_delivery delivery_id r.id s.now)
              (filter (hears input.topic input.organization_id) s.subscriptions),
          rows,
          count
              ∙ sym
                  (length-map _ (filter (hears input.topic input.organization_id) s.subscriptions)),
          fanned delivery_id input r.id s,
        ),
      )
    ]

-- Publishing once more under the id that was given is idempotent: the second call says that it
-- inserted nothing, and leaves every table.
pub publish_replay :
    (uuid uuid' i : ℕ) (delivery_id delivery_id' : ℕ → ℕ) (input : PublishInput) (s after : Store)
    (r : PublishResult)
    → input.id ≡ some i
    → publish_event uuid delivery_id input s ≡ ok (r, after)
    → publish_event uuid' delivery_id' input after
      ≡ ok (record { id = i; topic = input.topic; deliveries = 0; inserted = false }, after)
unfolding publish_event assert_plain_object insert_event event_of new_event
publish_replay uuid uuid' i delivery_id delivery_id' input s after r e h = ground arith
