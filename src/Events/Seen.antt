-- ===== src/Events/Seen.antt =====
-- What the boot sync may do to a subscription: it deactivates a handler only if no pod has declared
-- it within the grace window, and activates what this pod declares.
use alchemist_template.Common.{
  ℕ, zero, suc, ◌+◌, ◌<◌, ◌≡◌, refl, sym, ◌∙◌, subst, ◌⊎◌, inl, inr, true, false, ◌&&◌, Option,
  none, some, List, [], ◌∷◌, arith, Bool-cases, is_none, get_elem?, any, Text, eq_text,
  eq_text_self, update-kept, update-hit,
}
use alchemist_template.Common.Members.{In, In-any}
use alchemist_template.Events.Store.{Subscription, Store, handler, Kind, webhook}
use alchemist_template.Events.Topic.{RegisteredHandler}
use alchemist_template.Events.Sync.{
  refreshed, upsert_subscription, upsert_all, is_global_for, sync_subscriptions, is_handler_kind,
  is_abandoned, deactivated,
}

-- A row after the upserts of a boot: as it was, or seen now.
pub record Touched (now : ℕ) (s t : Subscription) : Type 0 where
  pub same_id : t.id ≡ s.id
  pub same_organization : t.organization_id ≡ s.organization_id
  pub same_topic : t.topic ≡ s.topic
  pub same_handler : t.handler ≡ s.handler
  pub same_kind : t.kind ≡ s.kind
  pub seen :
      ((t.active ≡ s.active) × (t.updated_at ≡ s.updated_at))
      ⊎ ((t.active ≡ true) × (t.updated_at ≡ now))

refreshed-Touched :
    (now : ℕ) (h : RegisteredHandler) (s t : Subscription)
    → Touched now s t
    → Touched now s (refreshed now h t)
unfolding refreshed
refreshed-Touched now h s t r = record {
  same_id = r.same_id;
  same_organization = r.same_organization;
  same_topic = r.same_topic;
  same_handler = r.same_handler;
  same_kind = r.same_kind;
  seen = inr (refl, refl);
}

upsert-Touched :
    (new_id : RegisteredHandler → ℕ) (now : ℕ) (h : RegisteredHandler) (ss : List Subscription)
    (i : ℕ) (s t : Subscription)
    → get_elem? ss i ≡ some t
    → Touched now s t
    → (u : Subscription) × (get_elem? (upsert_subscription new_id now h ss) i ≡ some u)
      × Touched now s u
unfolding upsert_subscription
upsert-Touched new_id now h [] i s t at r = absurd (cc)
upsert-Touched new_id now h (x ∷ ss) zero s t at r = elim (Bool-cases (is_global_for h x)) [
  | inl e ↦
      let same : t ≡ x = ground arith in
      (
        refreshed now h x,
        rw e refl,
        refreshed-Touched now h s x (subst (λ y. Touched now s y) same r),
      )
  | inr e ↦ (t, rw e at, r)
]
upsert-Touched new_id now h (x ∷ ss) (suc i) s t at r = elim (Bool-cases (is_global_for h x)) [
  | inl e ↦ (t, rw e at, r)
  | inr e ↦ let (u, v, q) = upsert-Touched new_id now h ss i s t at r in (u, rw e v, q)
]

upsert_all-Touched :
    (new_id : RegisteredHandler → ℕ) (now : ℕ) (hs : List RegisteredHandler)
    (ss : List Subscription) (i : ℕ) (s t : Subscription)
    → get_elem? ss i ≡ some t
    → Touched now s t
    → (u : Subscription) × (get_elem? (upsert_all new_id now hs ss) i ≡ some u) × Touched now s u
unfolding upsert_all
upsert_all-Touched new_id now [] ss i s t at r = (t, at, r)
upsert_all-Touched new_id now (h ∷ hs) ss i s t at r =
    let (u, v, q) = upsert-Touched new_id now h ss i s t at r in
    upsert_all-Touched new_id now hs (upsert_subscription new_id now h ss) i s u v q

untouched : (now : ℕ) (s : Subscription) → Touched now s s
untouched now s = record {
  same_id = refl;
  same_organization = refl;
  same_topic = refl;
  same_handler = refl;
  same_kind = refl;
  seen = inl (refl, refl);
}

-- A row that was active stays so where it is touched.
still_on :
    {P : Type 0} (now : ℕ) (s t : Subscription)
    → Touched now s t
    → (t.active ≡ true) ⊎ ((s.active ≡ false) ⊎ P)
still_on now s t r = elim r.seen [
  | inr (on, at) ↦ inl on
  | inl (same, at) ↦ elim (Bool-cases s.active) [
    | inl on ↦ inl (same ∙ on)
    | inr off ↦ inr (inl off)
  ]
]

handler_kind : (k : Kind) → is_handler_kind k ≡ true → k ≡ handler
unfolding is_handler_kind
handler_kind handler h = refl
handler_kind webhook h = cc

none_of : (o : Option ℕ) → is_none o ≡ true → o ≡ none
none_of none h = refl
none_of (some a) h = cc

-- What the clause of the deactivation says of a row.
abandoned_means :
    (registry : List RegisteredHandler) (grace_ms now : ℕ) (t : Subscription)
    → is_abandoned registry grace_ms now t ≡ true
    → (t.organization_id ≡ none)
      × (t.kind ≡ handler)
      × (t.updated_at + grace_ms < now)
      × (any (λ h. eq_text t.topic h.topic && eq_text t.handler h.name) registry ≡ false)
unfolding is_abandoned
abandoned_means registry grace_ms now t h = (
  none_of t.organization_id (ground arith),
  handler_kind t.kind (ground arith),
  ground arith,
  ground arith,
)

not_registered :
    (registry : List RegisteredHandler) (topic name : Text)
    → any (λ h. eq_text topic h.topic && eq_text name h.name) registry ≡ false
    → (h : RegisteredHandler) → In h registry
    → ¬ ((h.topic ≡ topic) × (h.name ≡ name))
not_registered registry topic name out h m (a, b) =
    let hit : (eq_text topic h.topic && eq_text name h.name) ≡ true =
      rw (a, b, eq_text_self topic, eq_text_self name) refl in
    absurd (cc (In-any (λ h. eq_text topic h.topic && eq_text name h.name) h registry m hit, out))

-- A row that was seen now is not old.
seen_before :
    (now grace_ms : ℕ) (s t : Subscription)
    → Touched now s t
    → t.updated_at + grace_ms < now
    → s.updated_at + grace_ms < now
seen_before now grace_ms s t r old = elim r.seen [
  | inl (a, b) ↦ omega (arith, b, old)
  | inr (a, b) ↦ absurd (omega (arith, b, old))
]

-- Each row of the table is still there after the sync, with its id, organization, topic, handler and
-- kind. It is active, or it was not active before, or it is a global handler row that no pod has
-- declared within the grace window and that this registry does not hold.
pub sync_deactivates :
    (new_id : RegisteredHandler → ℕ) (grace_ms : ℕ) (registry : List RegisteredHandler) (st : Store)
    (i : ℕ) (s : Subscription)
    → get_elem? st.subscriptions i ≡ some s
    → (u : Subscription) × (get_elem?
          (sync_subscriptions new_id grace_ms registry st).1.subscriptions
          i
        ≡ some u)
      × (u.id ≡ s.id)
      × (u.organization_id ≡ s.organization_id)
      × (u.topic ≡ s.topic)
      × (u.handler ≡ s.handler)
      × (u.kind ≡ s.kind)
      × ((u.active ≡ true)
          ⊎ (s.active ≡ false)
          ⊎ ((s.organization_id ≡ none)
              × (s.kind ≡ handler)
              × (s.updated_at + grace_ms < st.now)
              × ((h : RegisteredHandler)
                  → In h registry
                  → ¬ ((h.topic ≡ s.topic) × (h.name ≡ s.handler)))))
unfolding sync_subscriptions deactivated
sync_deactivates new_id grace_ms registry st i s at =
    let (t, there, r) =
      upsert_all-Touched new_id st.now registry st.subscriptions i s s at (untouched st.now s) in
    elim (Bool-cases (is_abandoned registry grace_ms st.now t)) [
      | inr stays ↦ (
        t,
        update-kept _ _ _ i there stays,
        r.same_id,
        r.same_organization,
        r.same_topic,
        r.same_handler,
        r.same_kind,
        still_on st.now s t r,
      )
      | inl gone ↦
          let (global, code, old, out) = abandoned_means registry grace_ms st.now t gone in
          (
            deactivated st.now t,
            update-hit _ _ _ i there gone,
            r.same_id,
            r.same_organization,
            r.same_topic,
            r.same_handler,
            r.same_kind,
            inr (
                inr (
                  sym r.same_organization ∙ global,
                  sym r.same_kind ∙ code,
                  seen_before st.now grace_ms s t r old,
                  rw (← r.same_topic, ← r.same_handler)
                      (not_registered registry t.topic t.handler out),
                )),
          )
    ]
