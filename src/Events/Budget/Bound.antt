-- ===== src/Events/Budget/Bound.antt =====
-- The attempt budget over whole histories.
use alchemist_template.Common.{
  ℕ, ◌≡◌, sym, inl, inr, Bool, true, false, not, [], ◌∷◌, ◌++◌, map, arith, if◌then◌else◌,
  Bool-cases, is_none, or_else, filter, All, All-append, All-filter, All-map, Text, Result, ◌>>=◌,
  ok, err,
}
use alchemist_template.Common.Members.{In, All-In}
use alchemist_template.Events.Budget.Runs.{
  complete-Budgeted, claim-Budgeted, rows-ClaimOk, fail-Budgeted, release-Budgeted, replay-Budgeted,
  requeue-Budgeted,
}
use alchemist_template.Events.Claim.{
  claim_deliveries, ClaimTiming, ClaimOptions, in_time, before_start, during_update, after_check,
}
use alchemist_template.Events.Topic.{is_topic}
use alchemist_template.Events.Picks.{HasKey}
use alchemist_template.Events.Budget.{Budgeted, SubOk, ClaimOk, RowOk}
use alchemist_template.Events.Store.{Subscription, JsonValue, ClaimedDelivery, Store, event_of}
use alchemist_template.Events.History.{
  System, Allowed, Reach, publishes, step, published, next, Op, here, claims, reserves, completes,
  fails, releases, replays, requeues, waits,
}
use alchemist_template.Events.Reserve.{reserve_idempotency_key, take_over}
use alchemist_template.Events.Publish.{
  new_delivery, insert_event, PublishInput, PublishError, hears, publish_event, bad_topic,
}

module _ (sub_of max_of : ℕ → ℕ) where
  pub record Inv (sys : System) : Type 0 where
    pub store : Budgeted sub_of max_of sys.store
    pub claims : All (ClaimOk sub_of max_of) sys.handed

  new-RowOk :
      (delivery_id : ℕ → ℕ) (id now : ℕ)
      → ((i : ℕ) → sub_of (delivery_id i) ≡ i)
      → (s : Subscription) → SubOk sub_of max_of s
      → RowOk sub_of max_of (new_delivery delivery_id id now s)
  unfolding new_delivery
  new-RowOk delivery_id id now fresh s v = record {
    of_sub = sym (fresh s.id);
    allowed = ground (arith, v.max, v.positive);
    within = omega arith;
    left = λ h. ground (arith, v.max, v.positive);
  }

  insert-Budgeted :
      (delivery_id : ℕ → ℕ) (id : ℕ) (input : PublishInput) (payload : JsonValue) (s : Store)
      → ((i : ℕ) → sub_of (delivery_id i) ≡ i)
      → HasKey (
          s.deliveries
          ++ map
              (new_delivery delivery_id id s.now)
              (filter (hears input.topic input.organization_id) s.subscriptions))
      → Budgeted sub_of max_of s
      → Budgeted sub_of max_of (insert_event delivery_id id input payload s).1
  unfolding insert_event
  insert-Budgeted delivery_id id input payload s fresh key v =
      elim (Bool-cases (is_none (event_of s.events id))) [
        | inr old ↦ rw (old, insert_event) v
        | inl new ↦
            rw (new, insert_event)
              (record {
                rows = All-append (RowOk sub_of max_of) s.deliveries _ v.rows (
                    All-map (SubOk sub_of max_of) (RowOk sub_of max_of)
                      (new_delivery delivery_id id s.now) (new-RowOk delivery_id id s.now fresh) _
                      (All-filter (SubOk sub_of max_of) (hears input.topic input.organization_id)
                        s.subscriptions v.subs));
                subs = v.subs;
                key = key;
              })
      ]

  publish-Inv :
      (uuid : ℕ) (delivery_id : ℕ → ℕ) (input : PublishInput) (sys : System)
      → Allowed sub_of (publishes uuid delivery_id input) sys
      → Inv sys
      → (payload : Result PublishError JsonValue)
      → Inv (
          published sys (
            if not (is_topic input.topic)
            then err bad_topic
            else payload >>= λ p.
                ok (insert_event delivery_id (or_else input.id uuid) input p sys.store)))
  publish-Inv uuid delivery_id input sys (fresh, key) v payload =
      elim (Bool-cases (is_topic input.topic)) [
        | inr bad ↦ rw bad v
        | inl good ↦ rw good (go payload)
      ]
    where
      go :
          (payload : Result PublishError JsonValue)
          → Inv (
              published sys (
                payload >>= λ p.
                ok (insert_event delivery_id (or_else input.id uuid) input p sys.store)))
      go (err e) = v
      go (ok p) = record {
        store =
            insert-Budgeted delivery_id (or_else input.id uuid) input p sys.store fresh
              (key (or_else input.id uuid)) v.store;
        claims = v.claims;
      }

  reserve-rows :
      (c : ClaimedDelivery) (key : Text) (s : Store)
      → ((reserve_idempotency_key c key s).1.deliveries ≡ s.deliveries)
        × ((reserve_idempotency_key c key s).1.subscriptions ≡ s.subscriptions)
  unfolding reserve_idempotency_key take_over
  reserve-rows c key s = ground arith

  reserve-Budgeted :
      (c : ClaimedDelivery) (key : Text) (s : Store)
      → Budgeted sub_of max_of s
      → Budgeted sub_of max_of (reserve_idempotency_key c key s).1
  reserve-Budgeted c key s v =
      let (rows, subs) = reserve-rows c key s in
      record { rows = rw rows v.rows; subs = rw subs v.subs; key = rw rows v.key }

  claims-Inv :
      (timing : ClaimTiming) (commits : Bool) (batch : ℕ) (opts : ClaimOptions) (locked : ℕ → Bool)
      (sys : System)
      → Inv sys
      → Inv (step (claims timing commits batch opts locked) sys)
  unfolding step claim_deliveries
  claims-Inv in_time commits batch opts locked sys v = record {
    store = claim-Budgeted sub_of max_of batch opts locked sys.store v.store;
    claims =
        All-append (ClaimOk sub_of max_of) _ sys.handed
          (rows-ClaimOk sub_of max_of opts.claimed_by sys.store _ v.store.subs
            (All-filter (RowOk sub_of max_of) _ sys.store.deliveries v.store.rows))
          v.claims;
  }
  claims-Inv before_start commits batch opts locked sys v = v
  claims-Inv during_update commits batch opts locked sys v = v
  claims-Inv after_check true batch opts locked sys v = record {
    store =
        release-Budgeted sub_of max_of _ 0 _
          (claim-Budgeted sub_of max_of batch opts locked sys.store v.store);
    claims = v.claims;
  }
  claims-Inv after_check false batch opts locked sys v = record {
    store = claim-Budgeted sub_of max_of batch opts locked sys.store v.store;
    claims = v.claims;
  }

  of-handed :
      (c : ClaimedDelivery) (sys : System) → Inv sys → In c sys.handed → ClaimOk sub_of max_of c
  of-handed c sys v m = All-In (ClaimOk sub_of max_of) c sys.handed v.claims m

  step-Inv : (op : Op) (sys : System) → Allowed sub_of op sys → Inv sys → Inv (step op sys)
  unfolding step publish_event
  step-Inv (publishes uuid delivery_id input) sys a v = publish-Inv uuid delivery_id input sys a v _
  step-Inv (claims timing commits batch opts locked) sys a v =
      claims-Inv timing commits batch opts locked sys v
  step-Inv (reserves c key) sys a v = record {
    store = reserve-Budgeted c key sys.store v.store;
    claims = v.claims;
  }
  step-Inv (completes c key) sys a v = record {
    store = complete-Budgeted sub_of max_of c key sys.store v.store;
    claims = v.claims;
  }
  step-Inv (fails c thrown r delay) sys a v = record {
    store = fail-Budgeted sub_of max_of c thrown r delay sys.store (of-handed c sys v a) v.store;
    claims = v.claims;
  }
  step-Inv (releases c delay) sys a v = record {
    store = release-Budgeted sub_of max_of (c.token ∷ []) delay sys.store v.store;
    claims = v.claims;
  }
  step-Inv (replays id) sys a v = record {
    store = replay-Budgeted sub_of max_of id sys.store v.store;
    claims = v.claims;
  }
  step-Inv (requeues stale_ms) sys a v = record {
    store = requeue-Budgeted sub_of max_of stale_ms sys.store v.store;
    claims = v.claims;
  }
  step-Inv (waits ms) sys a v = record {
    store = record { rows = v.store.rows; subs = v.store.subs; key = v.store.key };
    claims = v.claims;
  }

  -- An invariant of the tables and of the claims that consumers were handed: each subscription
  -- allows at least one attempt; the attempts that a delivery counts are at most what its
  -- subscription allows, and fewer where it can still be claimed; delivery ids are unique; and a
  -- claim carries the limit of its delivery's subscription. A replay counts from 0 again, and a
  -- release takes one off. From a state that satisfies it, and while the subscriptions stay as they
  -- are, whatever sequence of publishes, claims (timed out or not), reservations, completions,
  -- failures, releases, replays, reaper runs and waits follows, and however late a consumer writes
  -- under a claim that it was handed, the state satisfies it.
  pub attempts_within_budget : (start sys : System) → Inv start → Reach sub_of start sys → Inv sys
  attempts_within_budget start sys v here = v
  attempts_within_budget start sys v (next {sys = before} r op a) =
      step-Inv op before a (attempts_within_budget start before v r)
