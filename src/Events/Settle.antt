-- ===== src/Events/Settle.antt =====
-- processDelivery of src/lib/events.ts always lets go of its claim.
use alchemist_template.Common.{
  ℕ, ◌+◌, ◌≡◌, refl, inl, inr, Bool, true, false, Option, none, some, List, [], ◌∷◌, arith,
  Option-cases, any, Text, Result, update_where, update-clears, ok, err,
}
use alchemist_template.Events.Reserve.{
  Reservation, seen, reserve_idempotency_key, in_flight, reserved,
}
use alchemist_template.Events.Topic.{RegisteredHandler, find_handler}
use alchemist_template.Events.Store.{
  handler, webhook, ClaimedDelivery, Store, Kind, owns, ClaimToken, Delivery,
}
use alchemist_template.Events.Process.{
  done, skipped, threw, returned, timed_out, handler_not_registered, release, complete, World,
  run_handler, Processed, process_kind, catch_failure, process_keyed, process_registered,
  process_delivery, process_derived, after_run, after_reserve, ProcessOutcome, ReleaseReason,
  RunResult, idempotency_key_in_flight, key_in_flight_retry_ms,
}
use alchemist_template.Events.Finish.{
  released, finished, failed_row, release_claims, complete_delivery, fail_delivery, Thrown,
  owned_by_any,
}

-- The claim owns no row of the tables that the call leaves.
abbrev pub LetsGo : ClaimedDelivery → Processed → Type 0
LetsGo c p = any (owns c.token) p.store.deliveries ≡ false

release-frees :
    (t : ClaimToken) (due : ℕ) (ds : List Delivery)
    → any (owns t) (update_where (owned_by_any (t ∷ [])) (released due) ds) ≡ false
unfolding update_where owns released
release-frees t due [] = refl
release-frees t due (d ∷ ds) = ground (arith, release-frees t due ds)

module _ (w : World) (c : ClaimedDelivery) (writes : w.fail_write ≡ none) where
  fail-LetsGo :
      (thrown : Thrown) (delay : ℕ) (s : Store)
      → any
          (owns c.token)
          (fail_delivery c.token c.max_attempts thrown w.random delay s).1.deliveries
        ≡ false
  unfolding fail_delivery
  fail-LetsGo thrown delay s =
      update-clears (owns c.token) _ s.deliveries (λ d h. unfold owns failed_row in ground arith)

  catch-LetsGo :
      (started : Bool) (thrown : Thrown) (delay : ℕ) (s : Store)
      → LetsGo c (catch_failure w c started thrown delay s)
  unfolding catch_failure
  catch-LetsGo started thrown delay s = rw (writes, catch_failure) (fail-LetsGo thrown delay s)

  complete-LetsGo :
      (started : Bool) (outcome : ProcessOutcome) (key : Option Text) (s : Store)
      → LetsGo c (complete w c started outcome key s)
  unfolding complete complete_delivery
  complete-LetsGo started outcome key s = elim (Option-cases w.complete_write) [
    | inl e ↦
        rw (e, complete)
          (update-clears (owns c.token) (finished s.now) s.deliveries
            (λ d h. unfold owns finished in ground arith))
    | inr (t, e) ↦ rw (e, complete) (catch-LetsGo started t 0 s)
  ]

  release-LetsGo : (reason : ReleaseReason) (s : Store) → LetsGo c (release w c reason s)
  unfolding release release_claims
  release-LetsGo reason s = elim (Option-cases w.release_write) [
    | inl e ↦ rw (e, release) (release-frees c.token (s.now + key_in_flight_retry_ms) s.deliveries)
    | inr (t, e) ↦ rw (e, release) (catch-LetsGo false t 0 s)
  ]

  run-LetsGo : (key : Option Text) (r : RunResult) (s : Store) → LetsGo c (after_run w c key r s)
  unfolding after_run
  run-LetsGo key returned s = complete-LetsGo true done key s
  run-LetsGo key (threw thrown) s = catch-LetsGo true thrown 0 s
  run-LetsGo key timed_out s = catch-LetsGo true _ w.handler_timeout_ms s

  handler-LetsGo : (key : Option Text) (s : Store) → LetsGo c (run_handler w c key s)
  unfolding run_handler
  handler-LetsGo key s = run-LetsGo key (w.run c.event) (w.meanwhile s)

  reserve-LetsGo :
      (key : Text) (r : Reservation) (s : Store) → LetsGo c (after_reserve w c key (r, s))
  unfolding after_reserve
  reserve-LetsGo key reserved s = handler-LetsGo (some key) s
  reserve-LetsGo key (seen e) s = complete-LetsGo false skipped none s
  reserve-LetsGo key (in_flight o) s = release-LetsGo idempotency_key_in_flight s

  keyed-LetsGo : (key : Text) (s : Store) → LetsGo c (process_keyed w c key s)
  unfolding process_keyed
  keyed-LetsGo key s = elim (Option-cases w.reserve_write) [
    | inl e ↦
        rw (e, process_keyed)
          (let (r, after) = reserve_idempotency_key c key s in reserve-LetsGo key r after)
    | inr (t, e) ↦ rw (e, process_keyed) (catch-LetsGo false t 0 s)
  ]

  derived-LetsGo : (k : Result Thrown Text) (s : Store) → LetsGo c (process_derived w c k s)
  unfolding process_derived
  derived-LetsGo (ok key) s = keyed-LetsGo _ s
  derived-LetsGo (err t) s = catch-LetsGo false t 0 s

  registered-LetsGo :
      (o : Option RegisteredHandler) (s : Store) → LetsGo c (process_registered w c o s)
  unfolding process_registered
  registered-LetsGo none s = release-LetsGo handler_not_registered s
  registered-LetsGo (some entry) s = elim (Option-cases entry.idempotency_key) [
    | inl e ↦ rw (e, process_registered) (handler-LetsGo none s)
    | inr (derive, e) ↦ rw (e, process_registered) (derived-LetsGo (derive c.event) s)
  ]

  kind-LetsGo : (k : Kind) (s : Store) → LetsGo c (process_kind k w c s)
  unfolding process_kind
  kind-LetsGo webhook s = handler-LetsGo none s
  kind-LetsGo handler s = registered-LetsGo (find_handler c.event.topic c.handler_name w.registry) s

  -- However the handler or the webhook POST ends (it returns, throws or overruns its timer), whatever
  -- other transactions commit while it runs, and whichever of the completion, the release and the
  -- reservation fail to be written: as long as a failure can be written, the claim owns no running
  -- row when the call is over.
  pub process-LetsGo : (s : Store) → LetsGo c (process_delivery w c s)
  unfolding process_delivery
  process-LetsGo s = kind-LetsGo c.kind s
