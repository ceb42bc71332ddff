-- ===== src/Outbox/Ends.antt =====
-- The retries of an email come to an end.
use alchemist_template.Common.{
  ℕ, suc, ◌+◌, ◌-◌, ◌≤◌, max, ◌≡◌, refl, inl, inr, Bool, true, false, ◌||◌, Option, none, some,
  List, [], ◌∷◌, map, arith, ◌==◌, if◌then◌else◌, Bool-cases, length, get_elem?, update_where,
  Keyed, update-Keyed,
}
use alchemist_template.Common.Members.{get-In}
use alchemist_template.Common.Pick.{is_among, among-In}
use alchemist_template.Outbox.Settled.{settled-id}
use alchemist_template.Outbox.Table.{Email, is_pending, is_sending}
use alchemist_template.Outbox.Deliver.{
  SendOutcome, delivered, unrecorded, rejected, threw, settled, deliver_due_emails, DeliverResult,
  settle_each, settle, claim_due, claimed, counted, is_due, picked,
}
use alchemist_template.Outbox.Once.{picked-In}
use alchemist_template.Outbox.Pass.{pass-row, tried}

-- One pass of a runner, with how each email goes.
pub record Pass : Type 0 where
  pub limit : Option ℕ
  pub locked : ℕ → Bool
  pub now : ℕ
  pub send : Email → SendOutcome

unfoldable pub run_pass : Pass → List Email → List Email
run_pass p rows = (deliver_due_emails p.limit p.locked p.now p.send rows).1

unfoldable pub run_passes : List Pass → List Email → List Email
run_passes [] rows = rows
run_passes (p ∷ ps) rows = run_passes ps (run_pass p rows)

unfoldable pub is_tried : Pass → List Email → Option Email → Bool
is_tried p rows none = false
is_tried p rows (some d) = is_among (λ r. r.id) (picked p.limit p.locked p.now rows) d

-- How many of the passes try to send the email at `i`.
unfoldable pub tries : ℕ → List Pass → List Email → ℕ
unfolding is_tried
tries i [] rows = 0
tries i (p ∷ ps) rows =
    (if is_tried p rows (get_elem? rows i) then 1 else 0) + tries i ps (run_pass p rows)

-- The tries that an email has left.
unfoldable pub left : Email → ℕ
left d =
    if is_pending d.status || is_sending d.status then max 1 (d.max_attempts - d.attempts) else 0

is_due-live : (locked : ℕ → Bool) (now : ℕ) (d : Email) → is_due locked now d ≡ true → 1 ≤ left d
unfolding is_due left
is_due-live locked now d h = ground arith

-- A try uses one of them up.
settled_left :
    (now : ℕ) (o : SendOutcome) (d : Email)
    → 1 ≤ left d
    → suc (left (settled now (counted d) o (claimed now d))) ≤ left d
unfolding settled claimed left
settled_left now delivered d h = ground arith
settled_left now (unrecorded m) d h = ground arith
settled_left now (rejected m) d h = ground arith
settled_left now (threw m) d h = ground arith

each-Keyed :
    (now : ℕ) (send : Email → SendOutcome) (cs : List Email) (t : DeliverResult) (rows : List Email)
    → Keyed (λ (r : Email). r.id) rows
    → Keyed (λ (r : Email). r.id) (settle_each now send cs t rows).1
unfolding settle_each settle
each-Keyed now send [] t rows k = k
each-Keyed now send (c ∷ cs) t rows k =
    each-Keyed now send cs _ _ (
      update-Keyed _ (λ r. r.id == c.id) (settled now c (send c)) rows (settled-id now c (send c))
        k)

pass-Keyed :
    (p : Pass) (rows : List Email)
    → Keyed (λ (r : Email). r.id) rows
    → Keyed (λ (r : Email). r.id) (run_pass p rows)
unfolding run_pass deliver_due_emails claim_due claimed
pass-Keyed p rows k =
    let took : List Email = picked p.limit p.locked p.now rows in
    each-Keyed p.now p.send (map counted took)
      (record {
        claims = length (map counted took);
        sends = 0;
        retries = 0;
        failures = 0;
        calls = [];
      })
      (update_where (is_among (λ r. r.id) took) (claimed p.now) rows)
      (update-Keyed _ (is_among (λ r. r.id) took) (claimed p.now) rows (λ r. refl) k)

-- A pass leaves the row at `i` as it was and does not try it, or tries it and takes one from what it
-- has left.
pass_left :
    (i : ℕ) (p : Pass) (rows : List Email) (d : Email)
    → Keyed (λ (r : Email). r.id) rows
    → get_elem? rows i ≡ some d
    → (e : Email) × (get_elem? (run_pass p rows) i ≡ some e)
      × ((if is_tried p rows (get_elem? rows i) then 1 else 0) + left e ≤ left d)
unfolding run_pass is_tried
pass_left i p rows d k at =
    let took : List Email = picked p.limit p.locked p.now rows in
    let row = pass-row p.limit p.locked p.now p.send rows k i d at in
    elim (Bool-cases (is_among (λ r. r.id) took d)) [
      | inr out ↦ (d, rw out at row, rw (at, out) (omega arith))
      | inl hit ↦
          let due =
            (picked-In p.limit p.locked p.now rows d (
              among-In (λ r. r.id) took rows d
                (λ x mx. (picked-In p.limit p.locked p.now rows x mx).0) k (get-In rows i at)
                hit)).1 in
          (
            tried p.now p.send d,
            rw hit at row,
            rw (at, hit)
                (omega (
                  arith,
                  settled_left p.now (p.send (counted d)) d (is_due-live p.locked p.now d due),
                )),
          )
    ]

-- Given that ids are unique: over any number of passes that are not interrupted, whenever they run
-- and however the sends go, an email is tried at most as often as it has tries left (for a new one,
-- its `max_attempts`, and one at least), and each try leaves it fewer. So the retries end, with the
-- email neither pending nor being sent once none is left.
pub retries_end :
    (i : ℕ) (passes : List Pass) (rows : List Email) (d : Email)
    → Keyed (λ (r : Email). r.id) rows
    → get_elem? rows i ≡ some d
    → (e : Email) × (get_elem? (run_passes passes rows) i ≡ some e)
      × (tries i passes rows + left e ≤ left d)
unfolding run_passes tries
retries_end i [] rows d k at = (d, at, omega arith)
retries_end i (p ∷ ps) rows d k at =
    let (e, at', le) = pass_left i p rows d k at in
    let (f, at'', le') = retries_end i ps (run_pass p rows) e (pass-Keyed p rows k) at' in
    (f, at'', omega arith)
