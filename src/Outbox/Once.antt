-- ===== src/Outbox/Once.antt =====
-- An email is sent at most once: the claims and the status writes keep the invariant.
use alchemist_template.Common.{
  ℕ, ◌+◌, ◌≤◌, ◌<◌, ◌≡◌, refl, sym, ap, ◌∙◌, ◌≢◌, ◌⊎◌, inl, inr, Bool, true, false, Option, some,
  List, [], ◌∷◌, ◌++◌, map, arith, ◌==◌, get_elem?, update_where, Keyed, update-Keyed, append-Keyed,
  In-update-cases, map-Keyed,
}
use alchemist_template.Common.Members.{In, In-any, In-append, In-map}
use alchemist_template.Outbox.Settled.{settle-Inv, crash-Inv}
use alchemist_template.Common.Pick.{among-In, pick-Keyed, is_among, pick-In}
use alchemist_template.Outbox.Table.{sending, sent, Email, enqueue_email}
use alchemist_template.Outbox.Deliver.{
  stale_lock_ms, picked, is_due, claim_limit, sends_before, claimed, counted, claim_due,
}
use alchemist_template.Outbox.History.{
  hold, claims, enqueues, cancels, settles, crashes, Held, held_id, State, history, no_mail, act,
  Action, AllInOrder, InOrder, enqueues, cancels,
}
use alchemist_template.Outbox.Kept.{Inv, enqueue-Inv, cancel-Inv}

pub picked-In :
    (limit : Option ℕ) (locked : ℕ → Bool) (now : ℕ) (rows : List Email) (r : Email)
    → In r (picked limit locked now rows)
    → In r rows × (is_due locked now r ≡ true)
unfolding picked
picked-In limit locked now rows r =
    pick-In sends_before (claim_limit limit) (is_due locked now) rows r

-- An email that is due is not sent, and is held by no one unless its lock is stale.
due-not_sent :
    (locked : ℕ → Bool) (now : ℕ) (r : Email) → is_due locked now r ≡ true → r.status ≢ sent
unfolding is_due
due-not_sent locked now r h e = ground arith

due-not_held :
    (locked : ℕ → Bool) (now at : ℕ) (r : Email)
    → is_due locked now r ≡ true
    → r.status ≡ sending
    → r.locked_at ≡ some at
    → at + stale_lock_ms < now
unfolding is_due
due-not_held locked now at r h e l = ground arith

module _ (limit : Option ℕ) (locked : ℕ → Bool) (now : ℕ) (s : State) (v : Inv s)
    (calm : (h : Held) → In h s.held → now ≤ h.at + stale_lock_ms) where
  abbrev took : List Email
  took = picked limit locked now s.rows

  abbrev holder : Email → Held
  holder c = hold now (counted c)

  abbrev after : State
  after = record s {
    rows = update_where (is_among (λ r. r.id) took) (claimed now) s.rows;
    held = s.held ++ map holder took;
  }

  took-due :
      (r : Email) → In r s.rows → is_among (λ r. r.id) took r ≡ true → is_due locked now r ≡ true
  took-due r m h =
      (picked-In limit locked now s.rows r (
        among-In (λ r. r.id) took s.rows r (λ x mx. (picked-In limit locked now s.rows x mx).0)
          v.keyed m h)).1

  cases :
      (r : Email)
      → In r after.rows
      → ((x : Email) × In x s.rows × (is_due locked now x ≡ true) × (r ≡ claimed now x))
        ⊎ (In r s.rows × (is_among (λ r. r.id) took r ≡ false))
  cases r m = elim (In-update-cases (is_among (λ r. r.id) took) (claimed now) r s.rows m) [
    | inl (x, mx, p, e) ↦ inl (x, mx, took-due x mx p, e)
    | inr other ↦ inr other
  ]

  -- No one holds an email that is due.
  free :
      (h : Held)
      → In h s.held
      → (x : Email) → In x s.rows
      → is_due locked now x ≡ true
      → x.id ≢ held_id h
  free h mh x mx due e =
      let (st, at) = v.owned h mh x mx e in
      absurd (omega (arith, due-not_held locked now h.at x due st at, calm h mh))

  new-In : (h : Held) → In h (map holder took) → (c : Email) × In c took × (h ≡ holder c)
  new-In h m = In-map holder h took m

  claim-Inv : Inv after
  unfolding claimed
  claim-Inv = record {
    keyed = update-Keyed _ (is_among (λ r. r.id) took) (claimed now) s.rows (λ r. refl) v.keyed;
    fresh = λ r m. elim (cases r m) [
      | inl (x, mx, due, e) ↦ rw e (v.fresh x mx)
      | inr (m', _) ↦ v.fresh r m'
    ];
    owned = λ h mh r m e. elim (In-append h s.held (map holder took) mh) [
      | inl old ↦ elim (cases r m) [
        | inl (x, mx, due, q) ↦ absurd (free h old x mx due (ap (λ (y : Email). y.id) (sym q) ∙ e))
        | inr (m', _) ↦ v.owned h old r m' e
      ]
      | inr new ↦
          let (c, mc, q) = new-In h new in
          elim (cases r m) [
            | inl (x, mx, due, y) ↦ (rw y refl, rw (y, q) refl)
            | inr (m', out) ↦ absurd (ground (arith, In-any (λ x. r.id == x.id) c took mc))
          ]
    ];
    known = λ h mh. elim (In-append h s.held (map holder took) mh) [
      | inl old ↦ v.known h old
      | inr new ↦
          let (c, mc, q) = new-In h new in
          rw q (v.fresh c (picked-In limit locked now s.rows c mc).0)
    ];
    logged = λ i mi.
        let (lt, done, apart) = v.logged i mi in
        (
          lt,
          λ r m e. elim (cases r m) [
            | inl (x, mx, due, q) ↦
                absurd
                  (due-not_sent locked now x due (done x mx (ap (λ (y : Email). y.id) (sym q) ∙ e)))
            | inr (m', _) ↦ done r m' e
          ],
          λ h mh e. elim (In-append h s.held (map holder took) mh) [
            | inl old ↦ apart h old e
            | inr new ↦
                let (c, mc, q) = new-In h new in
                let (mr, due) = picked-In limit locked now s.rows c mc in
                absurd (due-not_sent locked now c due (done c mr (ap held_id (sym q) ∙ e)))
          ],
        );
    holders =
        append-Keyed held_id s.held (map holder took) v.holders
          (map-Keyed holder held_id (λ c. refl) took
            (unfold picked in
              pick-Keyed sends_before (λ r. r.id) (claim_limit limit) (is_due locked now) s.rows
                v.keyed))
          (λ h g mh mg e.
            let (c, mc, q) = new-In g mg in
            let (mr, due) = picked-In limit locked now s.rows c mc in
            free h mh c mr due (ap held_id (sym q) ∙ sym e));
    once = v.once;
  }

map-counted :
    (now : ℕ) (cs : List Email)
    → map (hold now) (map counted cs) ≡ map (λ (c : Email). hold now (counted c)) cs
map-counted now [] = refl
map-counted now (c ∷ cs) = ap (λ hs. hold now (counted c) ∷ hs) (map-counted now cs)

act-Inv : (a : Action) (s : State) → Inv s → InOrder a s → Inv (act a s)
unfolding act InOrder claim_due
act-Inv (enqueues now i) s v o = enqueue-Inv now i s v (enqueue_email s.next now i s.rows) refl
act-Inv (cancels id) s v o = cancel-Inv id s v
act-Inv (claims limit locked now) s v o =
    rw (map-counted now (picked limit locked now s.rows)) (claim-Inv limit locked now s v o)
act-Inv (settles i outcome) s v o = settle-Inv i outcome s v o (get_elem? s.held i) refl
act-Inv (crashes i) s v o = crash-Inv i s v

history-Inv :
    (actions : List Action) (s : State) → Inv s → AllInOrder actions s → Inv (history actions s)
unfolding history AllInOrder
history-Inv [] s v o = v
history-Inv (a ∷ more) s v o = history-Inv more (act a s) (act-Inv a s v o.0) o.1

no_mail-Inv : Inv no_mail
no_mail-Inv = record {
  keyed = tt;
  fresh = λ r m. absurd m;
  owned = λ h m. absurd m;
  known = λ h m. absurd m;
  logged = λ i m. absurd m;
  holders = tt;
  once = tt;
}

-- Given that no claim comes while a runner at work has held its emails for more than ten minutes,
-- and that no `sent` fails to be written: whatever is enqueued, cancelled, claimed, sent, refused or
-- lost in a crash before it was sent, and in whatever order, the transport takes each email at most
-- once, an email that it took is recorded as sent, and no two runners hold one email.
pub sent_once :
    (actions : List Action)
    → AllInOrder actions no_mail
    → let s = history actions no_mail in
      Keyed (λ (i : ℕ). i) s.taken
      × ((r : Email) → In r s.rows → In r.id s.taken → r.status ≡ sent)
      × Keyed held_id s.held
sent_once actions o =
    let v = history-Inv actions no_mail no_mail-Inv o in
    (v.once, λ r m t. (v.logged r.id t).1 r m refl, v.holders)
