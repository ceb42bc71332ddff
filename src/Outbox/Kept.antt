-- ===== src/Outbox/Kept.antt =====
-- The invariant of the outbox's histories, and the enqueue and the cancellation that keep it.
use alchemist_template.Common.{
  ℕ, suc, ◌<◌, ◌≡◌, refl, ◌≢◌, ◌⊎◌, inl, inr, Option, none, some, List, [], ◌∷◌, ◌++◌, arith,
  Bool-cases, Option-cases, find?, any, Text, Result, Keyed, update-Keyed, append-Keyed,
  In-update-cases, ok, err,
}
use alchemist_template.Common.Members.{In, In-append}
use alchemist_template.Outbox.Table.{
  sending, sent, Email, cancellable, cancel_email, cancelled, enqueue_email, insert_email,
  EnqueueInput, Enqueued, EnqueueError, new_email, has_key, key_of,
}
use alchemist_template.Outbox.History.{Held, held_id, State, enqueued_state}

-- A held email is being sent, by its holder alone; an email that the transport took says so, and
-- is held no more; and no id stands twice.
pub record Inv (s : State) : Type 0 where
  pub keyed : Keyed (λ (r : Email). r.id) s.rows
  pub fresh : (r : Email) → In r s.rows → r.id < s.next
  pub owned :
      (h : Held)
      → In h s.held
      → (r : Email) → In r s.rows
      → r.id ≡ held_id h
      → (r.status ≡ sending) × (r.locked_at ≡ some h.at)
  pub known : (h : Held) → In h s.held → held_id h < s.next
  pub logged :
      (i : ℕ)
      → In i s.taken
      → (i < s.next)
        × ((r : Email) → In r s.rows → r.id ≡ i → r.status ≡ sent)
        × ((h : Held) → In h s.held → held_id h ≢ i)
  pub holders : Keyed held_id s.held
  pub once : Keyed (λ (i : ℕ). i) s.taken

pub cancel-Inv : (id : ℕ) (s : State) → Inv s → Inv (record s { rows = (cancel_email id s.rows).1 })
unfolding cancel_email
cancel-Inv id s v =
    let cases = λ (r : Email).
      In-update-cases (cancellable id) (λ r. record r { status = cancelled }) r s.rows in
    record {
      keyed = update-Keyed _ (cancellable id) _ s.rows (λ r. refl) v.keyed;
      fresh = λ r m. elim (cases r m) [
        | inl (x, mx, h, e) ↦ rw e (v.fresh x mx)
        | inr (m', h) ↦ v.fresh r m'
      ];
      owned = λ h mh r m e. elim (cases r m) [
        | inl (x, mx, hit, q) ↦ absurd (ground (arith, v.owned h mh x mx))
        | inr (m', _) ↦ v.owned h mh r m' e
      ];
      known = v.known;
      logged = λ i mi.
          let (lt, done, apart) = v.logged i mi in
          (
            lt,
            λ r m e. elim (cases r m) [
              | inl (x, mx, hit, q) ↦ absurd (ground (arith, done x mx))
              | inr (m', _) ↦ done r m' e
            ],
            apart,
          );
      holders = v.holders;
      once = v.once;
    }

last_id : (new r : Email) (n : ℕ) → new.id ≡ n → In r (new ∷ []) → r.id ≡ n
last_id new r n id (inl e) = rw e id
last_id new r n id (inr m) = absurd m

insert-Inv :
    (new : Email) (s : State)
    → new.id ≡ s.next
    → Inv s
    → Inv (record s { rows = s.rows ++ new ∷ []; next = suc s.next })
insert-Inv new s id v =
    let not_new = λ (r : Email) (m : In r (new ∷ [])). last_id new r s.next id m in
    record {
      keyed =
          append-Keyed _ s.rows (new ∷ []) v.keyed (tt, tt)
            (λ x y mx my. let lt = v.fresh x mx in let e = not_new y my in omega arith);
      fresh = λ r m. elim (In-append r s.rows (new ∷ []) m) [
        | inl old ↦ omega (arith, v.fresh r old)
        | inr last ↦ omega (arith, not_new r last)
      ];
      owned = λ h mh r m e. elim (In-append r s.rows (new ∷ []) m) [
        | inl old ↦ v.owned h mh r old e
        | inr last ↦ absurd (omega (arith, not_new r last, v.known h mh))
      ];
      known = λ h mh. omega (arith, v.known h mh);
      logged = λ i mi.
          let (lt, done, apart) = v.logged i mi in
          (
            omega arith,
            λ r m e. elim (In-append r s.rows (new ∷ []) m) [
              | inl old ↦ done r old e
              | inr last ↦ absurd (omega (arith, not_new r last))
            ],
            apart,
          );
      holders = v.holders;
      once = v.once;
    }

bump-Inv : (s : State) → Inv s → Inv (record s { next = suc s.next })
bump-Inv s v = record {
  keyed = v.keyed;
  fresh = λ r m. omega (arith, v.fresh r m);
  owned = v.owned;
  known = λ h mh. omega (arith, v.known h mh);
  logged = λ i mi. let (lt, done, apart) = v.logged i mi in (omega arith, done, apart);
  holders = v.holders;
  once = v.once;
}

-- An enqueue that succeeds appends the new row, or finds one that has its key.
insert_cases :
    (k : Option Text) (new : Email) (rows : List Email) (e : Enqueued)
    → insert_email k new rows ≡ ok e
    → (e.rows ≡ rows ++ new ∷ []) ⊎ (e.rows ≡ rows)
unfolding insert_email
insert_cases none new rows e h = inl (ground arith)
insert_cases (some k) new rows e h = elim (Bool-cases (any (has_key k) rows)) [
  | inr new_key ↦ inl (ground arith)
  | inl old ↦ elim (Option-cases (find? (has_key k) rows)) [
    | inl q ↦ absurd (ground arith)
    | inr (x, q) ↦ inr (ground arith)
  ]
]

pub enqueue_cases :
    (id now : ℕ) (i : EnqueueInput) (rows : List Email) (e : Enqueued)
    → enqueue_email id now i rows ≡ ok e
    → (e.rows ≡ rows ++ new_email id now i ∷ []) ⊎ (e.rows ≡ rows)
unfolding enqueue_email
enqueue_cases id now i rows e h =
    insert_cases (key_of i.idempotency_key) (new_email id now i) rows e (ground arith)

pub enqueue-Inv :
    (now : ℕ) (i : EnqueueInput) (s : State)
    → Inv s
    → (r : Result EnqueueError Enqueued) → enqueue_email s.next now i s.rows ≡ r
    → Inv (enqueued_state s r)
unfolding enqueued_state
enqueue-Inv now i s v (err x) h = v
enqueue-Inv now i s v (ok e) h = elim (enqueue_cases s.next now i s.rows e h) [
  | inl q ↦ rw q (insert-Inv (new_email s.next now i) s (unfold new_email in refl) v)
  | inr q ↦ rw q (bump-Inv s v)
]
