-- ===== src/Outbox/Keys.antt =====
-- The idempotency keys of the outbox.
use alchemist_template.Common.{
  ℕ, ◌≡◌, refl, sym, ◌≢◌, inl, inr, Bool, true, false, Option, none, some, List, [], ◌∷◌, ◌++◌, map,
  arith, ◌==◌, Bool-cases, Option-cases, get_elem?, find?, any, All, All-append, Text, eq_text_self,
  Result, map-update, ok, err,
}
use alchemist_template.Common.Pick.{is_among}
use mathlib.Core.List.{map-append}
use alchemist_template.Outbox.Table.{
  Email, EnqueueInput, Enqueued, EnqueueError, enqueue_email, insert_email, new_email, key_of,
  has_key, cancel_email, cancellable, cancelled,
}
use alchemist_template.Outbox.Deliver.{
  SendOutcome, delivered, unrecorded, rejected, threw, claim_due, settle, settled, picked, claimed,
}
use alchemist_template.Outbox.History.{
  Held, State, Action, act, history, no_mail, enqueued_state, settled_state, enqueues, cancels,
  claims, settles, crashes,
}

abbrev pub keys : List Email → List (Option Text)
keys rows = map (λ r. r.idempotency_key) rows

-- No key stands twice.
abbrev pub KeysApart : List (Option Text) → Type 0
KeysApart [] = Unit
KeysApart (none ∷ ks) = KeysApart ks
KeysApart (some k ∷ ks) = All (λ j. j ≢ some k) ks × KeysApart ks

append_none : (ks : List (Option Text)) → KeysApart ks → KeysApart (ks ++ none ∷ [])
append_none [] h = tt
append_none (none ∷ ks) h = append_none ks h
append_none (some k ∷ ks) h = (All-append _ ks (none ∷ []) h.0 (λ e. cc, tt), append_none ks h.1)

append_some :
    (k : Text) (ks : List (Option Text))
    → All (λ j. j ≢ some k) ks
    → KeysApart ks
    → KeysApart (ks ++ some k ∷ [])
append_some k [] new h = (tt, tt)
append_some k (none ∷ ks) new h = append_some k ks new.1 h
append_some k (some j ∷ ks) new h =
    (All-append _ ks (some k ∷ []) h.0 (λ e. new.0 (sym e), tt), append_some k ks new.1 h.1)

has_key-eq : (k : Text) (r : Email) → r.idempotency_key ≡ some k → has_key k r ≡ true
has_key-eq k r e = rw e (eq_text_self k)

not_any-All :
    (k : Text) (rows : List Email)
    → any (has_key k) rows ≡ false
    → All (λ j. j ≢ some k) (keys rows)
not_any-All k [] h = tt
not_any-All k (r ∷ rows) h =
    (λ e. absurd (ground (arith, has_key-eq k r e)), not_any-All k rows (ground arith))

insert-KeysApart :
    (key : Option Text) (new : Email) (rows : List Email) (e : Enqueued)
    → new.idempotency_key ≡ key
    → insert_email key new rows ≡ ok e
    → KeysApart (keys rows)
    → KeysApart (keys e.rows)
unfolding insert_email
insert-KeysApart none new rows e id h v =
    let same : e.rows ≡ rows ++ new ∷ [] = ground arith in
    rw (same, map-append (λ r. r.idempotency_key) rows (new ∷ []), id) (append_none (keys rows) v)
insert-KeysApart (some k) new rows e id h v = elim (Bool-cases (any (has_key k) rows)) [
  | inr new_key ↦
      let same : e.rows ≡ rows ++ new ∷ [] = ground arith in
      rw (same, map-append (λ r. r.idempotency_key) rows (new ∷ []), id)
        (append_some k (keys rows) (not_any-All k rows new_key) v)
  | inl old ↦ elim (Option-cases (find? (has_key k) rows)) [
    | inl q ↦ absurd (ground arith)
    | inr (x, q) ↦ let same : e.rows ≡ rows = ground arith in rw same v
  ]
]

enqueue-KeysApart :
    (s : State) (now : ℕ) (i : EnqueueInput) (r : Result EnqueueError Enqueued)
    → enqueue_email s.next now i s.rows ≡ r
    → KeysApart (keys s.rows)
    → KeysApart (keys (enqueued_state s r).rows)
unfolding enqueued_state enqueue_email
enqueue-KeysApart s now i (err x) h v = v
enqueue-KeysApart s now i (ok e) h v =
    insert-KeysApart (key_of i.idempotency_key) (new_email s.next now i) s.rows e
      (unfold new_email in refl) (ground arith) v

settled-key :
    (now : ℕ) (c : Email) (o : SendOutcome) (r : Email)
    → (settled now c o r).idempotency_key ≡ r.idempotency_key
unfolding settled
settled-key now c delivered r = refl
settled-key now c (unrecorded m) r = ground arith
settled-key now c (rejected m) r = refl
settled-key now c (threw m) r = ground arith

settled-KeysApart :
    (i : ℕ) (o : SendOutcome) (h : Option Held) (s : State)
    → KeysApart (keys s.rows)
    → KeysApart (keys (settled_state i o h s).rows)
unfolding settled_state settle
settled-KeysApart i o none s v = v
settled-KeysApart i o (some h) s v =
    rw
      (map-update (λ (r : Email). r.idempotency_key) (λ r. r.id == h.email.id)
        (settled h.at h.email o) s.rows (settled-key h.at h.email o))
      v

act-KeysApart : (a : Action) (s : State) → KeysApart (keys s.rows) → KeysApart (keys (act a s).rows)
unfolding act cancel_email claim_due claimed
act-KeysApart (enqueues now i) s v =
    enqueue-KeysApart s now i (enqueue_email s.next now i s.rows) refl v
act-KeysApart (cancels id) s v =
    rw
      (map-update (λ (r : Email). r.idempotency_key) (cancellable id)
        (λ r. record r { status = cancelled }) s.rows (λ r. refl))
      v
act-KeysApart (claims limit locked now) s v =
    rw
      (map-update (λ (r : Email). r.idempotency_key)
        (is_among (λ r. r.id) (picked limit locked now s.rows)) (claimed now) s.rows (λ r. refl))
      v
act-KeysApart (settles i o) s v = settled-KeysApart i o (get_elem? s.held i) s v
act-KeysApart (crashes i) s v = v

history-KeysApart :
    (actions : List Action) (s : State)
    → KeysApart (keys s.rows)
    → KeysApart (keys (history actions s).rows)
unfolding history
history-KeysApart [] s v = v
history-KeysApart (a ∷ more) s v = history-KeysApart more (act a s) (act-KeysApart a s v)

find_last :
    (p : Email → Bool) (x : Email) (rows : List Email)
    → any p rows ≡ false
    → p x ≡ true
    → (any p (rows ++ x ∷ []) ≡ true) × (find? p (rows ++ x ∷ []) ≡ some x)
find_last p x [] h hit = ground arith
find_last p x (r ∷ rows) h hit = ground (arith, find_last p x rows)

insert_replay :
    (k : Text) (new again : Email) (rows : List Email) (e : Enqueued)
    → new.idempotency_key ≡ some k
    → insert_email (some k) new rows ≡ ok e
    → insert_email (some k) again e.rows
      ≡ ok (record { row = e.row; created = false; rows = e.rows })
unfolding insert_email
insert_replay k new again rows e id h = elim (Bool-cases (any (has_key k) rows)) [
  | inr new_key ↦
      let (seen, same) = find_last (has_key k) new rows new_key (has_key-eq k new id) in
      let table : e.rows ≡ rows ++ new ∷ [] = ground arith in
      let row : e.row ≡ new = ground arith in rw (table, row, seen, same) refl
  | inl old ↦ elim (Option-cases (find? (has_key k) rows)) [
    | inl q ↦ absurd (ground arith)
    | inr (x, q) ↦
        let table : e.rows ≡ rows = ground arith in
        let row : e.row ≡ x = ground arith in rw (table, row, old, q) refl
  ]
]

enqueue-insert :
    (id now : ℕ) (i : EnqueueInput) (rows : List Email) (e : Enqueued)
    → enqueue_email id now i rows ≡ ok e
    → insert_email (key_of i.idempotency_key) (new_email id now i) rows ≡ ok e
unfolding enqueue_email
enqueue-insert id now i rows e h = ground arith

enqueue_again :
    (id now id' now' : ℕ) (i j : EnqueueInput) (rows : List Email) (e f : Enqueued) (k : Text)
    → key_of i.idempotency_key ≡ some k
    → key_of j.idempotency_key ≡ some k
    → enqueue_email id now i rows ≡ ok e
    → enqueue_email id' now' j e.rows ≡ ok f
    → f ≡ record { row = e.row; created = false; rows = e.rows }
enqueue_again id now id' now' i j rows e f k ki kj hi hj =
    let first = rw ki at (enqueue-insert id now i rows e hi) in
    let second = rw kj at (enqueue-insert id' now' j e.rows f hj) in
    let replay =
      insert_replay k (new_email id now i) (new_email id' now' j) rows e (unfold new_email in ki)
        first in
    ground (arith, replay, second)

-- One email per idempotency key, whatever callers and runners have done before: after an enqueue
-- with a key, no key stands on two rows, and another accepted enqueue with that key, whatever else
-- it holds, gives the row of the first, says that it was not created, and changes no row.
pub enqueue_once :
    (actions : List Action) (now id' now' : ℕ) (i j : EnqueueInput) (e f : Enqueued) (k : Text)
    → key_of i.idempotency_key ≡ some k
    → key_of j.idempotency_key ≡ some k
    → let s = history actions no_mail in
      enqueue_email s.next now i s.rows ≡ ok e
      → enqueue_email id' now' j e.rows ≡ ok f
      → KeysApart (keys e.rows) × (f ≡ record { row = e.row; created = false; rows = e.rows })
enqueue_once actions now id' now' i j e f k ki kj hi hj =
    let s = history actions no_mail in
    (
      insert-KeysApart (key_of i.idempotency_key) (new_email s.next now i) s.rows e
          (unfold new_email in refl) (enqueue-insert s.next now i s.rows e hi)
          (history-KeysApart actions no_mail tt),
      enqueue_again s.next now id' now' i j s.rows e f k ki kj hi hj,
    )
