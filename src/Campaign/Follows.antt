-- ===== src/Campaign/Follows.antt =====
-- The operations on one campaign follow the diagram.
use alchemist_template.Common.{
  ℕ, ◌≤◌, ◌≡◌, refl, ◌∙◌, subst, inl, inr, true, List, [], ◌∷◌, arith, ok-sequence, Result-cases,
  ok,
}
use alchemist_template.Common.Members.{In}
use alchemist_template.Outbox.Table.{enqueue_email}
use alchemist_template.Campaign.Tables.{Campaign, Mailing, Contact, Recipient}
use alchemist_template.Campaign.Snapshot.{
  insert_recipient, Env, snapshot_recipients, insert_recipients, skip_suppressed, skip_unfit,
}
use alchemist_template.Campaign.Release.{
  release, queue_each, enqueue_recipient, mark_sent, queue_row, send_input,
}
use alchemist_template.Campaign.Life.{
  is_arrow, view, moves, Course, here, next, Evolves, Evolves-trans, Sane,
}

-- The tables evolve, and stay sane.
abbrev pub Follows : Mailing → Mailing → Type 0
Follows a b = Evolves a b × Sane b

pub Follows-trans : (a b c : Mailing) → Follows a b → (Sane b → Follows b c) → Follows a c
Follows-trans a b c p q = let r = q p.1 in (Evolves-trans a b c p.0 r.0, r.1)

-- The campaigns stay.
abbrev pub Quiet : Mailing → Mailing → Type 0
Quiet a b = (b.campaigns ≡ a.campaigns) × (a.next ≤ b.next)

pub Quiet-trans : (a b c : Mailing) → Quiet a b → Quiet b c → Quiet a c
Quiet-trans a b c p q = (q.0 ∙ p.0, omega arith)

pub Quiet-Follows : (a b : Mailing) → Quiet a b → Sane a → Follows a b
Quiet-Follows a b q s = (
  λ i c at. (c, rw q.0 at, refl, here),
  record {
    keyed = rw q.0 s.keyed;
    fresh = λ c m. let m' = subst (In c) q.0 m in omega (arith, s.fresh c m');
  },
)

pub arrow :
    (c d : Campaign)
    → is_arrow c.status d.status ≡ true
    → view d ≡ record (view c) { status = d.status }
    → Course (view c) (view d)
arrow c d h e = next here (moves h e)

insert_one-Quiet : (c : Campaign) (x : Contact) (db : Mailing) → Quiet db (insert_recipient c x db)
unfolding insert_recipient
insert_one-Quiet c x db = (ground arith, ground arith)

insert-Quiet :
    (c : Campaign) (xs : List Contact) (db : Mailing) → Quiet db (insert_recipients c xs db)
unfolding insert_recipients
insert-Quiet c [] db = (refl, omega arith)
insert-Quiet c (x ∷ xs) db =
    let more = insert_recipient c x db in
    Quiet-trans db more (insert_recipients c xs more) (insert_one-Quiet c x db)
      (insert-Quiet c xs more)

pub snapshot-Quiet :
    (env : Env) (c : Campaign) (db : Mailing) → Quiet db (snapshot_recipients env c db)
unfolding snapshot_recipients skip_suppressed skip_unfit
snapshot-Quiet env c db = insert-Quiet c db.contacts db

enqueue-Quiet :
    (env : Env) (c : Campaign) (batch now : ℕ) (r : Recipient) (db after : Mailing)
    → enqueue_recipient env c batch now r db ≡ ok after
    → Quiet db after
unfolding enqueue_recipient queue_row
enqueue-Quiet env c batch now r db after h =
    elim (Result-cases (enqueue_email db.next db.clock (send_input env c r now) db.outbox)) [
      | inl (x, q) ↦ absurd (ground arith)
      | inr (e, q) ↦
          let same : queue_row r.id now batch e db ≡ after = ground arith in
          (rw (← same) refl, rw (← same) (omega arith))
    ]

queue-Quiet :
    (env : Env) (c : Campaign) (batch now : ℕ) (rs : List Recipient) (db after : Mailing)
    → queue_each env c batch now rs db ≡ ok after
    → Quiet db after
unfolding queue_each
queue-Quiet env c batch now [] db after h =
    let same : db ≡ after = ground arith in (rw same refl, rw same (omega arith))
queue-Quiet env c batch now (r ∷ rs) db after h =
    let (mid, first, rest) =
      ok-sequence (enqueue_recipient env c batch now r db) (queue_each env c batch now rs) h in
    Quiet-trans db mid after (enqueue-Quiet env c batch now r db mid first)
      (queue-Quiet env c batch now rs mid after rest)

pub release-Quiet :
    (env : Env) (c : Campaign) (rs : List Recipient) (batch now : ℕ) (db after : Mailing)
    → release env c rs batch now db ≡ ok after
    → Quiet db after
unfolding release mark_sent
release-Quiet env c rs batch now db after h =
    let (mid, first, rest) =
      ok-sequence (queue_each env c batch now rs db) (λ m. ok (mark_sent now rs m)) h in
    let same : mark_sent now rs mid ≡ after = ground arith in
    Quiet-trans db mid after (queue-Quiet env c batch now rs db mid first) (ground (arith, same))
