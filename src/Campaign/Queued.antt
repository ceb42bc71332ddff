-- ===== src/Campaign/Queued.antt =====
-- Which recipients a step of advanceOne queues.
use alchemist_template.Common.{
  ℕ, ◌+◌, ◌≤◌, ◌≡◌, refl, sym, ap, ◌∙◌, subst, ◌⊎◌, inl, inr, true, false, List, [], ◌∷◌, arith,
  ◌==◌, if◌then◌else◌, Bool-cases, length, ok-sequence, Result-cases, update_where, Keyed,
  update-Keyed, ok,
}
use alchemist_template.Common.Members.{In, In-filter, In-take}
use alchemist_template.Campaign.Advance.{
  cold_rows, is_time, release_cold, warm_rows, cold_batch, warm_in, batch_size, cold_in,
  campaign_release_chunk, next_batch, created_before,
}
use alchemist_template.Common.Pick.{among-In, pick-In, length-pick, is_among}
use alchemist_template.Common.Pointwise.{
  Pointwise-map, Pointwise, Pointwise-refl, Pointwise-update, Pointwise-trans,
}
use alchemist_template.Outbox.Table.{enqueue_email}
use alchemist_template.Campaign.Tables.{Campaign, Mailing, Recipient, write_campaigns, with_id}
use alchemist_template.Campaign.Snapshot.{Env, waiting_in}
use alchemist_template.Campaign.Release.{
  release, queue_each, enqueue_recipient, queue_row, queue_as, mark_sent, send_input,
}

-- A row that stays, or one of `rs` that is queued.
abbrev pub QueuedOf : ℕ → ℕ → List Recipient → Recipient → Recipient → Type 0
QueuedOf now batch rs x y =
    (y ≡ x) ⊎ ((q : ℕ) × (is_among (λ r. r.id) rs x ≡ true) × (y ≡ queue_as q now batch x))

enqueue-rows :
    (env : Env) (c : Campaign) (batch now : ℕ) (r : Recipient) (db after : Mailing)
    → enqueue_recipient env c batch now r db ≡ ok after
    → (q : ℕ) × (after.recipients
        ≡ update_where (λ x. x.id == r.id) (queue_as q now batch) db.recipients)
unfolding enqueue_recipient queue_row
enqueue-rows env c batch now r db after h =
    elim (Result-cases (enqueue_email db.next db.clock (send_input env c r now) db.outbox)) [
      | inl (x, q) ↦ absurd (ground arith)
      | inr (e, q) ↦ (
        e.row.id,
        let same : queue_row r.id now batch e db ≡ after = ground arith in rw (← same) refl,
      )
    ]

queue-one :
    (now batch q : ℕ) (r : Recipient) (rs : List Recipient) (x y z : Recipient)
    → y ≡ (if x.id == r.id then queue_as q now batch x else x)
    → QueuedOf now batch rs y z
    → QueuedOf now batch (r ∷ rs) x z
unfolding queue_as
queue-one now batch q r rs x y z e (inl same) = elim (Bool-cases (x.id == r.id)) [
  | inl hit ↦ inr (q, rw hit refl, same ∙ e ∙ rw hit refl)
  | inr out ↦ inl (same ∙ e ∙ rw out refl)
]
queue-one now batch q r rs x y z e (inr (q', among, same)) = elim (Bool-cases (x.id == r.id)) [
  | inl hit ↦
      let yx : y ≡ queue_as q now batch x = e ∙ rw hit refl in
      inr (q', rw hit refl, same ∙ ap (queue_as q' now batch) yx)
  | inr out ↦
      let yx : y ≡ x = e ∙ rw out refl in
      inr (
        q',
        rw out (subst (λ w. is_among (λ r. r.id) rs w ≡ true) yx among),
        same ∙ ap (queue_as q' now batch) yx,
      )
]

queue-rows :
    (env : Env) (c : Campaign) (batch now : ℕ) (rs : List Recipient) (db after : Mailing)
    → queue_each env c batch now rs db ≡ ok after
    → Pointwise (QueuedOf now batch rs) db.recipients after.recipients
unfolding queue_each
queue-rows env c batch now [] db after h =
    let same : db ≡ after = ground arith in
    subst (λ (d : Mailing). Pointwise (QueuedOf now batch []) db.recipients d.recipients) same
      (Pointwise-refl (QueuedOf now batch []) db.recipients (λ x. inl refl))
queue-rows env c batch now (r ∷ rs) db after h =
    let (mid, first, rest) =
      ok-sequence (enqueue_recipient env c batch now r db) (queue_each env c batch now rs) h in
    let (q, rows) = enqueue-rows env c batch now r db mid first in
    let One : Recipient → Recipient → Type 0 =
      λ x y. y ≡ (if x.id == r.id then queue_as q now batch x else x) in
    Pointwise-trans One (QueuedOf now batch rs) (QueuedOf now batch (r ∷ rs)) db.recipients
      mid.recipients after.recipients (λ x y z m n e s. queue-one now batch q r rs x y z e s)
      (subst (Pointwise One db.recipients) (sym rows) (
        Pointwise-update One (λ x. x.id == r.id) (queue_as q now batch) db.recipients
          (λ x m. refl)))
      (queue-rows env c batch now rs mid after rest)

pub release-rows :
    (env : Env) (c : Campaign) (rs : List Recipient) (batch now : ℕ) (db after : Mailing)
    → release env c rs batch now db ≡ ok after
    → Pointwise (QueuedOf now batch rs) db.recipients after.recipients
unfolding release mark_sent
release-rows env c rs batch now db after h =
    let (mid, first, rest) =
      ok-sequence (queue_each env c batch now rs db) (λ m. ok (mark_sent now rs m)) h in
    let same : mark_sent now rs mid ≡ after = ground arith in
    subst (λ (d : Mailing). Pointwise (QueuedOf now batch rs) db.recipients d.recipients) same
      (queue-rows env c batch now rs db mid first)

-- The ids of the recipients stay.
queue-ids :
    (env : Env) (c : Campaign) (batch now : ℕ) (rs : List Recipient) (db after : Mailing)
    → queue_each env c batch now rs db ≡ ok after
    → Keyed (λ (r : Recipient). r.id) db.recipients
    → Keyed (λ (r : Recipient). r.id) after.recipients
unfolding queue_each queue_as
queue-ids env c batch now [] db after h k =
    let same : db ≡ after = ground arith in
    subst (λ (d : Mailing). Keyed (λ (r : Recipient). r.id) d.recipients) same k
queue-ids env c batch now (r ∷ rs) db after h k =
    let (mid, first, rest) =
      ok-sequence (enqueue_recipient env c batch now r db) (queue_each env c batch now rs) h in
    let (q, rows) = enqueue-rows env c batch now r db mid first in
    queue-ids env c batch now rs mid after rest (
      subst (Keyed (λ (r : Recipient). r.id)) (sym rows)
        (update-Keyed _ (λ x. x.id == r.id) (queue_as q now batch) db.recipients (λ x. refl) k))

pub release-ids :
    (env : Env) (c : Campaign) (rs : List Recipient) (batch now : ℕ) (db after : Mailing)
    → release env c rs batch now db ≡ ok after
    → Keyed (λ (r : Recipient). r.id) db.recipients
    → Keyed (λ (r : Recipient). r.id) after.recipients
unfolding release mark_sent
release-ids env c rs batch now db after h k =
    let (mid, first, rest) =
      ok-sequence (queue_each env c batch now rs db) (λ m. ok (mark_sent now rs m)) h in
    let same : mark_sent now rs mid ≡ after = ground arith in
    subst (λ (d : Mailing). Keyed (λ (r : Recipient). r.id) d.recipients) same
      (queue-ids env c batch now rs db mid first k)

-- What the step may do to a row: nothing, or queue it, if it was pending in the campaign: a warm one
-- at any time, a cold one as one of `cold`, once the time of the next batch has come.
abbrev pub Released : Campaign → ℕ → List Recipient → Recipient → Recipient → Type 0
Released c now cold x z =
    (z ≡ x)
    ⊎ ((q : ℕ) × (waiting_in c.id x ≡ true) × (x.cold ≡ false) × (z ≡ queue_as q now 0 x))
    ⊎ ((q : ℕ) × (waiting_in c.id x ≡ true)
        × (x.cold ≡ true)
        × (is_time c.next_cold_batch_at now ≡ true)
        × (is_among (λ r. r.id) cold x ≡ true)
        × (z ≡ queue_as q now (c.warmup_step + 1) x))

pub warm-rows-waiting :
    (c : Campaign) (db : Mailing) (x : Recipient)
    → Keyed (λ (r : Recipient). r.id) db.recipients
    → In x db.recipients
    → is_among (λ r. r.id) (warm_rows c db) x ≡ true
    → warm_in c.id x ≡ true
unfolding warm_rows
warm-rows-waiting c db x k m h =
    let from = λ (r : Recipient) (mr : In r (warm_rows c db)).
      In-filter (warm_in c.id) r db.recipients (In-take campaign_release_chunk r _ mr) in
    (from x (among-In (λ r. r.id) (warm_rows c db) db.recipients x (λ r mr. (from r mr).0) k m h)).1

pub cold-rows-waiting :
    (c : Campaign) (db : Mailing) (x : Recipient)
    → Keyed (λ (r : Recipient). r.id) db.recipients
    → In x db.recipients
    → is_among (λ r. r.id) (cold_rows c db) x ≡ true
    → cold_in c.id x ≡ true
unfolding cold_rows
cold-rows-waiting c db x k m h =
    let from = λ (r : Recipient) (mr : In r (cold_rows c db)).
      pick-In created_before (batch_size c.warmup_step) (cold_in c.id) db.recipients r mr in
    (from x (among-In (λ r. r.id) (cold_rows c db) db.recipients x (λ r mr. (from r mr).0) k m h)).1

-- The rows of the cold batch.
abbrev pub ColdOf : Campaign → ℕ → List Recipient → Recipient → Recipient → Type 0
ColdOf c now cold y z =
    (z ≡ y)
    ⊎ ((q : ℕ) × (is_time c.next_cold_batch_at now ≡ true)
        × (is_among (λ r. r.id) cold y ≡ true)
        × (z ≡ queue_as q now (c.warmup_step + 1) y))

cold-some :
    (env : Env) (c : Campaign) (now n : ℕ) (rs : List Recipient) (db after : Mailing)
    → is_time c.next_cold_batch_at now ≡ true
    → release_cold env c now rs db ≡ ok (n, after)
    → Pointwise (ColdOf c now rs) db.recipients after.recipients
unfolding release_cold write_campaigns
cold-some env c now n [] db after time h =
    let same : db ≡ after = ground arith in
    subst (λ (d : Mailing). Pointwise (ColdOf c now []) db.recipients d.recipients) same
      (Pointwise-refl (ColdOf c now []) db.recipients (λ x. inl refl))
cold-some env c now n (r ∷ rs) db after time h =
    let (mid, first, rest) =
      ok-sequence (release env c (r ∷ rs) (c.warmup_step + 1) now db)
        (λ m. ok (length (r ∷ rs), write_campaigns (with_id c.id) (next_batch c.warmup_step now) m))
        h in
    let same : write_campaigns (with_id c.id) (next_batch c.warmup_step now) mid ≡ after =
      ground arith in
    subst (λ (d : Mailing). Pointwise (ColdOf c now (r ∷ rs)) db.recipients d.recipients) same
      (Pointwise-map (QueuedOf now (c.warmup_step + 1) (r ∷ rs)) (ColdOf c now (r ∷ rs))
        db.recipients mid.recipients
        (λ x y m s. elim s [ inl e ↦ inl e | inr (q, among, e) ↦ inr (q, time, among, e) ])
        (release-rows env c (r ∷ rs) (c.warmup_step + 1) now db mid first))

pub cold-batch-rows :
    (env : Env) (c : Campaign) (now n : ℕ) (db after : Mailing)
    → cold_batch env c now db ≡ ok (n, after)
    → Pointwise (ColdOf c now (cold_rows c db)) db.recipients after.recipients
unfolding cold_batch
cold-batch-rows env c now n db after h = elim (Bool-cases (is_time c.next_cold_batch_at now)) [
  | inl time ↦ cold-some env c now n (cold_rows c db) db after time (rw time at h)
  | inr early ↦
      let same : db ≡ after = ground arith in
      subst (λ (d : Mailing). Pointwise (ColdOf c now (cold_rows c db)) db.recipients d.recipients)
        same (Pointwise-refl (ColdOf c now (cold_rows c db)) db.recipients (λ x. inl refl))
]

pub length-cold_rows :
    (c : Campaign) (db : Mailing) → length (cold_rows c db) ≤ batch_size c.warmup_step
unfolding cold_rows
length-cold_rows c db =
    length-pick created_before (batch_size c.warmup_step) (cold_in c.id) db.recipients
