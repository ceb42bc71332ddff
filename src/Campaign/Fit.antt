-- ===== src/Campaign/Fit.antt =====
-- Whom the snapshot of a campaign leaves to be mailed.
use alchemist_template.Common.{
  ℕ, ◌≡◌, refl, subst, inl, inr, Bool, true, not, ◌&&◌, List, [], ◌∷◌, ◌++◌, arith, Bool-cases, All,
  All-pointwise, update_where,
}
use alchemist_template.Campaign.Tables.{Campaign, Mailing, Recipient, Contact}
use alchemist_template.Campaign.Snapshot.{
  insert_recipient, Env, snapshot_recipients, insert_recipients, skip_suppressed, skip_unfit,
  is_suppressed, is_unfit, is_listed, has_recipient, new_recipient,
}
use alchemist_template.Campaign.Passes.{
  Fit, Passes, Passes-Fit, Covered, Unsuppressed, insert-others, suppressed-Unsuppressed,
  unfit-Passes,
}

-- Appended rows and updates that keep the ids leave contacts covered.
has-append :
    (campaign contact : ℕ) (rs ss : List Recipient)
    → has_recipient campaign contact rs ≡ true
    → has_recipient campaign contact (rs ++ ss) ≡ true
has-append campaign contact [] ss h = absurd (cc)
has-append campaign contact (r ∷ rs) ss h = ground (arith, has-append campaign contact rs ss)

has-last :
    (campaign contact : ℕ) (rs : List Recipient) (r : Recipient)
    → r.campaign_id ≡ campaign
    → r.contact_id ≡ contact
    → has_recipient campaign contact (rs ++ r ∷ []) ≡ true
has-last campaign contact [] r e f = ground arith
has-last campaign contact (x ∷ rs) r e f = ground (arith, has-last campaign contact rs r e f)

has-update :
    (campaign contact : ℕ) (p : Recipient → Bool) (f : Recipient → Recipient) (rs : List Recipient)
    → ((r : Recipient) → ((f r).campaign_id ≡ r.campaign_id) × ((f r).contact_id ≡ r.contact_id))
    → has_recipient campaign contact rs ≡ true
    → has_recipient campaign contact (update_where p f rs) ≡ true
unfolding update_where
has-update campaign contact p f [] same h = absurd (cc)
has-update campaign contact p f (r ∷ rs) same h =
    ground (arith, same r, has-update campaign contact p f rs same)

insert_one-has :
    (c : Campaign) (x : Contact) (db : Mailing) (contact : ℕ)
    → has_recipient c.id contact db.recipients ≡ true
    → has_recipient c.id contact (insert_recipient c x db).recipients ≡ true
unfolding insert_recipient
insert_one-has c x db contact h =
    let new : List Recipient = new_recipient db.next db.clock c.id x ∷ [] in
    elim (Bool-cases
      (is_listed c.organization_id x && not (has_recipient c.id x.id db.recipients))) [
        | inl e ↦ rw (e, insert_recipient) (has-append c.id contact db.recipients new h)
        | inr e ↦ rw (e, insert_recipient) h
      ]

insert_one-Covered :
    (c : Campaign) (x : Contact) (db : Mailing) → Covered c (insert_recipient c x db).recipients x
unfolding insert_recipient new_recipient
insert_one-Covered c x db = elim (Bool-cases (is_listed c.organization_id x)) [
  | inr out ↦ inl out
  | inl listed ↦ elim (Bool-cases (has_recipient c.id x.id db.recipients)) [
    | inl has ↦ inr (insert_one-has c x db x.id has)
    | inr new ↦ inr (
        rw (listed, new, insert_recipient)
          (has-last c.id x.id db.recipients (new_recipient db.next db.clock c.id x) refl refl))
  ]
]

insert-has :
    (c : Campaign) (xs : List Contact) (db : Mailing) (contact : ℕ)
    → has_recipient c.id contact db.recipients ≡ true
    → has_recipient c.id contact (insert_recipients c xs db).recipients ≡ true
unfolding insert_recipients
insert-has c [] db contact h = h
insert-has c (x ∷ xs) db contact h =
    insert-has c xs (insert_recipient c x db) contact (insert_one-has c x db contact h)

insert-Covered :
    (c : Campaign) (xs : List Contact) (db : Mailing)
    → All (Covered c (insert_recipients c xs db).recipients) xs
unfolding insert_recipients
insert-Covered c [] db = tt
insert-Covered c (x ∷ xs) db =
    let more = insert_recipient c x db in
    (
      elim (insert_one-Covered c x db) [
        | inl out ↦ inl out
        | inr has ↦ inr (insert-has c xs more x.id has)
      ],
      insert-Covered c xs more,
    )

skips-has :
    (env : Env) (c : Campaign) (db : Mailing) (contact : ℕ)
    → has_recipient c.id contact db.recipients ≡ true
    → has_recipient c.id contact (skip_unfit env c (skip_suppressed c db)).recipients ≡ true
unfolding skip_unfit skip_suppressed
skips-has env c db contact h =
    has-update c.id contact (is_unfit env c) _ (skip_suppressed c db).recipients (λ r. (refl, refl))
      (has-update c.id contact (is_suppressed c db.suppressions) _ db.recipients (λ r. (refl, refl))
        h)

-- The snapshot of a campaign: every contact that is subscribed to the workspace's list has a
-- recipient row, and every recipient that is left pending is neither suppressed, in the workspace or
-- app-wide, nor refused by the hygiene check.
pub snapshot-Fit :
    (env : Env) (c : Campaign) (db : Mailing)
    → All (Covered c (snapshot_recipients env c db).recipients) db.contacts
      × All (Fit env c db.suppressions) (snapshot_recipients env c db).recipients
unfolding snapshot_recipients
snapshot-Fit env c db =
    let inserted = insert_recipients c db.contacts db in
    let screened = skip_suppressed c inserted in
    let others : inserted.suppressions ≡ db.suppressions = insert-others c db.contacts db in
    (
      All-pointwise (Covered c inserted.recipients)
          (Covered c (skip_unfit env c screened).recipients)
          (λ x h. elim h [ inl out ↦ inl out | inr has ↦ inr (skips-has env c inserted x.id has) ])
          db.contacts (insert-Covered c db.contacts db),
      All-pointwise (Passes env c db.suppressions) (Fit env c db.suppressions)
          (Passes-Fit env c db.suppressions) (skip_unfit env c screened).recipients
          (unfit-Passes env c db.suppressions screened (
            subst (λ ss. All (Unsuppressed c ss) screened.recipients) others
              (suppressed-Unsuppressed c inserted))),
    )
