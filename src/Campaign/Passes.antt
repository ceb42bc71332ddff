-- ===== src/Campaign/Passes.antt =====
-- The queries of the snapshot that skip recipients.
use alchemist_template.Common.{
  ℕ, ◌≡◌, refl, ◌∙◌, ◌≢◌, ◌⊎◌, inl, inr, true, false, ◌&&◌, ◌||◌, Option, none, some, List, [], ◌∷◌,
  ◌++◌, arith, ◌==◌, Bool-cases, Option-cases, is_some_eq, is_none, or_else, take, find?, any, All,
  Text, codes, eq_text, eq_text_iff, update-All-split,
}
use alchemist_template.Common.Members.{All-In}
use alchemist_template.Campaign.Tables.{
  pending, queued, bounced, complained, RecipientStatus, Campaign, Mailing, Recipient, Contact,
  Suppression, skipped,
}
use alchemist_template.Campaign.Snapshot.{
  is_waiting, insert_recipient, Env, waiting_in, insert_recipients, skip_suppressed, skip_unfit,
  is_suppressed, is_unfit, skip, suppresses, is_listed, has_recipient, suppression_reason,
}

-- The suppression is of this address, app-wide or in this workspace.
abbrev pub Suppresses : ℕ → Text → Suppression → Type 0
Suppresses org email s =
    (s.email ≡ email) × ((s.organization_id ≡ none) ⊎ (s.organization_id ≡ some org))

-- A recipient that is pending is not suppressed, and the hygiene check has nothing against it.
abbrev pub Fit : Env → Campaign → List Suppression → Recipient → Type 0
Fit env c ss r =
    (r.campaign_id ≢ c.id)
    ⊎ (r.status ≢ pending)
    ⊎ (All (λ s. ¬ Suppresses c.organization_id r.email s) ss × (env.check_address r.email ≡ none))

-- The same by the tests of the queries.
pub Passes : Env → Campaign → List Suppression → Recipient → Type 0
Passes env c ss r =
    (waiting_in c.id r ≡ false)
    ⊎ ((any (suppresses c.organization_id r.email) ss ≡ false) × (env.check_address r.email ≡ none))

organization_test :
    (o : Option ℕ) (org : ℕ)
    → (is_none o || is_some_eq o org) ≡ false
    → ¬ ((o ≡ none) ⊎ (o ≡ some org))
organization_test none org h e = cc
organization_test (some x) org h (inl e) = cc
organization_test (some x) org h (inr e) = ground arith

not_any-Suppresses :
    (org : ℕ) (email : Text) (ss : List Suppression)
    → any (suppresses org email) ss ≡ false
    → All (λ s. ¬ Suppresses org email s) ss
unfolding suppresses
not_any-Suppresses org email [] h = tt
not_any-Suppresses org email (s ∷ ss) h = (
  λ e.
      let same : eq_text s.email email ≡ true = (eq_text_iff s.email email).1 e.0 in
      organization_test s.organization_id org (ground arith) e.1,
  not_any-Suppresses org email ss (ground arith),
)

waiting_test :
    (t : RecipientStatus) (a b : ℕ) → ((a == b) && is_waiting t) ≡ false → (a ≢ b) ⊎ (t ≢ pending)
waiting_test pending a b h = inl (λ e. absurd (ground arith))
waiting_test queued a b h = inr (λ e. cc)
waiting_test skipped a b h = inr (λ e. cc)
waiting_test bounced a b h = inr (λ e. cc)
waiting_test complained a b h = inr (λ e. cc)

pub Passes-Fit :
    (env : Env) (c : Campaign) (ss : List Suppression) (r : Recipient)
    → Passes env c ss r
    → Fit env c ss r
unfolding Passes
Passes-Fit env c ss r (inl w) = elim (waiting_test r.status r.campaign_id c.id w) [
  | inl other ↦ inl other
  | inr over ↦ inr (inl over)
]
Passes-Fit env c ss r (inr (u, fine)) =
    inr (inr (not_any-Suppresses c.organization_id r.email ss u, fine))

-- A contact on the list has a recipient row.
abbrev pub Covered : Campaign → List Recipient → Contact → Type 0
Covered c rs x = (is_listed c.organization_id x ≡ false) ⊎ (has_recipient c.id x.id rs ≡ true)

pub Unsuppressed : Campaign → List Suppression → Recipient → Type 0
Unsuppressed c ss r =
    (waiting_in c.id r ≡ false) ⊎ (any (suppresses c.organization_id r.email) ss ≡ false)

insert_one-others :
    (c : Campaign) (x : Contact) (db : Mailing)
    → (insert_recipient c x db).suppressions ≡ db.suppressions
unfolding insert_recipient
insert_one-others c x db = ground arith

pub insert-others :
    (c : Campaign) (xs : List Contact) (db : Mailing)
    → (insert_recipients c xs db).suppressions ≡ db.suppressions
unfolding insert_recipients
insert-others c [] db = refl
insert-others c (x ∷ xs) db =
    insert-others c xs (insert_recipient c x db) ∙ insert_one-others c x db

pub suppressed-Unsuppressed :
    (c : Campaign) (db : Mailing)
    → All (Unsuppressed c db.suppressions) (skip_suppressed c db).recipients
unfolding skip_suppressed Unsuppressed
suppressed-Unsuppressed c db =
    update-All-split (Unsuppressed c db.suppressions) (is_suppressed c db.suppressions)
      (λ r.
        skip (suppression_reason (find? (suppresses c.organization_id r.email) db.suppressions)) r)
      db.recipients (λ r m h. inl (ground arith))
      (λ r m h. elim (Bool-cases (waiting_in c.id r)) [
        | inl w ↦ inr (ground arith)
        | inr w ↦ inl w
      ])

pub unfit-Passes :
    (env : Env) (c : Campaign) (ss : List Suppression) (db : Mailing)
    → All (Unsuppressed c ss) db.recipients
    → All (Passes env c ss) (skip_unfit env c db).recipients
unfolding skip_unfit Unsuppressed Passes
unfit-Passes env c ss db h =
    update-All-split (Passes env c ss) (is_unfit env c)
      (λ r. skip (take 500 (codes "Email " ++ or_else (env.check_address r.email) [])) r)
      db.recipients (λ r m e. inl (ground arith))
      (λ r m e. elim (All-In (Unsuppressed c ss) r db.recipients h m) [
        | inl w ↦ inl w
        | inr u ↦ elim (Option-cases (env.check_address r.email)) [
          | inl none_found ↦ inr (u, none_found)
          | inr (reason, found) ↦ inl (ground arith)
        ]
      ])
