-- ===== src/Invites/Single.antt =====
-- The one use of an invite, over whole histories.
use alchemist_template.Common.{
  ℕ, ◌≡◌, refl, sym, subst, ◌≢◌, inl, inr, true, false, Option, none, some, List, ◌∷◌, arith,
  Bool-cases, Option-cases, any, Text, eq_text, to_lower, Result, update_where, update-All-split,
  Keyed-same, update-Keyed, ok, err,
}
use alchemist_template.Common.Members.{In, any-In, All-In}
use alchemist_template.Invites.Service.{InviteError}
use alchemist_template.Invites.Accept.{
  is_claimable_row, accepted_row, consume_invite, ResolvedInvite, accept_resolved, claim_resolved,
  sign_in, after_consume,
}
use alchemist_template.Invites.Rows.{RowsOk, RowOk}
use alchemist_template.Invites.History.{count}
use alchemist_template.Invites.Tables.{Database, Invite, User}

abbrev AfterUse : List ℕ → ℕ → Option Database → Type 0
AfterUse winners id none = Unit
AfterUse winners id (some after) = (count id winners ≡ 0) × RowsOk (id ∷ winners) after.invites

module _ (winners : List ℕ) (id : ℕ) (db : Database) (ok_rows : RowsOk winners db.invites) where
  used-RowOk :
      (now : ℕ) (w : Invite)
      → is_claimable_row id w ≡ true
      → RowOk winners w
      → RowOk (id ∷ winners) (accepted_row now w)
  unfolding accepted_row is_claimable_row
  used-RowOk now w h (unwon, role) = ((λ e. cc), role)

  other-RowOk :
      (v w : Invite)
      → In v db.invites
      → is_claimable_row id v ≡ true
      → In w db.invites
      → is_claimable_row id w ≡ false
      → RowOk winners w
      → RowOk (id ∷ winners) w
  unfolding is_claimable_row
  other-RowOk v w mv hv mw hw (unwon, role) =
      let apart : w.id ≢ id = λ e.
        let same =
          Keyed-same (λ (v : Invite). v.id) w v db.invites ok_rows.0 mw mv (ground arith) in
        let claimable : is_claimable_row id w ≡ true = rw same hv in cc in
      ((λ e. ground (arith, unwon e, apart)), role)

  unused_before :
      (v : Invite) → In v db.invites → is_claimable_row id v ≡ true → count id winners ≡ 0
  unfolding is_claimable_row
  unused_before v mv hv =
      let (unwon, role) = All-In (RowOk winners) v db.invites ok_rows.1 mv in
      let same : v.id ≡ id = ground arith in rw (← same) (unwon (ground arith))

  rows_after_use :
      (v : Invite)
      → In v db.invites
      → is_claimable_row id v ≡ true
      → RowsOk (id ∷ winners) (update_where (is_claimable_row id) (accepted_row db.now) db.invites)
  unfolding accepted_row
  rows_after_use v mv hv = (
    update-Keyed (λ v. v.id) (is_claimable_row id) (accepted_row db.now) db.invites (λ w. refl)
        ok_rows.0,
    update-All-split (RowOk (id ∷ winners)) (is_claimable_row id) (accepted_row db.now) db.invites
        (λ w mw hw. used-RowOk db.now w hw (All-In (RowOk winners) w db.invites ok_rows.1 mw))
        (λ w mw hw. other-RowOk v w mv hv mw hw (All-In (RowOk winners) w db.invites ok_rows.1 mw)),
  )

  pub consume-AfterUse : AfterUse winners id (consume_invite id db)
  unfolding consume_invite
  consume-AfterUse = elim (Bool-cases (any (is_claimable_row id) db.invites)) [
    | inr e ↦ rw e tt
    | inl e ↦
        let (v, mv, hv) = any-In (is_claimable_row id) db.invites e in
        rw e (unused_before v mv hv, rows_after_use v mv hv)
  ]

-- What a request was told, and the rows after it.
abbrev pub Told {ℓ} : {A : Type ℓ} → List ℕ → ℕ → Result InviteError A × Database → Type 0
Told winners id (err e, db) = RowsOk winners db.invites
Told winners id (ok a, db) = (count id winners ≡ 0) × RowsOk (id ∷ winners) db.invites

module _ (winners : List ℕ) (v : ResolvedInvite) (db : Database) where
  pub accept-Told :
      (user_id : ℕ) (email : Text)
      → RowsOk winners db.invites
      → Told winners v.id (accept_resolved v user_id email db)
  unfolding accept_resolved
  accept-Told user_id email rows =
      let used = consume-AfterUse winners v.id db rows in
      elim (Bool-cases (eq_text (to_lower v.email) (to_lower email))) [
        | inr other ↦ rw other rows
        | inl same ↦ elim (Option-cases (consume_invite v.id db)) [
          | inl e ↦ rw (same, e) rows
          | inr (after, e) ↦ rw (same, e) (rw e at used)
        ]
      ]

  sign_in_rows :
      (new_id : ℕ) (after : Database) (u : Option User)
      → (sign_in new_id v after u).1.invites ≡ after.invites
  unfolding sign_in
  sign_in_rows new_id after none = refl
  sign_in_rows new_id after (some u) = refl

  after_consume-Told :
      (new_id : ℕ) (o : Option Database)
      → RowsOk winners db.invites
      → AfterUse winners v.id o
      → Told winners v.id (after_consume new_id v db o)
  unfolding after_consume
  after_consume-Told new_id none rows used = rows
  after_consume-Told new_id (some after) rows used =
      (used.0, subst (RowsOk (v.id ∷ winners)) (sym (sign_in_rows new_id after _)) used.1)

  pub claim-Told :
      (new_id : ℕ) → RowsOk winners db.invites → Told winners v.id (claim_resolved new_id v db)
  unfolding claim_resolved
  claim-Told new_id rows =
      after_consume-Told new_id (consume_invite v.id db) rows
        (consume-AfterUse winners v.id db rows)
