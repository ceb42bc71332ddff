-- ===== src/Invites/Rows.antt =====
-- The rows of `invites` under creations and revocations.
use alchemist_template.Common.{
  ℕ, ◌≡◌, refl, ◌≢◌, inl, inr, Bool, true, Option, none, some, List, arith, ◌==◌, Bool-cases,
  is_none, any, All, Text, eq_text, eq_text_iff, update_where, update-All, Keyed, update-Keyed,
}
use alchemist_template.Common.Members.{In, any-In}
use alchemist_template.Roles.{assignable_roles}
use alchemist_template.Invites.History.{count}
use alchemist_template.Invites.Tables.{Invite, Database, is_open_for}
use alchemist_template.Invites.Service.{
  revoke_invite, revoke_row, is_revocable, insert_invite, new_invite, CreateInviteInput, is_role,
  refused_at_once, revoke_expired,
}

-- A row of the table, given the invites that were used.
abbrev pub RowOk : List ℕ → Invite → Type 0
RowOk winners v =
    (is_none v.accepted_at ≡ true → count v.id winners ≡ 0) × In v.role assignable_roles

abbrev pub RowsOk : List ℕ → List Invite → Type 0
RowsOk winners vs = Keyed (λ v. v.id) vs × All (RowOk winners) vs

revoke_some :
    (winners : List ℕ) (p : Invite → Bool) (now : ℕ) (vs : List Invite)
    → RowsOk winners vs
    → RowsOk winners (update_where p (revoke_row now) vs)
unfolding revoke_row
revoke_some winners p now vs (keys, rows) = (
  update-Keyed (λ v. v.id) p (revoke_row now) vs (λ v. refl) keys,
  update-All (RowOk winners) p (revoke_row now) vs (λ v h ok_row. ok_row) rows,
)

pub revoke-RowsOk :
    (winners : List ℕ) (id org : ℕ) (db : Database)
    → RowsOk winners db.invites
    → RowsOk winners (revoke_invite id org db).invites
unfolding revoke_invite
revoke-RowsOk winners id org db ok_rows =
    revoke_some winners (is_revocable id org) db.now db.invites ok_rows

pub expired-RowsOk :
    (winners : List ℕ) (found : Option ℕ) (db : Database)
    → RowsOk winners db.invites
    → RowsOk winners (revoke_expired found db).invites
unfolding revoke_expired
expired-RowsOk winners none db ok_rows = ok_rows
expired-RowsOk winners (some id) db ok_rows =
    revoke_some winners (λ w. w.id == id) db.now db.invites ok_rows

role-In : (role : Text) (roles : List Text) → is_role role roles ≡ true → In role roles
unfolding is_role
role-In role roles h =
    let (r, m, e) = any-In (λ r. eq_text role r) roles h in rw ((eq_text_iff role r).0 e) m

-- A creation that goes on past the first statement has an assignable role.
pub begun-In :
    (input : CreateInviteInput) (db : Database)
    → refused_at_once input db ≡ none
    → In input.role assignable_roles
unfolding refused_at_once
begun-In input db h = role-In input.role assignable_roles (ground arith)

abbrev pub RowsAfter : List ℕ → Option Database → Type 0
RowsAfter winners none = Unit
RowsAfter winners (some db) = RowsOk winners db.invites

pub insert-RowsAfter :
    (winners : List ℕ) (id : ℕ) (token : Text) (input : CreateInviteInput) (db : Database)
    → In input.role assignable_roles
    → All (λ v. id ≢ v.id) db.invites
    → count id winners ≡ 0
    → RowsOk winners db.invites
    → RowsAfter winners (insert_invite (new_invite id token input db.now) db)
unfolding insert_invite new_invite
insert-RowsAfter winners id token input db role fresh unused rows =
    elim (Bool-cases (any (is_open_for input.organization_id input.email) db.invites)) [
      | inl taken ↦ rw taken tt
      | inr free ↦ rw free ((fresh, rows.0), (((λ h. unused), role), rows.1))
    ]
