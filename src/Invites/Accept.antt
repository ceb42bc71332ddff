-- ===== src/Invites/Accept.antt =====
-- resolveInviteByToken, acceptInvite and claimInvite of src/services/invite.service.ts. What other
-- requests commit after the invite is resolved is an argument, and so are new ids.
use alchemist_template.Common.{
  ℕ, Bool, true, not, ◌&&◌, Option, none, some, ◌∷◌, ltb, ◌==◌, if◌then◌else◌, is_none, find?, any,
  Text, eq_text, to_lower, Result, ◌>>=◌, update_where, ok, err,
}
use alchemist_template.Invites.Service.{
  InviteError, other_email, already_accepted, consumed, unknown_token, revoked, expired,
}
use alchemist_template.Invites.Tables.{
  Database, User, Invite, Organization, is_open, organization_of, user_of,
}

pub record ResolvedInvite : Type 0 where
  pub id : ℕ
  pub organization_id : ℕ
  pub organization_name : Text
  pub email : Text
  pub role : Text
  pub expires_at : ℕ
  pub invited_by_name : Option Text
  pub invited_by_email : Text

-- The three tests on the row, in the order of the code.
unfoldable pub live_or_error : ℕ → Invite → Result InviteError Invite
live_or_error now v =
    if not (is_none v.accepted_at)
    then err already_accepted
    else if not (is_none v.revoked_at)
    then err revoked
    else if ltb v.expires_at now
    then err expired
    else ok v

-- The row that the inner joins with the organisation and the inviter give.
unfoldable pub resolved_row :
    Invite → Option Organization → Option User → Result InviteError ResolvedInvite
resolved_row v (some o) (some u) = ok (record {
  id = v.id;
  organization_id = v.organization_id;
  organization_name = o.name;
  email = v.email;
  role = v.role;
  expires_at = v.expires_at;
  invited_by_name = u.name;
  invited_by_email = u.email;
})
resolved_row v _ _ = err unknown_token

unfoldable pub resolve_found : Database → Option Invite → Result InviteError ResolvedInvite
unfolding live_or_error resolved_row
resolve_found db none = err unknown_token
resolve_found db (some v) =
    resolved_row v (organization_of db.organizations v.organization_id)
      (user_of db.users v.invited_by)
    >>= λ row. live_or_error db.now v >>= λ live. ok row

unfoldable pub resolve_invite_by_token : Text → Database → Result InviteError ResolvedInvite
unfolding resolve_found
resolve_invite_by_token token db = resolve_found db (find? (λ v. eq_text v.token token) db.invites)

unfoldable pub is_claimable_row : ℕ → Invite → Bool
is_claimable_row id v = v.id == id && is_open v

unfoldable pub accepted_row : ℕ → Invite → Invite
accepted_row now v = record v { accepted_at = some now }

-- The conditional update that one of several concurrent requests wins.
unfoldable pub consume_invite : ℕ → Database → Option Database
unfolding is_claimable_row accepted_row
consume_invite id db =
    if any (is_claimable_row id) db.invites
    then some (record db {
      invites = update_where (is_claimable_row id) (accepted_row db.now) db.invites;
    })
    else none

unfoldable pub place_user : ResolvedInvite → User → User
place_user v u = record u { organization_id = some v.organization_id; role = v.role }

-- acceptInvite, once the invite is resolved.
unfoldable pub accept_resolved :
    ResolvedInvite → ℕ → Text → Database → Result InviteError (ℕ × Text) × Database
unfolding consume_invite place_user
accept_resolved v user_id email db =
    if not (eq_text (to_lower v.email) (to_lower email))
    then (err other_email, db)
    else elim (consume_invite v.id db) [
      | none ↦ (err consumed, db)
      | some after ↦ (
        ok (v.organization_id, v.role),
        record after { users = update_where (λ u. u.id == user_id) (place_user v) after.users },
      )
    ]

unfoldable pub accept_invite :
    Text → ℕ → Text → (Database → Database) → Database → Result InviteError (ℕ × Text) × Database
unfolding accept_resolved
accept_invite token user_id email meanwhile db = elim (resolve_invite_by_token token db) [
  | err e ↦ (err e, db)
  | ok v ↦ accept_resolved v user_id email (meanwhile db)
]

pub record ClaimedInvite : Type 0 where
  pub user_id : ℕ
  pub email : Text
  pub name : Option Text
  pub organization_id : ℕ
  pub role : Text

unfoldable pub signed_in : ResolvedInvite → ℕ → User → User
unfolding place_user
signed_in v now u = record (place_user v u) { email_verified = true; last_login_at = some now }

unfoldable pub new_user : ℕ → ResolvedInvite → ℕ → User
new_user id v now = record {
  id = id;
  email = v.email;
  name = none;
  role = v.role;
  organization_id = some v.organization_id;
  email_verified = true;
  last_login_at = some now;
}

-- The account of the invite's email, found or created.
unfoldable pub sign_in : ℕ → ResolvedInvite → Database → Option User → ClaimedInvite × Database
unfolding signed_in new_user
sign_in new_id v db (some u) = (
  record {
    user_id = u.id;
    email = v.email;
    name = u.name;
    organization_id = v.organization_id;
    role = v.role;
  },
  record db { users = update_where (λ w. w.id == u.id) (signed_in v db.now) db.users },
)
sign_in new_id v db none = (
  record {
    user_id = new_id;
    email = v.email;
    name = none;
    organization_id = v.organization_id;
    role = v.role;
  },
  record db { users = new_user new_id v db.now ∷ db.users },
)

-- What follows the conditional update of a claim: another request was first, or it is ours.
unfoldable pub after_consume :
    ℕ → ResolvedInvite → Database → Option Database → Result InviteError ClaimedInvite × Database
unfolding sign_in
after_consume new_id v db none = (err consumed, db)
after_consume new_id v db (some after) =
    let last = sign_in new_id v after (find? (λ u. eq_text u.email v.email) after.users) in
    (ok last.0, last.1)

-- claimInvite, once the invite is resolved.
unfoldable pub claim_resolved :
    ℕ → ResolvedInvite → Database → Result InviteError ClaimedInvite × Database
unfolding consume_invite after_consume
claim_resolved new_id v db = after_consume new_id v db (consume_invite v.id db)

unfoldable pub claim_invite :
    ℕ → Text → (Database → Database) → Database → Result InviteError ClaimedInvite × Database
unfolding claim_resolved
claim_invite new_id token meanwhile db = elim (resolve_invite_by_token token db) [
  | err e ↦ (err e, db)
  | ok v ↦ claim_resolved new_id v (meanwhile db)
]
