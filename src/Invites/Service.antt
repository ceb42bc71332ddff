-- ===== src/Invites/Service.antt =====
-- createInvite, listPendingInvites and revokeInvite of src/services/invite.service.ts. Sending the
-- email changes no table, and its failure is ignored, so it is left out. New ids and tokens are
-- arguments. The statements of a creation are no transaction: `between i` is what other requests
-- commit, with the time that passes, before its statement i.
use alchemist_template.Common.{
  ℕ, ◌+◌, ◌*◌, Bool, not, ◌&&◌, Option, none, some, List, [], ◌∷◌, ◌++◌, ltb, leb, ◌==◌,
  if◌then◌else◌, is_some_eq, filter, find?, any, Text, eq_text, Result, update_where, ok, err,
}
use alchemist_template.Roles.{assignable_roles}
use alchemist_template.Invites.Tables.{User, Invite, Database, is_open, user_of, is_open_for}

-- INVITE_TTL_DAYS, in milliseconds
abbrev pub invite_ttl_ms : ℕ
invite_ttl_ms = 7 * 24 * 60 * 60 * 1000

pub data InviteError : Type 0 where
  invalid_role already_member already_pending : InviteError
  -- What the database throws: a second open invite, or a row that must exist and does not.
  index_conflict missing_row : InviteError
  unknown_token already_accepted revoked expired : InviteError
  other_email consumed : InviteError

pub record CreateInviteInput : Type 0 where
  pub organization_id : ℕ
  pub invited_by_user_id : ℕ
  pub email : Text
  pub role : Text

pub record PendingInvite : Type 0 where
  pub id : ℕ
  pub email : Text
  pub role : Text
  pub invited_by : ℕ
  pub invited_by_name : Option Text
  pub invited_by_email : Text
  pub expires_at : ℕ
  pub created_at : ℕ

-- The inner join with the inviter.
unfoldable pub pending_invite : Invite → User → PendingInvite
pending_invite v u = record {
  id = v.id;
  email = v.email;
  role = v.role;
  invited_by = v.invited_by;
  invited_by_name = u.name;
  invited_by_email = u.email;
  expires_at = v.expires_at;
  created_at = v.created_at;
}

unfoldable pub is_role : Text → List Text → Bool
is_role role roles = any (λ r. eq_text role r) roles

unfoldable pub is_member : CreateInviteInput → List User → Bool
is_member input users =
    any (λ u. eq_text u.email input.email && is_some_eq u.organization_id input.organization_id)
      users

unfoldable pub new_invite : ℕ → Text → CreateInviteInput → ℕ → Invite
new_invite id token input now = record {
  id = id;
  organization_id = input.organization_id;
  invited_by = input.invited_by_user_id;
  email = input.email;
  role = input.role;
  token = token;
  accepted_at = none;
  revoked_at = none;
  expires_at = now + invite_ttl_ms;
  created_at = now;
}

unfoldable pub revoke_row : ℕ → Invite → Invite
revoke_row now v = record v { revoked_at = some now }

-- The role, and the look for a member with the email: why a creation is refused.
unfoldable pub refused_at_once : CreateInviteInput → Database → Option InviteError
unfolding is_role is_member
refused_at_once input db =
    if not (is_role input.role assignable_roles)
    then some invalid_role
    else if is_member input db.users
    then some already_member
    else none

-- An open invite that has not expired is an error; one that has is to be revoked.
unfoldable pub open_or_expired : Option Invite → ℕ → Result InviteError (Option ℕ)
open_or_expired none now = ok none
open_or_expired (some v) now = if ltb now v.expires_at then err already_pending else ok (some v.id)

unfoldable pub find_expired : CreateInviteInput → Database → Result InviteError (Option ℕ)
unfolding open_or_expired
find_expired input db =
    open_or_expired (find? (is_open_for input.organization_id input.email) db.invites) db.now

-- The revocation of the expired invite, by its id alone.
unfoldable pub revoke_expired : Option ℕ → Database → Database
unfolding revoke_row
revoke_expired none db = db
revoke_expired (some id) db = record db {
  invites = update_where (λ w. w.id == id) (revoke_row db.now) db.invites;
}

-- The insert, which the partial unique index may refuse.
unfoldable pub insert_invite : Invite → Database → Option Database
insert_invite v db =
    if any (is_open_for v.organization_id v.email) db.invites
    then none
    else some (record db { invites = v ∷ db.invites })

-- What the caller is told, once the row is written.
unfoldable pub created_reply : Invite → Option User → Result InviteError PendingInvite
unfolding pending_invite
created_reply v none = err missing_row
created_reply v (some inviter) = ok (pending_invite v inviter)

-- Given the database before the insert, and the insert.
unfoldable pub after_insert :
    Invite
    → (Database → Database)
    → Database
    → Option Database
    → Result InviteError PendingInvite × Database
unfolding created_reply
after_insert v between db none = (err index_conflict, db)
after_insert v between db (some written) =
    let after = between written in (created_reply v (user_of after.users v.invited_by), after)

-- The revocation and the insert, each in a statement of its own.
unfoldable pub after_find :
    ℕ
    → Text
    → CreateInviteInput
    → (ℕ → Database → Database)
    → Database
    → Result InviteError (Option ℕ)
    → Result InviteError PendingInvite × Database
unfolding new_invite revoke_expired insert_invite after_insert
after_find id token input between db (err e) = (err e, db)
after_find id token input between db (ok found) =
    let cleared = between 3 (revoke_expired found (between 2 db)) in
    let v = new_invite id token input cleared.now in
    after_insert v (between 4) cleared (insert_invite v cleared)

unfoldable pub after_member :
    ℕ
    → Text
    → CreateInviteInput
    → (ℕ → Database → Database)
    → Database
    → Option InviteError
    → Result InviteError PendingInvite × Database
unfolding find_expired after_find
after_member id token input between db (some e) = (err e, db)
after_member id token input between db none =
    let looked = between 1 db in
    after_find id token input between looked (find_expired input looked)

unfoldable pub create_invite :
    ℕ
    → Text
    → CreateInviteInput
    → (ℕ → Database → Database)
    → Database
    → Result InviteError PendingInvite × Database
unfolding refused_at_once after_member
create_invite id token input between db =
    after_member id token input between db (refused_at_once input db)

unfoldable pub is_listed : ℕ → ℕ → Invite → Bool
is_listed org now v = v.organization_id == org && (is_open v && ltb now v.expires_at)

-- `ORDER BY created_at DESC`
insert_newest : Invite → List Invite → List Invite
insert_newest v [] = v ∷ []
insert_newest v (w ∷ ws) =
    if leb w.created_at v.created_at then v ∷ w ∷ ws else w ∷ insert_newest v ws

unfoldable pub newest_first : List Invite → List Invite
unfolding insert_newest
newest_first [] = []
newest_first (v ∷ vs) = insert_newest v (newest_first vs)

unfoldable pub join_inviter : Invite → Option User → List PendingInvite
unfolding pending_invite
join_inviter v none = []
join_inviter v (some u) = pending_invite v u ∷ []

unfoldable pub join_inviters : List User → List Invite → List PendingInvite
unfolding join_inviter
join_inviters users [] = []
join_inviters users (v ∷ vs) = join_inviter v (user_of users v.invited_by) ++ join_inviters users vs

unfoldable pub list_pending_invites : ℕ → Database → List PendingInvite
unfolding is_listed newest_first join_inviters
list_pending_invites org db =
    join_inviters db.users (newest_first (filter (is_listed org db.now) db.invites))

unfoldable pub is_revocable : ℕ → ℕ → Invite → Bool
is_revocable id org v = v.id == id && (v.organization_id == org && is_open v)

unfoldable pub revoke_invite : ℕ → ℕ → Database → Database
unfolding is_revocable revoke_row
revoke_invite id org db = record db {
  invites = update_where (is_revocable id org) (revoke_row db.now) db.invites;
}
