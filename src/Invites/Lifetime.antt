-- ===== src/Invites/Lifetime.antt =====
-- What the link of a new invite opens, until it is revoked or expires.
use alchemist_template.Common.{
  ℕ, ◌+◌, ◌≡◌, refl, ◌∙◌, subst, inl, inr, Option, none, some, List, ◌∷◌, arith, leb, if◌then◌else◌,
  Bool-cases, any, Text, eq_text_self, Result, ◌>>=◌, update_where, ok, err,
}
use alchemist_template.Invites.Accept.{
  resolve_invite_by_token, resolve_found, resolved_row, live_or_error, ResolvedInvite,
}
use alchemist_template.Invites.Tables.{
  Invite, Database, Organization, User, is_open_for, user_of, organization_of,
}
use alchemist_template.Invites.Service.{
  create_invite, CreateInviteInput, InviteError, created_reply, new_invite, after_insert,
  after_find, after_member, find_expired, refused_at_once, insert_invite, revoke_expired,
  PendingInvite, invite_ttl_ms, revoke_invite, expired, is_revocable, revoke_row, revoked,
}

-- A creation that succeeded put the row first, as of the time of the insert.
abbrev Made : ℕ → Text → CreateInviteInput → Result InviteError PendingInvite × Database → Type 0
Made id token input (err e, after) = Unit
Made id token input (ok r, after) =
    (rows : List Invite) × (after.invites ≡ new_invite id token input after.now ∷ rows)

module _ (id : ℕ) (token : Text) (input : CreateInviteInput) (between : ℕ → Database → Database)
    (quiet : (d : Database) → between 4 d ≡ d) where
  reply-Made :
      (after : Database) (rows : List Invite) (v : Invite) (o : Option User)
      → after.invites ≡ new_invite id token input after.now ∷ rows
      → Made id token input (created_reply v o, after)
  unfolding created_reply
  reply-Made after rows v none e = tt
  reply-Made after rows v (some u) e = (rows, e)

  insert-Made :
      (db : Database)
      → let v = new_invite id token input db.now in
        Made id token input (after_insert v (between 4) db (insert_invite v db))
  unfolding after_insert insert_invite
  insert-Made db =
      let v = new_invite id token input db.now in
      elim (Bool-cases (any (is_open_for v.organization_id v.email) db.invites)) [
        | inl taken ↦ rw (taken, Made) tt
        | inr free ↦
            let written = record db { invites = v ∷ db.invites } in
            rw (free, quiet written)
              (reply-Made written db.invites v (user_of written.users v.invited_by) refl)
      ]

  find-Made :
      (db : Database) (r : Result InviteError (Option ℕ))
      → Made id token input (after_find id token input between db r)
  unfolding after_find
  find-Made db (err e) = tt
  find-Made db (ok found) = insert-Made (between 3 (revoke_expired found (between 2 db)))

  member-Made :
      (db : Database) (o : Option InviteError)
      → Made id token input (after_member id token input between db o)
  unfolding after_member
  member-Made db (some e) = tt
  member-Made db none = find-Made (between 1 db) (find_expired input (between 1 db))

  create-Made : (db : Database) → Made id token input (create_invite id token input between db)
  unfolding create_invite
  create-Made db = member-Made db (refused_at_once input db)

-- What a row at the head of the table with the token resolves to.
module _ (v : Invite) (rows : List Invite) (db : Database) (o : Organization) (u : User) where
  resolve-head :
      db.invites ≡ v ∷ rows
      → organization_of db.organizations v.organization_id ≡ some o
      → user_of db.users v.invited_by ≡ some u
      → resolve_invite_by_token v.token db ≡ (
          live_or_error db.now v >>= λ live. ok (record {
            id = v.id;
            organization_id = v.organization_id;
            organization_name = o.name;
            email = v.email;
            role = v.role;
            expires_at = v.expires_at;
            invited_by_name = u.name;
            invited_by_email = u.email;
          }))
  unfolding resolve_invite_by_token resolve_found resolved_row
  resolve-head e eo eu = rw (e, eq_text_self v.token, eo, eu) refl

module _ (id : ℕ) (token : Text) (input : CreateInviteInput) (db : Database) where
  -- What an invite of this time resolves to.
  abbrev pub opened : Organization → User → ResolvedInvite
  opened o u = record {
    id = id;
    organization_id = input.organization_id;
    organization_name = o.name;
    email = input.email;
    role = input.role;
    expires_at = db.now + invite_ttl_ms;
    invited_by_name = u.name;
    invited_by_email = u.email;
  }

  opens_until :
      (rows : List Invite) (o : Organization) (u : User) (ms : ℕ)
      → db.invites ≡ new_invite id token input db.now ∷ rows
      → organization_of db.organizations input.organization_id ≡ some o
      → user_of db.users input.invited_by_user_id ≡ some u
      → resolve_invite_by_token token (record db { now = db.now + ms })
        ≡ (if leb ms invite_ttl_ms then ok (opened o u) else err expired)
  unfolding new_invite live_or_error
  opens_until rows o u ms e eo eu =
      resolve-head (new_invite id token input db.now) rows _ o u e eo eu ∙ ground arith

  refuses_revoked :
      (rows : List Invite) (o : Organization) (u : User)
      → db.invites ≡ new_invite id token input db.now ∷ rows
      → organization_of db.organizations input.organization_id ≡ some o
      → user_of db.users input.invited_by_user_id ≡ some u
      → resolve_invite_by_token token (revoke_invite id input.organization_id db) ≡ err revoked
  unfolding new_invite live_or_error revoke_invite is_revocable revoke_row update_where
  refuses_revoked rows o u e eo eu =
      resolve-head (revoke_row db.now (new_invite id token input db.now))
        (update_where (is_revocable id input.organization_id) (revoke_row db.now) rows) _ o u
        (rw e (ground arith)) eo eu

-- Whatever other requests commit between the statements of a creation, unless they do so between the
-- insert and the reply: the link of an invite that was just created opens it, with the role, the email
-- and the organisation that were asked for, for seven days from the insert and no longer, and not once
-- it is revoked.
pub create_opens :
    (id : ℕ) (token : Text) (input : CreateInviteInput) (between : ℕ → Database → Database)
    (db : Database)
    → ((d : Database) → between 4 d ≡ d)
    → (r : PendingInvite) (after : Database) (o : Organization) (u : User)
    → create_invite id token input between db ≡ (ok r, after)
    → organization_of after.organizations input.organization_id ≡ some o
    → user_of after.users input.invited_by_user_id ≡ some u
    → ((ms : ℕ)
        → resolve_invite_by_token token (record after { now = after.now + ms })
          ≡ (if leb ms invite_ttl_ms then ok (opened id token input after o u) else err expired))
      × (resolve_invite_by_token token (revoke_invite id input.organization_id after) ≡ err revoked)
create_opens id token input between db quiet r after o u h eo eu =
    let (rows, shape) =
      subst (Made id token input) h (create-Made id token input between quiet db) in
    (
      λ ms. opens_until id token input after rows o u ms shape eo eu,
      refuses_revoked id token input after rows o u shape eo eu,
    )
