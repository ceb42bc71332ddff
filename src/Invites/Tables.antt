-- ===== src/Invites/Tables.antt =====
-- The tables that the invite service reads and writes, and the statement forms that it uses. Ids
-- are numbers and times are milliseconds; `now` is the clock that `new Date()` reads.
use alchemist_template.Common.{ℕ, Bool, ◌&&◌, Option, List, ◌==◌, is_none, find?, Text, eq_text}

pub record Invite : Type 0 where
  pub id : ℕ
  pub organization_id : ℕ
  pub invited_by : ℕ
  pub email : Text
  pub role : Text
  pub token : Text
  pub accepted_at : Option ℕ
  pub revoked_at : Option ℕ
  pub expires_at : ℕ
  pub created_at : ℕ

pub record User : Type 0 where
  pub id : ℕ
  pub email : Text
  pub name : Option Text
  pub role : Text
  pub organization_id : Option ℕ
  pub email_verified : Bool
  pub last_login_at : Option ℕ

pub record Organization : Type 0 where
  pub id : ℕ
  pub name : Text

pub record Database : Type 0 where
  pub invites : List Invite
  pub users : List User
  pub organizations : List Organization
  pub now : ℕ

-- `accepted_at IS NULL AND revoked_at IS NULL`
abbrev pub is_open : Invite → Bool
is_open v = is_none v.accepted_at && is_none v.revoked_at

-- The WHERE clause of the look for a pending invite, which is that of the unique index
-- `invites_pending_unique` too.
unfoldable pub is_open_for : ℕ → Text → Invite → Bool
is_open_for org email v = v.organization_id == org && (eq_text v.email email && is_open v)

unfoldable pub user_of : List User → ℕ → Option User
user_of users i = find? (λ u. u.id == i) users

unfoldable pub organization_of : List Organization → ℕ → Option Organization
organization_of orgs i = find? (λ o. o.id == i) orgs
