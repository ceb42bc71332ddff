-- ===== src/Roles.antt =====
-- src/lib/roles.ts: the role hierarchy and the permission tests. A role is a text, as in the
-- source, since the database may hold any. Keys of JavaScript's Object.prototype, which an object
-- literal answers to, are not treated apart: they name no role.
pub mod Permissions
mod Examples
use alchemist_template.Common.{
  ℕ, ◌-◌, Bool, true, false, not, ◌&&◌, List, [], ◌∷◌, leb, if◌then◌else◌, Text, codes, eq_text,
}

abbrev pub owner : Text
owner = codes "owner"

abbrev pub admin : Text
admin = codes "admin"

abbrev pub editor : Text
editor = codes "editor"

abbrev pub member : Text
member = codes "member"

abbrev pub viewer : Text
viewer = codes "viewer"

-- ASSIGNABLE_ROLES
abbrev pub assignable_roles : List Text
assignable_roles = admin ∷ editor ∷ viewer ∷ []

pub data Capability : Type 0 where
  team_invite team_update_role team_remove : Capability
  org_update org_transfer_ownership : Capability
  billing_manage files_review email_broadcast app_write app_read : Capability

-- CAPABILITY_MIN_ROLE
pub capability_min_role : Capability → Text
capability_min_role team_invite = admin
capability_min_role team_update_role = admin
capability_min_role team_remove = admin
capability_min_role org_update = admin
capability_min_role org_transfer_ownership = owner
capability_min_role billing_manage = admin
capability_min_role files_review = admin
capability_min_role email_broadcast = admin
capability_min_role app_write = editor
capability_min_role app_read = viewer

-- `HIERARCHY[role] ?? 0`
unfoldable pub rank_of : Text → ℕ
rank_of role =
    if eq_text role owner
    then 100
    else if eq_text role admin
    then 80
    else if eq_text role editor
    then 50
    else if eq_text role member
    then 50
    else if eq_text role viewer
    then 20
    else 0

unfoldable pub has_at_least : Text → Text → Bool
has_at_least role minimum = leb (rank_of minimum) (rank_of role)

unfoldable pub can : Text → Capability → Bool
unfolding has_at_least capability_min_role
can role cap = has_at_least role (capability_min_role cap)

unfoldable pub can_manage : Text → Text → Bool
can_manage actor_role target_role =
    if not (can actor_role team_update_role)
    then false
    else if eq_text target_role owner
    then false
    else if eq_text target_role admin && not (eq_text actor_role owner)
    then false
    else true

-- The first code unit in upper case, for the ASCII letters.
upper : ℕ → ℕ
upper c = if leb b'a' c && leb c b'z' then c - 32 else c

capitalise : Text → Text
capitalise [] = []
capitalise (c ∷ rest) = upper c ∷ rest

unfoldable pub role_label : Text → Text
unfolding upper capitalise
role_label role = if eq_text role member then codes "Editor" else capitalise role
