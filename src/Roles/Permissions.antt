-- ===== src/Roles/Permissions.antt =====
-- What the permission tests of Roles amount to.
use alchemist_template.Common.{◌≤◌, ◌<◌, ◌≡◌, refl, ◌↔◌, true, arith, Text, eq_text, eq_text_iff}
use alchemist_template.Roles.{
  Capability, team_update_role, org_transfer_ownership, owner, admin, rank_of, has_at_least, can,
  can_manage, capability_min_role,
}

rank-owner : rank_of owner ≡ 100
unfolding rank_of eq_text
rank-owner = refl

rank-admin : rank_of admin ≡ 80
unfolding rank_of eq_text
rank-admin = refl

-- A rank of 100 is the owner's alone.
rank-eq-owner : (role : Text) → 80 < rank_of role → role ≡ owner
unfolding rank_of
rank-eq-owner role h = ground (arith, eq_text_iff role owner)

can_team : (role : Text) → (can role team_update_role ≡ true) ↔ (80 ≤ rank_of role)
unfolding can has_at_least
can_team role = (λ h. ground (arith, rank-admin), λ h. ground (arith, rank-admin))

-- A capability is kept by every role of at least the rank.
pub can_mono :
    (r s : Text) (c : Capability) → rank_of r ≤ rank_of s → can r c ≡ true → can s c ≡ true
unfolding can has_at_least
can_mono r s c h e = ground arith

-- Ownership is transferred by the owner and by no other role.
pub can_transfer_iff : (role : Text) → (can role org_transfer_ownership ≡ true) ↔ (role ≡ owner)
unfolding can has_at_least capability_min_role
can_transfer_iff role =
    (λ h. rank-eq-owner role (ground (arith, rank-owner)), λ e. rw e (ground (arith, rank-owner)))

-- One role manages another exactly when it is an admin at least and outranks it.
pub can_manage_iff :
    (actor target : Text)
    → (can_manage actor target ≡ true) ↔ ((80 ≤ rank_of actor) × (rank_of target < rank_of actor))
unfolding can_manage rank_of
can_manage_iff actor target =
    (λ h. ground (arith, can_team actor), λ h. ground (arith, can_team actor))
