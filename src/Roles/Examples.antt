-- ===== src/Roles/Examples.antt =====
-- Tests of Roles, and its theorems at concrete inputs.
use alchemist_template.Common.{◌≡◌, refl, true, false, codes, eq_text}
use alchemist_template.Roles.{
  admin, member, viewer, rank_of, can, role_label, app_write, team_remove,
}

can_table :
    (can member app_write ≡ true) × (can viewer app_write ≡ false) × (can admin team_remove ≡ true)
unfolding can rank_of eq_text
can_table = (refl, refl, refl)

role_labels : (role_label member ≡ codes "Editor") × (role_label viewer ≡ codes "Viewer")
unfolding role_label eq_text
role_labels = (refl, refl)
