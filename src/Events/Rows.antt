-- ===== src/Events/Rows.antt =====
-- What the claim token says of the rows that it owns.
use alchemist_template.Common.{◌≡◌, true, arith}
use alchemist_template.Events.Store.{owns, ClaimToken, Delivery}

-- A token owns rows of its own id.
pub owns-id : (t : ClaimToken) (d : Delivery) → owns t d ≡ true → d.id ≡ t.id
unfolding owns
owns-id t d h = ground arith
