-- ===== src/Outbox/Address.antt =====
-- EMAIL_RE of src/services/email-outbox.service.ts: `^[^\s@]+@[^\s@]+\.[^\s@]+$` as a scan.
use alchemist_template.Common.{
  ℕ, Bool, false, not, ◌&&◌, ◌||◌, Option, none, some, [], ◌∷◌, ◌==◌, if◌then◌else◌, all, Text,
}
use alchemist_template.Import.Labels.{is_space}

-- `[^\s@]`
unfoldable pub is_address_char : ℕ → Bool
unfolding is_space
is_address_char c = not (is_space c) && not (c == b'@')

-- What follows the first `@`, if only such characters come before it.
after_local : Text → Option Text
unfolding is_address_char
after_local [] = none
after_local (c ∷ cs) =
    let rest = after_local cs in
    if c == b'@' then some cs else if is_address_char c then rest else none

-- A dot with a character on either side.
dot_inside : Text → Bool
dot_inside [] = false
dot_inside (c ∷ []) = false
dot_inside (c ∷ d ∷ ds) = c == b'.' || dot_inside (d ∷ ds)

unfoldable pub is_domain : Text → Bool
unfolding dot_inside is_address_char
is_domain [] = false
is_domain (c ∷ cs) = all is_address_char (c ∷ cs) && dot_inside cs

is_domain_part : Option Text → Bool
unfolding is_domain
is_domain_part none = false
is_domain_part (some d) = is_domain d

unfoldable pub is_email : Text → Bool
unfolding after_local is_domain_part is_address_char
is_email [] = false
is_email (c ∷ cs) = is_address_char c && is_domain_part (after_local cs)
