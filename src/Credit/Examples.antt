-- ===== src/Credit/Examples.antt =====
-- Tests of the credit ledger, and its theorems at concrete inputs.
use alchemist_template.Common.{
  ℕ, ◌≡◌, refl, true, false, none, some, [], ◌∷◌, arith, Text, codes, ok, err,
}
use alchemist_template.Common.Int.{pos, negsuc, integer, not_integer}
use alchemist_template.Credit.Tables.{
  Ledger, empty_ledger, read_balance, add_balance, has_external_ref,
}
use alchemist_template.Credit.{bad_amount, grant, get_balance}
use alchemist_template.Credit.Service.{grant_replay}
use alchemist_template.Credit.History.{Inv, grants, debits, refunds, run, run-empty-Inv}
use alchemist_template.Credit.Charge.{
  Route, served, charge_credits, charge_failed, cheapest_pack, Product,
}

abbrev pack_ref : Text
pack_ref = codes "cs:1"

-- Organisation 1 holds ten credits.
abbrev funded : Ledger
funded = record {
  entries =
      record {
        organization_id = 1;
        delta = pos 10;
        reason = codes "credit_pack";
        external_ref = some pack_ref;
      }
      ∷ [];
  balances = record { organization_id = 1; balance = pos 10 } ∷ [];
}

abbrev small_pack : Product
small_pack = record { id = 4; price_cents = 500; grants_credits = some 50; is_one_time = true }

abbrev big_pack : Product
big_pack = record { id = 5; price_cents = 900; grants_credits = some 100; is_one_time = true }

abbrev failing_route : Route
failing_route = record {
  run = λ l. (l, true);
  products = big_pack ∷ small_pack ∷ [];
  mint_checkout_url = λ product. some (product ∷ []);
  refund_commits = true;
}

granting_nothing : grant 1 not_integer (codes "gift") none empty_ledger ≡ err bad_amount
unfolding grant
granting_nothing = refl

offered_pack : cheapest_pack failing_route.products ≡ some small_pack
unfolding cheapest_pack
offered_pack = refl

run-empty-Inv_example : Inv (
    run empty_ledger (
      grants 1 (integer (pos 10)) (codes "credit_pack") (some pack_ref)
      ∷ debits 1 (integer (pos 4)) (codes "api_call")
      ∷ refunds 1 (integer (negsuc 0)) (codes "refund")
      ∷ []))
run-empty-Inv_example = run-empty-Inv (
    grants 1 (integer (pos 10)) (codes "credit_pack") (some pack_ref)
    ∷ debits 1 (integer (pos 4)) (codes "api_call")
    ∷ refunds 1 (integer (negsuc 0)) (codes "refund")
    ∷ [])

grant_replay_example :
    grant 2 (integer (pos 7)) (codes "again") (some pack_ref) funded
    ≡ ok (record { granted = false; balance = get_balance 2 funded }, funded)
unfolding grant read_balance add_balance has_external_ref
grant_replay_example =
    grant_replay 1 2 9 6 (codes "credit_pack") (codes "again") pack_ref empty_ledger funded
      (record { granted = true; balance = pos 10 }) refl

charge_failed_example :
    (after : Ledger) × (charge_credits (integer (pos 4)) 1 failing_route funded
      ≡ ok (served false, after))
    × ((j : ℕ) → get_balance j after ≡ get_balance j funded)
unfolding get_balance read_balance
charge_failed_example =
    charge_failed 1 3 failing_route funded (omega arith) (λ k. refl) (λ k j. refl) refl
