-- ===== src/Credit/Charge.antt =====
-- `chargeCredits` of src/api/middleware/monetize.ts: charge, run the route, refund where it failed.
-- The product list and the minting of a checkout link are arguments, and so is the route's handler,
-- which may change the ledger and says whether it threw (`c.error`).
use alchemist_template.Common.{
  ℕ, suc, ◌≡◌, ap, Bool, true, false, not, ◌&&◌, Option, none, some, List, [], ◌∷◌, arith, leb,
  ◌==◌, if◌then◌else◌, filter, Text, codes, Result, ◌>>=◌, ok, err,
}
use alchemist_template.Common.Int.{ℤ, ◌+ℤ◌, ◌-ℤ◌, ◌≤ℤ◌, int_laws, Number, pos, integer}
use alchemist_template.Credit.Tables.{has_external_ref, Ledger}
use alchemist_template.Credit.Balance.{read-add}
use alchemist_template.Credit.Service.{debit_refused, debit_paid}
use alchemist_template.Credit.{
  CreditError, DebitResult, paid, refused, debit, refund, get_balance, positive_amount,
}

pub record Product : Type 0 where
  pub id : ℕ
  pub price_cents : ℕ
  pub grants_credits : Option ℕ
  pub is_one_time : Bool

is_truthy : Option ℕ → Bool
is_truthy none = false
is_truthy (some n) = not (n == 0)

abbrev is_pack : Product → Bool
is_pack p = is_truthy p.grants_credits && p.is_one_time

insert_by_price : Product → List Product → List Product
insert_by_price p [] = p ∷ []
insert_by_price p (q ∷ qs) =
    if leb p.price_cents q.price_cents then p ∷ q ∷ qs else q ∷ insert_by_price p qs

-- `.sort((a, b) => a.priceCents - b.priceCents)`, which is stable.
sort_by_price : List Product → List Product
unfolding insert_by_price
sort_by_price [] = []
sort_by_price (p ∷ ps) = insert_by_price p (sort_by_price ps)

first : List Product → Option Product
first [] = none
first (p ∷ ps) = some p

-- The cheapest one-time product that grants credits.
unfoldable pub cheapest_pack : List Product → Option Product
unfolding is_truthy sort_by_price first
cheapest_pack products = first (sort_by_price (filter is_pack products))

pub data Response : Type 0 where
  served : Bool → Response
  payment_required : ℤ → ℕ → Option Text → Response

pub record Route : Type 0 where
  pub run : Ledger → Ledger × Bool
  pub products : List Product
  pub mint_checkout_url : ℕ → Option Text
  pub refund_commits : Bool

pub checkout_url : Route → Option Product → Option Text
checkout_url r none = none
checkout_url r (some pack) = r.mint_checkout_url pack.id

refund_reason : Text
refund_reason = codes "api_error_refund"

after_refund : Ledger → Result CreditError Ledger → Ledger
after_refund l (ok after) = after
after_refund l (err e) = l

-- What follows `next()`. A refund that fails is logged, and the charge stands.
settle : ℕ → ℕ → Route → Ledger × Bool → Response × Ledger
unfolding after_refund refund_reason
settle org cost r (l, false) = (served true, l)
settle org cost r (l, true) = (
  served false,
  if r.refund_commits then after_refund l (refund org (integer (pos cost)) refund_reason l) else l,
)

after_debit : ℕ → ℕ → Route → DebitResult × Ledger → Response × Ledger
unfolding settle checkout_url
after_debit org cost r (refused balance, l) =
    (payment_required balance cost (checkout_url r (cheapest_pack r.products)), l)
after_debit org cost r (paid balance, l) = settle org cost r (r.run l)

call_reason : Text
call_reason = codes "api_call"

-- One request to a route behind `chargeCredits(cost)`, which throws unless the cost is positive.
pub charge_credits : Number → ℕ → Route → Ledger → Result CreditError (Response × Ledger)
unfolding after_debit call_reason
charge_credits cost org r l = positive_amount cost >>= λ n.
    debit org (integer (pos n)) call_reason l >>= λ d. ok (after_debit org n r d)

-- A caller whose balance does not cover the cost gets a payment demand with the balance, and
-- neither the route runs nor a table changes.
pub charge_uncovered :
    (org m : ℕ) (r : Route) (l : Ledger)
    → ¬ (pos (suc m) ≤ℤ get_balance org l)
    → charge_credits (integer (pos (suc m))) org r l
      ≡ ok (
        payment_required (get_balance org l) (suc m) (checkout_url r (cheapest_pack r.products)),
        l,
      )
unfolding charge_credits positive_amount
charge_uncovered org m r l h = rw (debit_refused org m call_reason l h)

refund_balance :
    (org m j : ℕ) (reason : Text) (l : Ledger)
    → get_balance j (after_refund l (refund org (integer (pos (suc m))) reason l))
      ≡ (if org == j then get_balance j l +ℤ pos (suc m) else get_balance j l)
unfolding after_refund refund get_balance has_external_ref
refund_balance org m j reason l = read-add org j (pos (suc m)) l.balances

settle_throws :
    (org n : ℕ) (r : Route) (x : Ledger × Bool)
    → x.1 ≡ true
    → r.refund_commits ≡ true
    → settle org n r x
      ≡ (served false, after_refund x.0 (refund org (integer (pos n)) refund_reason x.0))
unfolding settle
settle_throws org n r (k, true) h commits = rw commits
settle_throws org n r (k, false) h commits = cc

restored : (a : ℤ) (n : ℕ) → a -ℤ pos n +ℤ pos n ≡ a
restored a n = omega int_laws

-- A route that throws, and has itself moved no credits, costs its caller nothing where the refund
-- is written: every balance is what it was before the request.
pub charge_failed :
    (org m : ℕ) (r : Route) (l : Ledger)
    → pos (suc m) ≤ℤ get_balance org l
    → ((k : Ledger) → (r.run k).1 ≡ true)
    → ((k : Ledger) (j : ℕ) → get_balance j (r.run k).0 ≡ get_balance j k)
    → r.refund_commits ≡ true
    → (after : Ledger) × (charge_credits (integer (pos (suc m))) org r l ≡ ok (served false, after))
      × ((j : ℕ) → get_balance j after ≡ get_balance j l)
unfolding charge_credits positive_amount
charge_failed org m r l h throws keeps commits =
    let (charged, done, reads, _) = debit_paid org m call_reason l h in
    (
      after_refund (r.run charged).0
          (refund org (integer (pos (suc m))) refund_reason (r.run charged).0),
      rw (done, after_debit)
          (ap ok (settle_throws org (suc m) r (r.run charged) (throws charged) commits)),
      λ j. ground (
        arith,
        refund_balance org m j refund_reason (r.run charged).0,
        keeps charged j,
        reads j,
        restored (get_balance j l) (suc m),
      ),
    )
