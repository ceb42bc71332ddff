-- ===== src/Credit.antt =====
-- src/services/credit.service.ts: the prepaid credit ledger, and its client `chargeCredits` of
-- src/api/middleware/monetize.ts. Each call runs in one database transaction, so it is one step on
-- the two tables. Organisations are numbered; `metadata` and the timestamps, which no call reads,
-- are left out. Balances are integers, so that they could go below zero.
pub mod Tables
pub mod Balance
pub mod Service
pub mod History
pub mod Charge
mod Examples
use alchemist_template.Common.{
  ℕ, zero, suc, Bool, true, false, Option, none, some, ◌∷◌, if◌then◌else◌, Text, Result, ◌>>=◌, ok,
  err,
}
use alchemist_template.Common.Int.{ℤ, ◌-ℤ◌, Number, pos, negsuc, integer, not_integer}
use Tables.{Ledger, LedgerEntry, read_balance, add_balance, spend_balance, has_external_ref}

pub data CreditError : Type 0 where
  bad_amount : CreditError

pub record GrantResult : Type 0 where
  pub granted : Bool
  pub balance : ℤ

pub data DebitResult : Type 0 where
  paid : ℤ → DebitResult
  refused : ℤ → DebitResult

-- `!Number.isInteger(amount) || amount <= 0` throws.
unfoldable pub positive_amount : Number → Result CreditError ℕ
positive_amount (integer (pos zero)) = err bad_amount
positive_amount (integer (pos (suc n))) = ok (suc n)
positive_amount (integer (negsuc n)) = err bad_amount
positive_amount not_integer = err bad_amount

-- The insert with `ON CONFLICT (external_ref) DO NOTHING`, and what follows either way.
unfoldable pub post_grant : ℕ → ℕ → Text → Option Text → Ledger → GrantResult × Ledger
post_grant org amount reason ref l =
    if has_external_ref ref l.entries
    then (record { granted = false; balance = read_balance org l.balances }, l)
    else (
      record {
        granted = true;
        balance = read_balance org (add_balance org (pos amount) l.balances);
      },
      record {
        entries =
            record {
              organization_id = org;
              delta = pos amount;
              reason = reason;
              external_ref = ref;
            }
            ∷ l.entries;
        balances = add_balance org (pos amount) l.balances;
      },
    )

unfoldable pub grant :
    ℕ → Number → Text → Option Text → Ledger → Result CreditError (GrantResult × Ledger)
unfolding positive_amount post_grant
grant org amount reason ref l = positive_amount amount >>= λ n. ok (post_grant org n reason ref l)

-- The conditional update, and what follows either way.
unfoldable pub post_debit : ℕ → ℕ → Text → Ledger → DebitResult × Ledger
post_debit org amount reason l = elim (spend_balance org (pos amount) l.balances) [
  | none ↦ (refused (read_balance org l.balances), l)
  | some balances ↦ (
    paid (read_balance org balances),
    record {
      entries =
          record {
            organization_id = org;
            delta = pos 0 -ℤ pos amount;
            reason = reason;
            external_ref = none;
          }
          ∷ l.entries;
      balances = balances;
    },
  )
]

unfoldable pub debit : ℕ → Number → Text → Ledger → Result CreditError (DebitResult × Ledger)
unfolding positive_amount post_debit
debit org amount reason l = positive_amount amount >>= λ n. ok (post_debit org n reason l)

-- A refund is a grant with no external reference.
unfoldable pub refund : ℕ → Number → Text → Ledger → Result CreditError Ledger
unfolding grant
refund org amount reason l = grant org amount reason none l >>= λ r. ok r.1

unfoldable pub get_balance : ℕ → Ledger → ℤ
get_balance org l = read_balance org l.balances
