-- ===== src/Credit/Tables.antt =====
-- The tables `credit_ledger_entries` and `credit_balances`, and the statements that the credit
-- service runs on them. `organization_id` is the primary key of the balances, and `external_ref`
-- is unique where it is not null.
use alchemist_template.Common.{
  ℕ, Bool, false, ◌&&◌, Option, none, some, List, [], ◌∷◌, ◌==◌, if◌then◌else◌, any, Text, eq_text,
}
use alchemist_template.Common.Int.{ℤ, ◌+ℤ◌, ◌-ℤ◌, leb_ℤ, pos}

pub record LedgerEntry : Type 0 where
  pub organization_id : ℕ
  pub delta : ℤ
  pub reason : Text
  pub external_ref : Option Text

pub record BalanceRow : Type 0 where
  pub organization_id : ℕ
  pub balance : ℤ

-- The newest entry first.
pub record Ledger : Type 0 where
  pub entries : List LedgerEntry
  pub balances : List BalanceRow

abbrev pub empty_ledger : Ledger
empty_ledger = record { entries = []; balances = [] }

-- `SELECT balance ... WHERE organization_id = org`, and `?? 0`.
unfoldable pub read_balance : ℕ → List BalanceRow → ℤ
read_balance org [] = pos 0
read_balance org (row ∷ rows) =
    if row.organization_id == org then row.balance else read_balance org rows

-- `INSERT ... ON CONFLICT (organization_id) DO UPDATE SET balance = balance + amount`.
unfoldable pub add_balance : ℕ → ℤ → List BalanceRow → List BalanceRow
add_balance org amount [] = record { organization_id = org; balance = amount } ∷ []
add_balance org amount (row ∷ rows) =
    if row.organization_id == org
    then record row { balance = row.balance +ℤ amount } ∷ rows
    else row ∷ add_balance org amount rows

keep_row : BalanceRow → Option (List BalanceRow) → Option (List BalanceRow)
keep_row row none = none
keep_row row (some rows) = some (row ∷ rows)

-- `UPDATE ... SET balance = balance - amount WHERE organization_id = org AND balance >= amount`;
-- `none` where no row was updated.
unfoldable pub spend_balance : ℕ → ℤ → List BalanceRow → Option (List BalanceRow)
unfolding keep_row
spend_balance org amount [] = none
spend_balance org amount (row ∷ rows) =
    if row.organization_id == org && leb_ℤ amount row.balance
    then some (record row { balance = row.balance -ℤ amount } ∷ rows)
    else if row.organization_id == org
    then none
    else keep_row row (spend_balance org amount rows)

unfoldable pub same_ref : Text → Option Text → Bool
same_ref ref none = false
same_ref ref (some other) = eq_text ref other

-- Whether the unique index on `external_ref` holds the reference; a null never conflicts.
unfoldable pub has_external_ref : Option Text → List LedgerEntry → Bool
unfolding same_ref
has_external_ref none entries = false
has_external_ref (some ref) entries = any (λ e. same_ref ref e.external_ref) entries
