-- ===== src/Credit/Balance.antt =====
-- What the statements on `credit_balances` do to the balance that each organisation reads.
use alchemist_template.Common.{
  ℕ, ◌<◌, ◌≡◌, refl, inl, inr, true, false, none, some, List, [], ◌∷◌, arith, ◌==◌, if◌then◌else◌,
  Bool-cases,
}
use alchemist_template.Common.Int.{ℤ, ◌+ℤ◌, ◌-ℤ◌, leb_ℤ, int_laws, pos}
use alchemist_template.Credit.Tables.{BalanceRow, read_balance, add_balance, spend_balance}

pub zero-+ℤ : (a : ℤ) → pos 0 +ℤ a ≡ a
zero-+ℤ a = omega int_laws

pub read-add :
    (org j : ℕ) (amount : ℤ) (rows : List BalanceRow)
    → read_balance j (add_balance org amount rows)
      ≡ (if org == j then read_balance j rows +ℤ amount else read_balance j rows)
unfolding read_balance add_balance
read-add org j amount [] = ground (arith, zero-+ℤ amount)
read-add org j amount (row ∷ rows) = ground (arith, read-add org j amount rows)

-- The conditional update changes no row where the balance is below the amount.
pub spend_short :
    (org n : ℕ) (rows : List BalanceRow)
    → leb_ℤ (pos n) (read_balance org rows) ≡ false
    → spend_balance org (pos n) rows ≡ none
unfolding spend_balance read_balance
spend_short org n [] h = refl
spend_short org n (row ∷ rows) h = ground (arith, spend_short org n rows)

-- Otherwise it takes the amount off that balance, and off no other.
abbrev Spent : ℕ → ℕ → List BalanceRow → List BalanceRow → Type 0
Spent org n rows after =
    (j : ℕ)
    → read_balance j after
      ≡ (if org == j then read_balance j rows -ℤ pos n else read_balance j rows)

pub spend_covered :
    (org n : ℕ) (rows : List BalanceRow)
    → 0 < n
    → leb_ℤ (pos n) (read_balance org rows) ≡ true
    → (after : List BalanceRow) × (spend_balance org (pos n) rows ≡ some after)
      × Spent org n rows after
unfolding spend_balance read_balance
spend_covered org n [] p h = absurd (ground arith)
spend_covered org n (row ∷ rows) p h = elim (Bool-cases (row.organization_id == org)) [
  | inl here ↦
      (record row { balance = row.balance -ℤ pos n } ∷ rows, ground arith, λ j. ground arith)
  | inr there ↦
      let (after, done, reads) = spend_covered org n rows p (ground arith) in
      (row ∷ after, ground (arith, done), λ j. ground (arith, reads j))
]
