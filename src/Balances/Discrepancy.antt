-- ===== src/Balances/Discrepancy.antt =====
-- What the comparison of two ledger balances enters in the suspense account.
use sns_kongswap_adaptor.Base.{ℕ, ◌+◌, ◌-◌, ◌≤◌, min, ◌≡◌, ◌∙◌, ap, Option, some, arith}
use sns_kongswap_adaptor.Arithmetics.{u64_max}
use sns_kongswap_adaptor.Arithmetics.Laws.{logged_saturating_add_lem, logged_saturating_sub_lem}
use sns_kongswap_adaptor.Validation.Asset.{ValidatedAsset}
use sns_kongswap_adaptor.Balances.{
  ValidatedBalances, ValidatedBalanceBook, find_deposit_discrepency, find_withdraw_discrepency,
  deposit_suspense, withdraw_suspense,
}
use sns_kongswap_adaptor.Balances.Select.{book_of, book_of-update_book}

abbrev suspended : ValidatedBalanceBook → ℕ → Option ValidatedBalanceBook
suspended book s = some (record book { suspense = s })

module _ (before after amount : ℕ) (book : ValidatedBalanceBook)
    (fits : book.suspense ≤ u64_max) where
  deposit_suspense_lem :
      deposit_suspense before after amount book
      ≡ record book { suspense = min (book.suspense + (before - after - amount)) u64_max }
  unfolding deposit_suspense
  deposit_suspense_lem = simp (logged_saturating_sub_lem, logged_saturating_add_lem) (ground arith)

  withdraw_suspense_lem :
      (fee : ℕ)
      → withdraw_suspense fee before after amount book
        ≡ record book { suspense = min (book.suspense + (amount - fee - (after - before))) u64_max }
  unfolding withdraw_suspense
  withdraw_suspense_lem fee =
      simp (logged_saturating_sub_lem, logged_saturating_add_lem) (ground arith)

-- For a managed asset with a 64-bit suspense, the check of a deposit adds to the suspense of its
-- book exactly what the manager's ledger balance has lost beyond the expected amount, up to the
-- largest 64-bit number, and changes nothing else in the book. So a loss of no more than was
-- expected leaves the book as it was.
pub find_deposit_discrepency_lem :
    (asset : ValidatedAsset) (before after amount : ℕ) (b : ValidatedBalances)
    (book : ValidatedBalanceBook)
    → book_of asset b ≡ some book
    → book.suspense ≤ u64_max
    → (book_of asset (find_deposit_discrepency asset before after amount b)
        ≡ some (record book { suspense = min (book.suspense + (before - after - amount)) u64_max }))
      × (before ≤ after + amount
          → book_of asset (find_deposit_discrepency asset before after amount b) ≡ some book)
unfolding find_deposit_discrepency
find_deposit_discrepency_lem asset before after amount b book found fits =
    let f = deposit_suspense before after amount in
    let updated =
      book_of-update_book f b asset found
      ∙ ap some (deposit_suspense_lem before after amount book fits) in
    (updated, λ expected. updated ∙ ap (suspended book) (omega arith))

-- For a managed asset with a 64-bit suspense, the check of a withdrawal adds to the suspense of its
-- book exactly what is missing of the amount less the ledger fee, up to the largest 64-bit number,
-- and changes nothing else in the book. So an arrival of at least the amount less the fee leaves
-- the book as it was.
pub find_withdraw_discrepency_lem :
    (asset : ValidatedAsset) (before after amount : ℕ) (b : ValidatedBalances)
    (book : ValidatedBalanceBook)
    → book_of asset b ≡ some book
    → book.suspense ≤ u64_max
    → (book_of asset (find_withdraw_discrepency asset before after amount b)
        ≡ some (record book {
          suspense =
              min (book.suspense + (amount - asset.ledger_fee_decimals - (after - before))) u64_max;
        }))
      × (before + amount ≤ after + asset.ledger_fee_decimals
          → book_of asset (find_withdraw_discrepency asset before after amount b) ≡ some book)
unfolding find_withdraw_discrepency
find_withdraw_discrepency_lem asset before after amount b book found fits =
    let fee = asset.ledger_fee_decimals in
    let f = withdraw_suspense fee before after amount in
    let updated =
      book_of-update_book f b asset found
      ∙ ap some (withdraw_suspense_lem before after amount book fits fee) in
    (updated, λ expected. updated ∙ ap (suspended book) (omega arith))
