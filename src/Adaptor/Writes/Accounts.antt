-- ===== src/Adaptor/Writes/Accounts.antt =====
-- The two books under the updates of a deposit.
use sns_kongswap_adaptor.Base.{
  ℕ, ◌+◌, ◌*◌, ◌≤◌, ◌≡◌, refl, ◌∙◌, ap, ◌⊎◌, false, Bool-cases, inl, inr, if◌then◌else◌, ◌==◌, some,
  ◌++◌,
}
use sns_kongswap_adaptor.Arithmetics.{u64_max}
use sns_kongswap_adaptor.Validation.Asset.{ValidatedAsset, asset_eq}
use sns_kongswap_adaptor.Validation.Asset.Laws.{asset_eq_refl}
use sns_kongswap_adaptor.Validation.Allowance.{ValidatedAllowance}
use sns_kongswap_adaptor.Balances.{ValidatedBalances, ValidatedBalanceBook}
use sns_kongswap_adaptor.Balances.Bounds.{apply_all}
use sns_kongswap_adaptor.Balances.Select.{book_of}
use sns_kongswap_adaptor.Balances.Conservation.{turnover}
use sns_kongswap_adaptor.Balances.Each.{
  AllOrdinary, AllOrdinary-append, all_in_book, all_in_book-append, book_of-apply_all,
}
use sns_kongswap_adaptor.Adaptor.Deposit.Accounting.{asset_eq-false}
use sns_kongswap_adaptor.Adaptor.Writes.{to_owner, to_owner-AllOrdinary}
use sns_kongswap_adaptor.Adaptor.Writes.Dex.{receipts, dex_updates}
use sns_kongswap_adaptor.Adaptor.Writes.Deposit.{deposit_updates}
use sns_kongswap_adaptor.Adaptor.Writes.Conserves.{
  IsBalanced, returned_book, deposited_book, deposited_book-IsBalanced,
}

all_in_book-to_owner :
    (x a : ValidatedAsset) (r : ℕ) (book : ValidatedBalanceBook)
    → all_in_book x (to_owner a r) book
      ≡ (if asset_eq x a then returned_book a.ledger_fee_decimals r book else book)
all_in_book-to_owner x a r book = elim (Bool-cases (r == 0)) [
  | inl e ↦ elim (Bool-cases (asset_eq x a)) [ inl i ↦ rw (e, i) refl | inr i ↦ rw (e, i) refl ]
  | inr e ↦ elim (Bool-cases (asset_eq x a)) [ inl i ↦ rw (e, i) refl | inr i ↦ rw (e, i) refl ]
]

module _ (a b : ValidatedAllowance) (n y z r : ℕ × ℕ) where
  deposit_updates-AllOrdinary : AllOrdinary (deposit_updates (a.asset, b.asset) a b n y z r)
  deposit_updates-AllOrdinary =
      let returns = to_owner a.asset r.0 ++ to_owner b.asset r.1 in
      AllOrdinary-append (receipts a b) (dex_updates a b n y z ++ returns)
        (tt, (tt, (tt, (tt, tt))))
        (AllOrdinary-append (dex_updates a b n y z) returns (tt, (tt, (tt, (tt, (tt, (tt, tt))))))
          (AllOrdinary-append (to_owner a.asset r.0) (to_owner b.asset r.1)
            (to_owner-AllOrdinary a.asset r.0) (to_owner-AllOrdinary b.asset r.1)))

  in_parts :
      (x : ValidatedAsset) (book : ValidatedBalanceBook)
      → all_in_book x (deposit_updates (a.asset, b.asset) a b n y z r) book
        ≡ all_in_book x (to_owner b.asset r.1) (
            all_in_book x
              (to_owner a.asset r.0)
              (all_in_book x (dex_updates a b n y z) (all_in_book x (receipts a b) book)))
  in_parts x book =
      let returns = to_owner a.asset r.0 ++ to_owner b.asset r.1 in
      all_in_book-append x (receipts a b) (dex_updates a b n y z ++ returns) book
      ∙ all_in_book-append x (dex_updates a b n y z) returns _
      ∙ all_in_book-append x (to_owner a.asset r.0) (to_owner b.asset r.1) _

  module _ (book : ValidatedBalanceBook) (apart : asset_eq b.asset a.asset ≡ false) where
    first_book :
        all_in_book a.asset (deposit_updates (a.asset, b.asset) a b n y z r) book
        ≡ deposited_book a.asset.ledger_fee_decimals a.amount_decimals n.0 y.0 z.0 r.0 book
    first_book =
        in_parts a.asset book
        ∙ rw
            (
              all_in_book-to_owner a.asset b.asset r.1,
              all_in_book-to_owner a.asset a.asset r.0,
              asset_eq_refl a.asset,
              asset_eq-false a.asset b.asset apart,
            )
            refl

    second_book :
        all_in_book b.asset (deposit_updates (a.asset, b.asset) a b n y z r) book
        ≡ deposited_book b.asset.ledger_fee_decimals b.amount_decimals n.1 y.1 z.1 r.1 book
    second_book =
        in_parts b.asset book
        ∙ rw
            (
              all_in_book-to_owner b.asset b.asset r.1,
              all_in_book-to_owner b.asset a.asset r.0,
              asset_eq_refl b.asset,
              apart,
            )
            refl

-- Enough has been approved for what has gone to the DEX, which covers the fee of the ledger; what has
-- been returned covers it too, or is nothing; the manager's book holds it all; and the turnover stays
-- within 64 bits.
pub record Covers (fee amount sent returned : ℕ) (book : ValidatedBalanceBook) : Type 0 where
  pub pays : 2 * fee ≤ amount
  pub sends : fee ≤ sent
  pub returns : (returned ≡ 0) ⊎ (fee ≤ returned)
  pub holds : 2 * fee + sent + returned ≤ book.treasury_manager.amount_decimals + amount
  pub fits : turnover book + amount ≤ u64_max

-- The script of a deposit of two different managed assets adds up in both books. Where the amounts
-- are covered: the turnover rises by the amount that came in; the DEX's balance by what went there less
-- the fee of the ledger; the owner's by what was returned less the fee, or not at all; and the
-- manager's is what came in less both fees, what went to the DEX and what was returned.
pub deposit_updates-IsBalanced :
    (a b : ValidatedAllowance) (n y z r : ℕ × ℕ) (before : ValidatedBalances)
    (book_a book_b : ValidatedBalanceBook)
    → asset_eq b.asset a.asset ≡ false
    → book_of a.asset before ≡ some book_a
    → book_of b.asset before ≡ some book_b
    → Covers a.asset.ledger_fee_decimals a.amount_decimals n.0 r.0 book_a
    → Covers b.asset.ledger_fee_decimals b.amount_decimals n.1 r.1 book_b
    → let after = apply_all (deposit_updates (a.asset, b.asset) a b n y z r) before in
      (after_a after_b : ValidatedBalanceBook) × (book_of a.asset after ≡ some after_a)
      × (book_of b.asset after ≡ some after_b)
      × IsBalanced a.asset.ledger_fee_decimals a.amount_decimals n.0 r.0 book_a after_a
      × IsBalanced b.asset.ledger_fee_decimals b.amount_decimals n.1 r.1 book_b after_b
deposit_updates-IsBalanced a b n y z r before book_a book_b apart fa fb ca cb =
    let us = deposit_updates (a.asset, b.asset) a b n y z r in
    let ordinary = deposit_updates-AllOrdinary a b n y z r in
    (
      deposited_book a.asset.ledger_fee_decimals a.amount_decimals n.0 y.0 z.0 r.0 book_a,
      deposited_book b.asset.ledger_fee_decimals b.amount_decimals n.1 y.1 z.1 r.1 book_b,
      book_of-apply_all a.asset us before book_a ordinary fa
          ∙ ap some (first_book a b n y z r book_a apart),
      book_of-apply_all b.asset us before book_b ordinary fb
          ∙ ap some (second_book a b n y z r book_b apart),
      deposited_book-IsBalanced a.asset.ledger_fee_decimals a.amount_decimals n.0 y.0 z.0 r.0 book_a
          ca.sends ca.returns ca.holds ca.pays ca.fits,
      deposited_book-IsBalanced b.asset.ledger_fee_decimals b.amount_decimals n.1 y.1 z.1 r.1 book_b
          cb.sends cb.returns cb.holds cb.pays cb.fits,
    )
