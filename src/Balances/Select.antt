-- ===== src/Balances/Select.antt =====
-- Which book an operation works on, and that it leaves the other one alone.
use sns_kongswap_adaptor.Base.{◌≡◌, false, Option, none, some, arith, if◌then◌else◌}
use sns_kongswap_adaptor.Validation.Asset.{ValidatedAsset, asset_eq}
use sns_kongswap_adaptor.Validation.Asset.Laws.{asset_eq_sound}
use sns_kongswap_adaptor.Balances.{ValidatedBalances, ValidatedBalanceBook, update_book}

-- The book that the methods select for an asset.
unfoldable pub book_of : ValidatedAsset → ValidatedBalances → Option ValidatedBalanceBook
book_of asset b =
    if asset_eq asset b.asset_0
    then some b.asset_0_balance
    else if asset_eq asset b.asset_1
    then some b.asset_1_balance
    else none

module _ (f : ValidatedBalanceBook → ValidatedBalanceBook) (b : ValidatedBalances) where
  pub book_of-update_book :
      (asset : ValidatedAsset) {book : ValidatedBalanceBook}
      → book_of asset b ≡ some book
      → book_of asset (update_book asset f b) ≡ some (f book)
  unfolding book_of update_book
  book_of-update_book asset h = ground arith

  pub update_book_unmanaged :
      (asset : ValidatedAsset) → book_of asset b ≡ none → update_book asset f b ≡ b
  unfolding book_of update_book
  update_book_unmanaged asset h = ground arith

  pub book_of-update_book_ne :
      (asset other : ValidatedAsset)
      → asset_eq other asset ≡ false
      → book_of other (update_book asset f b) ≡ book_of other b
  unfolding book_of update_book
  book_of-update_book_ne asset other h =
      ground (arith, asset_eq_sound asset b.asset_0, asset_eq_sound asset b.asset_1)
