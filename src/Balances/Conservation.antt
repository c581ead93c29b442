-- ===== src/Balances/Conservation.antt =====
-- The equation of the .did file for a book: what is managed and what has been collected in fees
-- stays the same under a movement, and changes by the amount under a credit of the manager.
use sns_kongswap_adaptor.Base.{ℕ, ◌+◌, ◌≤◌, ◌≡◌, refl, false, some}
use sns_kongswap_adaptor.Arithmetics.{u64_max}
use sns_kongswap_adaptor.Arithmetics.Laws.{saturating}
use sns_kongswap_adaptor.Balances.{
  Party, ValidatedBalanceBook, ValidatedBalances, move_in_book, charge_fee_in_book, credit_manager,
  move_asset, charge_approval_fee, add_manager_balance, update_book,
}
use sns_kongswap_adaptor.Balances.Select.{book_of, book_of-update_book, book_of-update_book_ne}
use sns_kongswap_adaptor.Validation.Asset.{ValidatedAsset, asset_eq}

-- `managed_assets` of the .did file.
abbrev pub managed_assets : ValidatedBalanceBook → ℕ
managed_assets b =
    b.treasury_manager.amount_decimals + b.treasury_owner.amount_decimals + b.external

-- Everything that has come into the book.
abbrev pub turnover : ValidatedBalanceBook → ℕ
turnover b = managed_assets b + b.fee_collector

-- The balance that a movement takes from, and the one that it adds to; 0 for other parties.
abbrev pub balance_of : Party → ValidatedBalanceBook → ℕ
balance_of Party.treasury_owner b = b.treasury_owner.amount_decimals
balance_of Party.treasury_manager b = b.treasury_manager.amount_decimals
balance_of Party.external b = b.external
balance_of Party.fee_collector b = b.fee_collector
balance_of Party.spendings b = b.spendings
balance_of Party.earnings b = b.earnings

-- The three movements that the program knows.
pub data Moves : Party → Party → Type 0 where
  from_dex : Moves Party.external Party.treasury_manager
  to_owner : Moves Party.treasury_manager Party.treasury_owner
  to_dex : Moves Party.treasury_manager Party.external

module _ (fee amount : ℕ) (book : ValidatedBalanceBook) where
  pub move_in_book_lem :
      {from to : Party}
      → Moves from to
      → fee ≤ amount
      → amount ≤ balance_of from book
      → turnover book ≤ u64_max
      → let after = move_in_book fee from to amount book in
        (balance_of from after + amount ≡ balance_of from book)
        × (balance_of to after + fee ≡ balance_of to book + amount)
        × (managed_assets after + fee ≡ managed_assets book)
        × (turnover after ≡ turnover book)
        × (after.suspense ≡ book.suspense)
  unfolding move_in_book
  move_in_book_lem from_dex h k l = omega saturating
  move_in_book_lem to_owner h k l = omega saturating
  move_in_book_lem to_dex h k l = omega saturating

-- Moving an amount of a managed asset along one of the three known routes, where the amount covers
-- the ledger fee, the source holds it and the book's turnover fits in 64 bits: the source loses the
-- amount, the destination receives the amount less the fee, the managed assets fall by the fee, the
-- turnover and the suspense stay the same, and no other asset's book changes.
pub move_asset_conserves :
    (asset other : ValidatedAsset) (amount : ℕ) {from to : Party} (b : ValidatedBalances)
    (book : ValidatedBalanceBook)
    → book_of asset b ≡ some book
    → asset_eq other asset ≡ false
    → Moves from to
    → asset.ledger_fee_decimals ≤ amount
    → amount ≤ balance_of from book
    → turnover book ≤ u64_max
    → (after : ValidatedBalanceBook) × (book_of asset (move_asset asset from to amount b)
        ≡ some after)
      × (balance_of from after + amount ≡ balance_of from book)
      × (balance_of to after + asset.ledger_fee_decimals ≡ balance_of to book + amount)
      × (managed_assets after + asset.ledger_fee_decimals ≡ managed_assets book)
      × (turnover after ≡ turnover book)
      × (after.suspense ≡ book.suspense)
      × (book_of other (move_asset asset from to amount b) ≡ book_of other b)
unfolding move_asset
move_asset_conserves asset other amount {from} {to} b book found distinct route covers holds fits =
    let fee = asset.ledger_fee_decimals in
    let f = move_in_book fee from to amount in
    let (source, destination, managed, total, suspense) =
      move_in_book_lem fee amount book route covers holds fits in
    (
      f book,
      book_of-update_book f b asset found,
      source,
      destination,
      managed,
      total,
      suspense,
      book_of-update_book_ne f b asset other distinct,
    )

-- A deposit that arrives from the owner is the credit of the whole amount followed by the charge of
-- one ledger fee. For a managed asset, an amount of at least the fee and a turnover that stays
-- within 64 bits, it raises the turnover by the amount and the managed assets by the amount less
-- the fee, and keeps the suspense.
pub receipt_conserves :
    (asset : ValidatedAsset) (amount : ℕ) (b : ValidatedBalances) (book : ValidatedBalanceBook)
    → book_of asset b ≡ some book
    → asset.ledger_fee_decimals ≤ amount
    → turnover book + amount ≤ u64_max
    → (after : ValidatedBalanceBook) × (book_of asset
          (charge_approval_fee asset (add_manager_balance asset amount b))
        ≡ some after)
      × (turnover after ≡ turnover book + amount)
      × (managed_assets after + asset.ledger_fee_decimals ≡ managed_assets book + amount)
      × (after.suspense ≡ book.suspense)
unfolding charge_approval_fee add_manager_balance charge_fee_in_book credit_manager
receipt_conserves asset amount b book found covers fits =
    let fee = asset.ledger_fee_decimals in
    let credit = credit_manager amount in
    let charge = charge_fee_in_book fee in
    (
      charge (credit book),
      book_of-update_book charge (update_book asset credit b) asset
          (book_of-update_book credit b asset found),
      omega saturating,
      omega saturating,
      refl,
    )
