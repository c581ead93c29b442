-- ===== src/Balances/Frame.antt =====
-- What no operation on the balances changes, and the operations on an asset that is not managed.
use sns_kongswap_adaptor.Base.{ℕ, ◌≡◌, List, [], ◌∷◌, arith}
use sns_kongswap_adaptor.Validation.Asset.{ValidatedAsset, set_symbol, set_ledger_fee_decimals}
use sns_kongswap_adaptor.Balances.{
  ValidatedBalances, ValidatedBalanceBook, Party, refresh_asset, set_external_custodian_balance,
  add_manager_balance, move_asset, charge_approval_fee, find_deposit_discrepency,
  find_withdraw_discrepency, update_book, set_external, credit_manager, move_in_book,
  charge_fee_in_book, deposit_suspense, withdraw_suspense,
}
use sns_kongswap_adaptor.Balances.Bounds.{Update, apply, apply_all}

pub record SameBook (a b : ValidatedBalanceBook) : Type 0 where
  pub owner_account : a.treasury_owner.account ≡ b.treasury_owner.account
  pub owner_name : a.treasury_owner.name ≡ b.treasury_owner.name
  pub manager_account : a.treasury_manager.account ≡ b.treasury_manager.account
  pub manager_name : a.treasury_manager.name ≡ b.treasury_manager.name
  pub spendings : a.spendings ≡ b.spendings
  pub earnings : a.earnings ≡ b.earnings

-- The managed ledgers, the accounts and names of the parties, the timestamp, and the two amounts
-- that the program never books.
pub record SameFrame (a b : ValidatedBalances) : Type 0 where
  pub timestamp_ns : a.timestamp_ns ≡ b.timestamp_ns
  pub ledger_0 : a.asset_0.ledger_canister_id ≡ b.asset_0.ledger_canister_id
  pub ledger_1 : a.asset_1.ledger_canister_id ≡ b.asset_1.ledger_canister_id
  pub book_0 : SameBook a.asset_0_balance b.asset_0_balance
  pub book_1 : SameBook a.asset_1_balance b.asset_1_balance

SameBook-refl : (a : ValidatedBalanceBook) → SameBook a a
SameBook-refl a = ground arith

pub SameFrame-refl : (a : ValidatedBalances) → SameFrame a a
SameFrame-refl a = ground arith

pub SameFrame-trans : {a b c : ValidatedBalances} → SameFrame a b → SameFrame b c → SameFrame a c
SameFrame-trans h k = ground arith

update_book-SameFrame :
    (asset : ValidatedAsset) (f : ValidatedBalanceBook → ValidatedBalanceBook)
    (b : ValidatedBalances)
    → ((book : ValidatedBalanceBook) → SameBook (f book) book)
    → SameFrame (update_book asset f b) b
unfolding update_book
update_book-SameFrame asset f b keep =
    ground (arith, keep b.asset_0_balance, keep b.asset_1_balance)

move_in_book-SameBook :
    (fee : ℕ) (from to : Party) (amount : ℕ) (book : ValidatedBalanceBook)
    → SameBook (move_in_book fee from to amount book) book
unfolding move_in_book
move_in_book-SameBook fee Party.external Party.treasury_manager amount book = ground arith
move_in_book-SameBook fee Party.treasury_manager Party.treasury_owner amount book = ground arith
move_in_book-SameBook fee _ _ amount book = ground arith

pub apply-SameFrame : (u : Update) (b : ValidatedBalances) → SameFrame (apply u b) b
unfolding apply set_external_custodian_balance add_manager_balance move_asset charge_approval_fee
    find_deposit_discrepency find_withdraw_discrepency set_external credit_manager
    charge_fee_in_book deposit_suspense withdraw_suspense refresh_asset set_symbol
    set_ledger_fee_decimals
apply-SameFrame (Update.refresh i asset) b = ground arith
apply-SameFrame (Update.external asset x) b =
    update_book-SameFrame asset (set_external x) b (λ book. ground arith)
apply-SameFrame (Update.credit asset x) b =
    update_book-SameFrame asset (credit_manager x) b (λ book. ground arith)
apply-SameFrame (Update.move asset from to x) b =
    update_book-SameFrame asset (move_in_book asset.ledger_fee_decimals from to x) b
      (move_in_book-SameBook asset.ledger_fee_decimals from to x)
apply-SameFrame (Update.charge asset) b =
    update_book-SameFrame asset (charge_fee_in_book asset.ledger_fee_decimals) b
      (λ book. ground arith)
apply-SameFrame (Update.deposit_check asset x y z) b =
    update_book-SameFrame asset (deposit_suspense x y z) b (λ book. ground arith)
apply-SameFrame (Update.withdraw_check asset x y z) b =
    update_book-SameFrame asset (withdraw_suspense asset.ledger_fee_decimals x y z) b
      (λ book. ground arith)

-- Whatever operations follow one another, the two ledgers, the timestamp, the accounts and names of
-- the treasury owner and manager, and the spendings and earnings stay what they were.
pub apply_all-SameFrame : (us : List Update) (b : ValidatedBalances) → SameFrame (apply_all us b) b
unfolding apply_all
apply_all-SameFrame [] b = SameFrame-refl b
apply_all-SameFrame (u ∷ us) b =
    SameFrame-trans (apply_all-SameFrame us (apply u b)) (apply-SameFrame u b)
