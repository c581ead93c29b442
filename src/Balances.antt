-- ===== src/Balances.antt =====
-- balances.rs, `ValidatedBalances`: the books of the two managed assets and the operations on them.
-- The Rust methods mutate in place; here they return the new value. An asset that is neither of the
-- two is logged and ignored. The log lines are not modelled.
mod Book
pub mod Conservation
pub mod Bounds
pub mod Frame
pub mod Flows
pub mod Select
pub mod Each
pub mod Discrepancy
unfoldable pub use Book.*
use sns_kongswap_adaptor.Base.{ℕ, Bool, true, false, ◌==◌, if◌then◌else◌}
use sns_kongswap_adaptor.Base.Text.{Text}
use sns_kongswap_adaptor.Sns.{Account}
use sns_kongswap_adaptor.Validation.Asset.{
  ValidatedAsset, asset_eq, set_symbol, set_ledger_fee_decimals,
}

pub record ValidatedBalances : Type 0 where
  pub timestamp_ns : ℕ
  pub asset_0 : ValidatedAsset
  pub asset_1 : ValidatedAsset
  pub asset_0_balance : ValidatedBalanceBook
  pub asset_1_balance : ValidatedBalanceBook

-- `ValidatedBalances::new`: all amounts are zero.
unfoldable pub new :
    ℕ
    → ValidatedAsset
    → ValidatedAsset
    → Text
    → Account
    → Account
    → Text
    → Account
    → Account
    → ValidatedBalances
new timestamp_ns asset_0 asset_1 owner_name owner_0 owner_1 manager_name manager_0 manager_1 =
    record {
      timestamp_ns = timestamp_ns;
      asset_0 = asset_0;
      asset_1 = asset_1;
      asset_0_balance = empty_book owner_name owner_0 manager_name manager_0;
      asset_1_balance = empty_book owner_name owner_1 manager_name manager_1;
    }

-- The choice of the book at the head of each method: the rest of the method works on that book.
unfoldable pub update_book :
    ValidatedAsset
    → (ValidatedBalanceBook → ValidatedBalanceBook)
    → ValidatedBalances
    → ValidatedBalances
update_book asset f b =
    if asset_eq asset b.asset_0
    then record b { asset_0_balance = f b.asset_0_balance }
    else if asset_eq asset b.asset_1
    then record b { asset_1_balance = f b.asset_1_balance }
    else b

unfoldable pub set_external_custodian_balance :
    ValidatedAsset → ℕ → ValidatedBalances → ValidatedBalances
set_external_custodian_balance asset balance = update_book asset (set_external balance)

unfoldable pub add_manager_balance : ValidatedAsset → ℕ → ValidatedBalances → ValidatedBalances
add_manager_balance asset amount = update_book asset (credit_manager amount)

unfoldable pub move_asset :
    ValidatedAsset → Party → Party → ℕ → ValidatedBalances → ValidatedBalances
move_asset asset from to amount =
    update_book asset (move_in_book asset.ledger_fee_decimals from to amount)

unfoldable pub charge_approval_fee : ValidatedAsset → ValidatedBalances → ValidatedBalances
charge_approval_fee asset = update_book asset (charge_fee_in_book asset.ledger_fee_decimals)

unfoldable pub find_deposit_discrepency :
    ValidatedAsset → ℕ → ℕ → ℕ → ValidatedBalances → ValidatedBalances
find_deposit_discrepency asset balance_before balance_after transferred_amount =
    update_book asset (deposit_suspense balance_before balance_after transferred_amount)

unfoldable pub find_withdraw_discrepency :
    ValidatedAsset → ℕ → ℕ → ℕ → ValidatedBalances → ValidatedBalances
find_withdraw_discrepency asset balance_before balance_after transferred_amount =
    update_book asset
      (withdraw_suspense asset.ledger_fee_decimals balance_before balance_after transferred_amount)

-- The update of one asset: a changed symbol returns early.
abbrev pub refreshed_asset : ValidatedAsset → ValidatedAsset → ValidatedAsset
refreshed_asset asset_new asset =
    let (renamed, symbol_changed) = set_symbol asset_new.symbol asset in
    if symbol_changed
    then renamed
    else (set_ledger_fee_decimals asset_new.ledger_fee_decimals renamed).0

unfoldable pub refresh_asset : ℕ → ValidatedAsset → ValidatedBalances → ValidatedBalances
refresh_asset asset_id asset_new b =
    if asset_id == 0
    then record b { asset_0 = refreshed_asset asset_new b.asset_0 }
    else if asset_id == 1
    then record b { asset_1 = refreshed_asset asset_new b.asset_1 }
    else b
