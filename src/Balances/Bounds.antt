-- ===== src/Balances/Bounds.antt =====
-- The operations as values, and the invariants of the books under any sequence of them.
use sns_kongswap_adaptor.Base.{ℕ, ◌≤◌, List, [], ◌∷◌}
use sns_kongswap_adaptor.Arithmetics.{u64_max}
use sns_kongswap_adaptor.Validation.Asset.{ValidatedAsset}
use sns_kongswap_adaptor.Balances.{
  ValidatedBalances, ValidatedBalanceBook, Party, refresh_asset, set_external_custodian_balance,
  add_manager_balance, move_asset, charge_approval_fee, find_deposit_discrepency,
  find_withdraw_discrepency,
}

-- A call of one of the methods that change the balances.
pub data Update : Type 0 where
  refresh : ℕ → ValidatedAsset → Update
  external : ValidatedAsset → ℕ → Update
  credit : ValidatedAsset → ℕ → Update
  move : ValidatedAsset → Party → Party → ℕ → Update
  charge : ValidatedAsset → Update
  deposit_check withdraw_check : ValidatedAsset → ℕ → ℕ → ℕ → Update

unfoldable pub apply : Update → ValidatedBalances → ValidatedBalances
apply (Update.refresh i asset) = refresh_asset i asset
apply (Update.external asset balance) = set_external_custodian_balance asset balance
apply (Update.credit asset amount) = add_manager_balance asset amount
apply (Update.move asset from to amount) = move_asset asset from to amount
apply (Update.charge asset) = charge_approval_fee asset
apply (Update.deposit_check asset x y z) = find_deposit_discrepency asset x y z
apply (Update.withdraw_check asset x y z) = find_withdraw_discrepency asset x y z

unfoldable pub apply_all : List Update → ValidatedBalances → ValidatedBalances
apply_all [] b = b
apply_all (u ∷ us) b = apply_all us (apply u b)

pub record IsBookBounded (b : ValidatedBalanceBook) : Type 0 where
  pub treasury_owner : b.treasury_owner.amount_decimals ≤ u64_max
  pub treasury_manager : b.treasury_manager.amount_decimals ≤ u64_max
  pub external : b.external ≤ u64_max
  pub fee_collector : b.fee_collector ≤ u64_max
  pub spendings : b.spendings ≤ u64_max
  pub earnings : b.earnings ≤ u64_max
  pub suspense : b.suspense ≤ u64_max
