-- ===== src/Adaptor/Deposit/Received.antt =====
-- What the transfers of a deposit book.
use sns_kongswap_adaptor.Balances.{ValidatedBalances, ValidatedBalanceBook}
use sns_kongswap_adaptor.Balances
use sns_kongswap_adaptor.Validation.Allowance.{ValidatedAllowance}
use sns_kongswap_adaptor.Machine.{Env, Machine}
use sns_kongswap_adaptor.Machine.Emit.Quiet.{
  IsQuiet, Books, BookedBoth, both-Booked, emit-Books, next_operation-Books, update_twice-Books,
  update-Books, now-Books,
}
use sns_kongswap_adaptor.Adaptor.State.{charge_fee, add_manager_balance}
use sns_kongswap_adaptor.Arithmetics.{saturating_sub}
use sns_kongswap_adaptor.Adaptor.Deposit.{
  set_dex_allowances_impl, set_dex_allowances, transfer_from_owner, transfer_from_owner_impl,
}

abbrev pub received : ValidatedAllowance → ValidatedBalances → ValidatedBalances
received a b =
    Balances.charge_approval_fee a.asset (Balances.add_manager_balance a.asset a.amount_decimals b)

module _ {W : Type 0} (env : Env W) (quiet : IsQuiet env) where
  pub transfer_from_owner_impl-Books :
      (a : ValidatedAllowance)
      → Books
          (received a)
          (saturating_sub a.amount_decimals a.asset.ledger_fee_decimals)
          (transfer_from_owner_impl env a)
  unfolding transfer_from_owner_impl charge_fee add_manager_balance
  transfer_from_owner_impl-Books a =
      search (next_operation-Books, emit-Books env quiet, update_twice-Books) depth 12

  pub set_dex_allowances_impl-Books :
      (a : ValidatedAllowance)
      → Books
          (Balances.charge_approval_fee a.asset)
          (saturating_sub a.amount_decimals a.asset.ledger_fee_decimals)
          (set_dex_allowances_impl env a)
  unfolding set_dex_allowances_impl charge_fee
  set_dex_allowances_impl-Books a =
      search (now-Books, next_operation-Books, emit-Books env quiet, update-Books) depth 12

-- An allowance of what has arrived.
abbrev pub less_fee : ValidatedAllowance → ValidatedAllowance
less_fee a = record a {
  amount_decimals = saturating_sub a.amount_decimals a.asset.ledger_fee_decimals;
}

-- While no other message changes the balances, the transfers from the owners never trap. Where both
-- succeed, the allowances go on with their amounts less one ledger fee, and the books have the credit
-- of each whole amount and the charge of each fee; where one fails, the books have those of the first
-- transfer or none, and nothing else.
pub transfer_from_owner-BookedBoth :
    {W : Type 0} (env : Env W) (a b : ValidatedAllowance) (m : Machine W)
    → IsQuiet env
    → let result = transfer_from_owner env a b m in
      BookedBoth
        (received a)
        (received b)
        (less_fee a, less_fee b)
        m.canister.balances
        result.0
        result.1.canister.balances
unfolding transfer_from_owner
transfer_from_owner-BookedBoth env a b m quiet =
    both-Booked (transfer_from_owner_impl env a) (transfer_from_owner_impl env b)
      (λ n k. (record a { amount_decimals = n }, record b { amount_decimals = k }))
      (transfer_from_owner_impl-Books env quiet a) (transfer_from_owner_impl-Books env quiet b) m

-- While no other message changes the balances, the approvals of the DEX never trap. Where both
-- succeed, each is for the amount less one ledger fee, and this fee is charged in the books; where one
-- fails, the books have the fee of the first approval or none, and nothing else.
pub set_dex_allowances-BookedBoth :
    {W : Type 0} (env : Env W) (a b : ValidatedAllowance) (m : Machine W)
    → IsQuiet env
    → let result = set_dex_allowances env a b m in
      BookedBoth
        (Balances.charge_approval_fee a.asset)
        (Balances.charge_approval_fee b.asset)
        ((less_fee a).amount_decimals, (less_fee b).amount_decimals)
        m.canister.balances
        result.0
        result.1.canister.balances
unfolding set_dex_allowances
set_dex_allowances-BookedBoth env a b m quiet =
    both-Booked (set_dex_allowances_impl env a) (set_dex_allowances_impl env b) (λ n k. (n, k))
      (set_dex_allowances_impl-Books env quiet a) (set_dex_allowances_impl-Books env quiet b) m
