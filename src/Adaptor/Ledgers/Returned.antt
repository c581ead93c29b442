-- ===== src/Adaptor/Ledgers/Returned.antt =====
-- What the return of an asset to its owner books.
use sns_kongswap_adaptor.Base.{ℕ, if◌then◌else◌, ◌==◌}
use sns_kongswap_adaptor.Sns.{Account}
use sns_kongswap_adaptor.Validation.Asset.{ValidatedAsset}
use sns_kongswap_adaptor.Balances.{treasury_manager, treasury_owner}
use sns_kongswap_adaptor.Balances
use sns_kongswap_adaptor.Machine.{Env, Machine}
use sns_kongswap_adaptor.Machine.Emit.Quiet.{
  IsQuiet, guarded-Books, Books, Booked, emit-Books, next_operation-Books, now-Books, end-Books,
  if-Books,
}
use sns_kongswap_adaptor.Adaptor.State.{move_asset}
use sns_kongswap_adaptor.Adaptor.Ledgers.{return_remaining_assets_to_owner_impl}

module _ {W : Type 0} (env : Env W) (quiet : IsQuiet env) where
  pub returned-Books :
      (asset : ValidatedAsset) (amount : ℕ) (account : Account)
      → Books
          (λ b.
            if amount == 0
            then b
            else Balances.move_asset asset treasury_manager treasury_owner amount b)
          tt
          (return_remaining_assets_to_owner_impl env asset amount account)
  unfolding return_remaining_assets_to_owner_impl move_asset
  returned-Books asset amount account = if-Books (amount == 0) (
      search (next_operation-Books, now-Books, guarded-Books, emit-Books env quiet, end-Books) depth
        12)

-- While no other message changes the balances: where the return of an amount of an asset succeeds, exactly this amount has moved from the manager to the owner in the books, or nothing
-- where it is 0; and where it fails, the balances are those from before.
pub return_remaining_assets_to_owner_impl-Booked :
    {W : Type 0} (env : Env W) (asset : ValidatedAsset) (amount : ℕ) (account : Account)
    (m : Machine W)
    → IsQuiet env
    → let result = return_remaining_assets_to_owner_impl env asset amount account m in
      Booked
        (λ b.
          if amount == 0
          then b
          else Balances.move_asset asset treasury_manager treasury_owner amount b)
        tt
        m.canister.balances
        result.0
        result.1.canister.balances
return_remaining_assets_to_owner_impl-Booked env asset amount account m quiet =
    (returned-Books env quiet asset amount account).at m
