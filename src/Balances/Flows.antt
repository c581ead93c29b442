-- ===== src/Balances/Flows.antt =====
-- The flows of assets that kongswap-adaptor.did draws for the parties, as the updates of the books
-- that each operation of the treasury manager may make, and the runs of such updates.
pub mod Rises
pub mod Dex
pub mod Tasks
use sns_kongswap_adaptor.Base.{ℕ}
use sns_kongswap_adaptor.Sns.{Operation}
use sns_kongswap_adaptor.Validation.Asset.{ValidatedAsset}
use sns_kongswap_adaptor.Balances.{ValidatedBalances, Party}
use sns_kongswap_adaptor.Balances.Bounds.{Update, apply}

-- A deposit receives assets, pays fees, sends assets to the DEX and what is left to the owner. A
-- withdrawal takes assets from the DEX and sends them to the owner. The rewards refresh the metadata
-- and send what there is to the owner. Only the balances operation sets what the DEX holds.
pub data Permits : Operation → Update → Type 0 where
  received : (a : ValidatedAsset) (n : ℕ) → Permits Operation.deposit (Update.credit a n)
  charged : (a : ValidatedAsset) → Permits Operation.deposit (Update.charge a)
  to_dex :
      (a : ValidatedAsset) (n : ℕ)
      → Permits Operation.deposit (Update.move a Party.treasury_manager Party.external n)
  deposit_checked :
      (a : ValidatedAsset) (x y z : ℕ) → Permits Operation.deposit (Update.deposit_check a x y z)
  left_over :
      (a : ValidatedAsset) (n : ℕ)
      → Permits Operation.deposit (Update.move a Party.treasury_manager Party.treasury_owner n)
  from_dex :
      (a : ValidatedAsset) (n : ℕ)
      → Permits Operation.withdraw (Update.move a Party.external Party.treasury_manager n)
  withdraw_checked :
      (a : ValidatedAsset) (x y z : ℕ) → Permits Operation.withdraw (Update.withdraw_check a x y z)
  withdrawn :
      (a : ValidatedAsset) (n : ℕ)
      → Permits Operation.withdraw (Update.move a Party.treasury_manager Party.treasury_owner n)
  refreshed : (i : ℕ) (a : ValidatedAsset) → Permits Operation.issue_reward (Update.refresh i a)
  rewarded :
      (a : ValidatedAsset) (n : ℕ)
      → Permits Operation.issue_reward (Update.move a Party.treasury_manager Party.treasury_owner n)
  observed : (a : ValidatedAsset) (n : ℕ) → Permits Operation.balances (Update.external a n)

-- A run: updates that the given operations permit, one after the other.
pub data Runs (O : Operation → Type 0) : ValidatedBalances → ValidatedBalances → Type 0 where
  still : {b : ValidatedBalances} → Runs O b b
  next :
      {b b' : ValidatedBalances} {op : Operation} {u : Update}
      → Runs O b b'
      → O op
      → Permits op u
      → Runs O b (apply u b')

-- A run that the canister can be in, whatever the operation.
abbrev pub AnyOperation : Operation → Type 0
AnyOperation op = Unit

abbrev pub Deposits : Operation → Type 0
Deposits Operation.deposit = Unit
Deposits _ = ⊥

abbrev pub Withdrawals : Operation → Type 0
Withdrawals Operation.withdraw = Unit
Withdrawals _ = ⊥

abbrev pub Rewards : Operation → Type 0
Rewards Operation.issue_reward = Unit
Rewards _ = ⊥

abbrev pub Observations : Operation → Type 0
Observations Operation.balances = Unit
Observations _ = ⊥
