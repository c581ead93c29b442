-- ===== src/Balances/Flows/Dex.antt =====
-- Which way what the DEX holds goes in the runs of deposits and of withdrawals.
use sns_kongswap_adaptor.Base.{ℕ, ◌≤◌, arith, Bool, true, false, if◌then◌else◌}
use sns_kongswap_adaptor.Arithmetics.Laws.{saturating}
use sns_kongswap_adaptor.Sns.{Operation}
use sns_kongswap_adaptor.Validation.Asset.{ValidatedAsset, asset_eq}
use sns_kongswap_adaptor.Balances.{
  ValidatedBalances, ValidatedBalanceBook, Party, add_manager_balance, move_asset,
  charge_approval_fee, find_deposit_discrepency, find_withdraw_discrepency, update_book,
  credit_manager, move_in_book, charge_fee_in_book, deposit_suspense, withdraw_suspense,
}
use sns_kongswap_adaptor.Balances.Bounds.{Update, apply}
use sns_kongswap_adaptor.Balances.Flows.{
  Permits, received, charged, to_dex, deposit_checked, left_over, from_dex, withdraw_checked,
  withdrawn, Runs, still, next, Deposits, Withdrawals,
}
use sns_kongswap_adaptor.Balances.Flows.Rises.{Rises, Rises-refl, Rises-trans, Rises-add}

-- A relation between what two versions of the books say that the DEX holds.
abbrev pub AtDex : (ℕ → ℕ → Type 0) → ValidatedBalances → ValidatedBalances → Type 0
AtDex R a b =
    R a.asset_0_balance.external b.asset_0_balance.external
    × R a.asset_1_balance.external b.asset_1_balance.external

module _ (R : ℕ → ℕ → Type 0) (same : (x : ℕ) → R x x) where
  update_book-AtDex :
      (asset : ValidatedAsset) (f : ValidatedBalanceBook → ValidatedBalanceBook)
      (b : ValidatedBalances)
      → ((book : ValidatedBalanceBook) → R book.external (f book).external)
      → AtDex R b (update_book asset f b)
  unfolding update_book
  update_book-AtDex asset f b keep = by_asset (asset_eq asset b.asset_0) (asset_eq asset b.asset_1)
    where
      by_asset :
          (first second : Bool)
          → AtDex R b (
              if first
              then record b { asset_0_balance = f b.asset_0_balance }
              else if second
              then record b { asset_1_balance = f b.asset_1_balance }
              else b)
      by_asset true second = (keep b.asset_0_balance, same _)
      by_asset false true = (same _, keep b.asset_1_balance)
      by_asset false false = (same _, same _)

  if-external :
      (c : Bool) (book changed : ValidatedBalanceBook)
      → R book.external changed.external
      → R book.external (if c then changed else book).external
  if-external true book changed h = h
  if-external false book changed h = same _

deposit-Rises :
    {op : Operation} {u : Update} (b : ValidatedBalances)
    → Deposits op
    → Permits op u
    → AtDex Rises b (apply u b)
unfolding apply add_manager_balance move_asset charge_approval_fee find_deposit_discrepency
    credit_manager charge_fee_in_book deposit_suspense move_in_book
deposit-Rises b o (received a n) = update_book-AtDex Rises Rises-refl a _ b (λ book. Rises-refl _)
deposit-Rises b o (charged a) = update_book-AtDex Rises Rises-refl a _ b (λ book. Rises-refl _)
deposit-Rises b o (to_dex a n) = update_book-AtDex Rises Rises-refl a _ b (λ book. Rises-add _ _)
deposit-Rises b o (deposit_checked a x y z) =
    update_book-AtDex Rises Rises-refl a _ b
      (λ book. if-external Rises Rises-refl _ book _ (Rises-refl _))
deposit-Rises b o (left_over a n) = update_book-AtDex Rises Rises-refl a _ b (λ book. Rises-refl _)
deposit-Rises b o _ = elim o [ ]

abbrev Falls : ℕ → ℕ → Type 0
Falls x y = y ≤ x

Falls-refl : (x : ℕ) → Falls x x
Falls-refl x = omega arith

taken_from_dex :
    (fee n : ℕ) (book : ValidatedBalanceBook)
    → Falls book.external (move_in_book fee Party.external Party.treasury_manager n book).external
unfolding move_in_book
taken_from_dex fee n book = omega saturating

withdrawal-Falls :
    {op : Operation} {u : Update} (b : ValidatedBalances)
    → Withdrawals op
    → Permits op u
    → AtDex Falls b (apply u b)
unfolding apply move_asset find_withdraw_discrepency withdraw_suspense move_in_book
withdrawal-Falls b o (from_dex a n) =
    update_book-AtDex Falls Falls-refl a
      (move_in_book a.ledger_fee_decimals Party.external Party.treasury_manager n) b
      (taken_from_dex a.ledger_fee_decimals n)
withdrawal-Falls b o (withdraw_checked a x y z) =
    update_book-AtDex Falls Falls-refl a _ b
      (λ book. if-external Falls Falls-refl _ book _ (Falls-refl _))
withdrawal-Falls b o (withdrawn a n) =
    update_book-AtDex Falls Falls-refl a _ b (λ book. Falls-refl _)
withdrawal-Falls b o _ = elim o [ ]

pub Deposits-Rises : {a b : ValidatedBalances} → Runs Deposits a b → AtDex Rises a b
Deposits-Rises still = (Rises-refl _, Rises-refl _)
Deposits-Rises (next {b' = b'} run o p) =
    let (x, y) = Deposits-Rises run in
    let (x', y') = deposit-Rises b' o p in (Rises-trans x x', Rises-trans y y')

pub Withdrawals-Falls : {a b : ValidatedBalances} → Runs Withdrawals a b → AtDex Falls a b
Withdrawals-Falls still = (Falls-refl _, Falls-refl _)
Withdrawals-Falls (next {b' = b'} run o p) =
    let (x, y) = Withdrawals-Falls run in
    let (x', y') = withdrawal-Falls b' o p in (omega (arith, x, x'), omega (arith, y, y'))
