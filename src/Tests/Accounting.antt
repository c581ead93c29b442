-- ===== src/Tests/Accounting.antt =====
-- The books of a deposit and of a withdrawal.
use sns_kongswap_adaptor.Base.{◌≡◌, refl, some, false, arith, inr, List, [], ◌∷◌, ◌++◌}
use sns_kongswap_adaptor.Base.Text.{str, text_eq}
use sns_kongswap_adaptor.Arithmetics.{logged_saturating_add, logged_saturating_sub}
use sns_kongswap_adaptor.Validation.Asset.{asset_eq}
use sns_kongswap_adaptor.Balances.{ValidatedBalanceBook, treasury_manager}
use sns_kongswap_adaptor.Balances.Select.{book_of}
use sns_kongswap_adaptor.Adaptor.Writes.Accounts.{Covers, deposit_updates-IsBalanced}
use sns_kongswap_adaptor.Adaptor.Writes.Conserves.{IsBalanced}
use sns_kongswap_adaptor.Adaptor.Writes.Deposit.{deposit_updates}
use sns_kongswap_adaptor.Balances.Bounds.{Update, apply_all}
use sns_kongswap_adaptor.Balances.{external, withdraw_suspense, move_in_book}
use sns_kongswap_adaptor.Adaptor.Writes.{to_owner}
use sns_kongswap_adaptor.Adaptor.Writes.Takes.{Taking}
use sns_kongswap_adaptor.Adaptor.Writes.Withdrawn.{IsWithdrawn}
use sns_kongswap_adaptor.Adaptor.Writes.Settles.{AllCovered, IsSettled, IsWithdrawn-IsSettled}
use sns_kongswap_adaptor.Tests.Fixtures.{dao, icp, validated, some_balances, some_book}

dao_book : book_of dao some_balances ≡ some some_book
unfolding book_of asset_eq text_eq str
dao_book = refl

icp_book : book_of icp some_balances ≡ some some_book
unfolding book_of asset_eq text_eq str
icp_book = refl

distinct : asset_eq icp dao ≡ false
unfolding asset_eq text_eq str
distinct = refl

-- The updates of a deposit of 500,000 DAO and 400,000 ICP, of which 479,000 and 381,000 go to the DEX,
-- and after which 1,000,000 of each are returned.
abbrev updates : List Update
updates =
    deposit_updates (dao, icp) (validated dao 500_000) (validated icp 400_000) (479_000, 381_000)
      (1_000_000, 1_000_000) (1_000_000, 1_000_000) (1_000_000, 1_000_000)

Covers-dao : Covers 10_500 500_000 479_000 1_000_000 some_book
Covers-dao = record {
  pays = omega arith;
  sends = omega arith;
  returns = inr (omega arith);
  holds = omega arith;
  fits = omega arith;
}

Covers-icp : Covers 9_500 400_000 381_000 1_000_000 some_book
Covers-icp = record {
  pays = omega arith;
  sends = omega arith;
  returns = inr (omega arith);
  holds = omega arith;
  fits = omega arith;
}

deposit_updates-IsBalanced_example :
    (after_a after_b : ValidatedBalanceBook) × (book_of dao (apply_all updates some_balances)
      ≡ some after_a)
    × (book_of icp (apply_all updates some_balances) ≡ some after_b)
    × IsBalanced 10_500 500_000 479_000 1_000_000 some_book after_a
    × IsBalanced 9_500 400_000 381_000 1_000_000 some_book after_b
deposit_updates-IsBalanced_example =
    deposit_updates-IsBalanced (validated dao 500_000) (validated icp 400_000) (479_000, 381_000)
      (1_000_000, 1_000_000) (1_000_000, 1_000_000) (1_000_000, 1_000_000) some_balances some_book
      some_book distinct dao_book icp_book Covers-dao Covers-icp

-- A withdrawal of 160,500 DAO from the DEX, of which 480,000 with what was there go to the owner.
abbrev taken : List Update
taken =
    Update.withdraw_check dao 100_000 200_000 160_500
    ∷ Update.move dao external treasury_manager 160_500
    ∷ []

abbrev withdrawal : List Update
withdrawal = taken ++ (to_owner dao 480_000 ++ to_owner icp 0)

withdrawal-IsWithdrawn : IsWithdrawn (dao, icp) withdrawal
withdrawal-IsWithdrawn =
    (taken, (480_000, 0), (Taking.compared _ _ _ _, (Taking.from_dex _ _, tt)), refl)

withdrawal-AllCovered : AllCovered dao withdrawal some_book
unfolding asset_eq text_eq str withdraw_suspense move_in_book logged_saturating_add
    logged_saturating_sub
withdrawal-AllCovered = (tt, ((omega arith, omega arith), ((omega arith, omega arith), tt)))

IsWithdrawn-IsSettled_example :
    (after : ValidatedBalanceBook) × (book_of dao (apply_all withdrawal some_balances) ≡ some after)
    × IsSettled 160_500 480_000 21_000 10_500 some_book after
unfolding asset_eq text_eq str
IsWithdrawn-IsSettled_example =
    IsWithdrawn-IsSettled (dao, icp) withdrawal dao some_balances some_book withdrawal-IsWithdrawn
      dao_book withdrawal-AllCovered (omega arith)
