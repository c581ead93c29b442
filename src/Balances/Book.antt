-- ===== src/Balances/Book.antt =====
-- balances.rs, the bodies of the methods of `ValidatedBalances` on the book of one asset.
use sns_kongswap_adaptor.Base.{ℕ, ltb, if◌then◌else◌}
use sns_kongswap_adaptor.Base.Text.{Text, str}
use sns_kongswap_adaptor.Arithmetics.{logged_saturating_add, logged_saturating_sub}
use sns_kongswap_adaptor.Sns.{Account}

pub data Party : Type 0 where
  treasury_owner treasury_manager external fee_collector spendings earnings : Party

-- `Display`.
unfoldable pub party_text : Party → Text
party_text Party.treasury_owner = str "TreasuryOwner"
party_text Party.treasury_manager = str "TreasuryManager"
party_text Party.external = str "External"
party_text Party.fee_collector = str "FeeCollector"
party_text Party.earnings = str "Earning"
party_text Party.spendings = str "Spendings"

-- validation.rs
pub record ValidatedBalance : Type 0 where
  pub amount_decimals : ℕ
  pub account : Account
  pub name : Text

pub record ValidatedBalanceBook : Type 0 where
  pub treasury_owner : ValidatedBalance
  pub treasury_manager : ValidatedBalance
  pub external : ℕ
  pub fee_collector : ℕ
  pub spendings : ℕ
  pub earnings : ℕ
  pub suspense : ℕ

abbrev pub empty_book : Text → Account → Text → Account → ValidatedBalanceBook
empty_book owner_name owner_account manager_name manager_account = record {
  treasury_owner = record { amount_decimals = 0; account = owner_account; name = owner_name };
  treasury_manager = record { amount_decimals = 0; account = manager_account; name = manager_name };
  external = 0;
  fee_collector = 0;
  spendings = 0;
  earnings = 0;
  suspense = 0;
}

abbrev add_to : ValidatedBalance → ℕ → ValidatedBalance
add_to b amount = record b { amount_decimals = logged_saturating_add b.amount_decimals amount }

abbrev sub_from : ValidatedBalance → ℕ → ValidatedBalance
sub_from b amount = record b { amount_decimals = logged_saturating_sub b.amount_decimals amount }

unfoldable pub set_external : ℕ → ValidatedBalanceBook → ValidatedBalanceBook
set_external balance book = record book { external = balance }

unfoldable pub credit_manager : ℕ → ValidatedBalanceBook → ValidatedBalanceBook
credit_manager amount book = record book { treasury_manager = add_to book.treasury_manager amount }

-- The `match (&from, &to)`: what arrives is the amount less the ledger fee.
unfoldable pub move_amount : ℕ → Party → Party → ℕ → ValidatedBalanceBook → ValidatedBalanceBook
move_amount fee Party.external Party.treasury_manager amount book = record book {
  external = logged_saturating_sub book.external amount;
  treasury_manager = add_to book.treasury_manager (logged_saturating_sub amount fee);
}
move_amount fee Party.treasury_manager Party.treasury_owner amount book = record book {
  treasury_manager = sub_from book.treasury_manager amount;
  treasury_owner = add_to book.treasury_owner (logged_saturating_sub amount fee);
}
move_amount fee Party.treasury_manager Party.external amount book = record book {
  treasury_manager = sub_from book.treasury_manager amount;
  external = logged_saturating_add book.external (logged_saturating_sub amount fee);
}
move_amount fee _ _ amount book = book

-- The fee is collected after the match, whatever the parties were.
unfoldable pub move_in_book : ℕ → Party → Party → ℕ → ValidatedBalanceBook → ValidatedBalanceBook
unfolding move_amount
move_in_book fee from to amount book =
    let moved = move_amount fee from to amount book in
    record moved { fee_collector = logged_saturating_add moved.fee_collector fee }

unfoldable pub charge_fee_in_book : ℕ → ValidatedBalanceBook → ValidatedBalanceBook
charge_fee_in_book fee book = record book {
  fee_collector = logged_saturating_add book.fee_collector fee;
  treasury_manager = sub_from book.treasury_manager fee;
}

unfoldable pub deposit_suspense : ℕ → ℕ → ℕ → ValidatedBalanceBook → ValidatedBalanceBook
deposit_suspense balance_before balance_after transferred_amount book =
    let manager_balance_delta = logged_saturating_sub balance_before balance_after in
    if ltb transferred_amount manager_balance_delta
    then record book {
      suspense =
          logged_saturating_add book.suspense
            (logged_saturating_sub manager_balance_delta transferred_amount);
    }
    else book

unfoldable pub withdraw_suspense : ℕ → ℕ → ℕ → ℕ → ValidatedBalanceBook → ValidatedBalanceBook
withdraw_suspense fee balance_before balance_after transferred_amount book =
    let manager_balance_delta = logged_saturating_sub balance_after balance_before in
    let expected_received_amount = logged_saturating_sub transferred_amount fee in
    if ltb manager_balance_delta expected_received_amount
    then record book {
      suspense =
          logged_saturating_add book.suspense
            (logged_saturating_sub expected_received_amount manager_balance_delta);
    }
    else book
