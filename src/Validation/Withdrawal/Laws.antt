-- ===== src/Validation/Withdrawal/Laws.antt =====
-- Where a withdrawal goes.
use sns_kongswap_adaptor.Base.{◌≡◌, refl, none, some, List, arith}
use sns_kongswap_adaptor.Base.Result.{ok}
use sns_kongswap_adaptor.Sns.{Principal, Account}
use sns_kongswap_adaptor.Validation.Withdrawal.{
  ValidatedWithdrawRequest, get, try_from_withdraw_request,
}

-- A request without accounts is accepted and names the two owner accounts. A request with accounts
-- is accepted exactly when it has one for each of the two ledgers, and names these, in the order of
-- the assets and not of the request.
pub try_from_withdraw_request_lem :
    (ledger_0 ledger_1 : Principal) (default_0 default_1 : Account)
    (accounts : List (Principal × Account)) (v : ValidatedWithdrawRequest)
    → (try_from_withdraw_request ledger_0 ledger_1 default_0 default_1
          (record { withdraw_accounts = none })
        ≡ ok (record { withdraw_account_0 = default_0; withdraw_account_1 = default_1 }))
      × (try_from_withdraw_request ledger_0 ledger_1 default_0 default_1
              (record { withdraw_accounts = some accounts })
            ≡ ok v
          → (get ledger_0 accounts ≡ some v.withdraw_account_0)
            × (get ledger_1 accounts ≡ some v.withdraw_account_1))
      × ((get ledger_0 accounts ≡ some v.withdraw_account_0)
          → (get ledger_1 accounts ≡ some v.withdraw_account_1)
          → try_from_withdraw_request ledger_0 ledger_1 default_0 default_1
              (record { withdraw_accounts = some accounts })
            ≡ ok v)
unfolding try_from_withdraw_request
try_from_withdraw_request_lem l0 l1 a b m v = (refl, ground arith, λ h k. rw (h, k) refl)
