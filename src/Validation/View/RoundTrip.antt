-- ===== src/Validation/View/RoundTrip.antt =====
-- The balance of one party in the API.
use sns_kongswap_adaptor.Base.{◌≤◌, ◌≡◌, arith}
use sns_kongswap_adaptor.Base.Result.{ok}
use sns_kongswap_adaptor.Arithmetics.{u64_max}
use sns_kongswap_adaptor.Validation.Asset.{Display}
use sns_kongswap_adaptor.Balances.{ValidatedBalance}
use sns_kongswap_adaptor.Validation.View.{balance_from, try_from_balance}

-- A stored balance whose amount fits in 64 bits is the same after its conversion to the API and back.
pub try_from_balance-balance_from :
    (d : Display) (b : ValidatedBalance)
    → b.amount_decimals ≤ u64_max
    → try_from_balance d (balance_from b) ≡ ok b
unfolding try_from_balance balance_from
try_from_balance-balance_from d b h = ground arith
