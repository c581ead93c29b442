-- ===== src/Balances/Flows/Tasks.antt =====
-- What the runs of the periodic tasks change in the books.
use sns_kongswap_adaptor.Base.{ℕ, ◌≡◌, refl, Bool, true, false, if◌then◌else◌}
use sns_kongswap_adaptor.Sns.{Operation}
use sns_kongswap_adaptor.Validation.Asset.{ValidatedAsset, asset_eq}
use sns_kongswap_adaptor.Balances.{
  ValidatedBalances, set_external_custodian_balance, set_external, update_book,
}
use sns_kongswap_adaptor.Balances.Bounds.{Update, apply}
use sns_kongswap_adaptor.Balances.Flows.{Permits, observed, Runs, still, next, Observations}

-- Balances with other amounts at the DEX.
abbrev pub with_external : ℕ → ℕ → ValidatedBalances → ValidatedBalances
with_external x y b = record b {
  asset_0_balance = record b.asset_0_balance { external = x };
  asset_1_balance = record b.asset_1_balance { external = y };
}

abbrev pub IsObserved : ValidatedBalances → ValidatedBalances → Type 0
IsObserved a b = (x y : ℕ) × (b ≡ with_external x y a)

set_external_custodian_balance-IsObserved :
    (asset : ValidatedAsset) (n x y : ℕ) (a : ValidatedBalances)
    → IsObserved a (set_external_custodian_balance asset n (with_external x y a))
unfolding set_external_custodian_balance update_book set_external
set_external_custodian_balance-IsObserved asset n x y a =
    by_asset (asset_eq asset a.asset_0) (asset_eq asset a.asset_1)
  where
    by_asset :
        (first second : Bool)
        → let b = with_external x y a in
          IsObserved a (
            if first
            then record b { asset_0_balance = record b.asset_0_balance { external = n } }
            else if second
            then record b { asset_1_balance = record b.asset_1_balance { external = n } }
            else b)
    by_asset true second = (n, y, refl)
    by_asset false true = (x, n, refl)
    by_asset false false = (x, y, refl)

observation-IsObserved :
    {op : Operation} {u : Update} (a b : ValidatedBalances)
    → Observations op
    → Permits op u
    → IsObserved a b
    → IsObserved a (apply u b)
unfolding apply
observation-IsObserved a b o (observed asset n) (x, y, e) =
    rw e (set_external_custodian_balance-IsObserved asset n x y a)
observation-IsObserved a b o _ h = elim o [ ]

pub Runs-IsObserved : {a b : ValidatedBalances} → Runs Observations a b → IsObserved a b
Runs-IsObserved still = (_, _, refl)
Runs-IsObserved {a} (next {b' = b'} run o p) = observation-IsObserved a b' o p (Runs-IsObserved run)
