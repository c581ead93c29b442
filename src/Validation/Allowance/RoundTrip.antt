-- ===== src/Validation/Allowance/RoundTrip.antt =====
-- The allowances that a deposit is accepted with, sent back to the API: the installation sends them to
-- the canister's own `deposit`.
use sns_kongswap_adaptor.Base.{◌≡◌, refl, ◌≤◌, ◌/◌, ltb, false, List, [], ◌∷◌, arith, inl, inr}
use sns_kongswap_adaptor.Base.Text.{Text}
use sns_kongswap_adaptor.Base.Result.{ok, Result-cases}
use sns_kongswap_adaptor.Arithmetics.{u64_max}
use sns_kongswap_adaptor.Sns.{Principal, Asset, token, Allowance}
use sns_kongswap_adaptor.Validation.Symbol.{try_from_text}
use sns_kongswap_adaptor.Validation.Symbol.RoundTrip.{try_from_text-to_string}
use sns_kongswap_adaptor.Validation.Asset.{
  ValidatedAsset, symbol_text, Display, try_from_asset, decode_nat_to_u64, asset_from,
}
use sns_kongswap_adaptor.Validation.Allowance.{
  ValidatedAllowance, validate_assets, try_from_allowance, validate_allowances, allowance_from,
  try_from_deposit_request, judge_allowance,
}
use sns_kongswap_adaptor.Validation.Allowance.Laws.{
  IsSupported, IsCovered, validate_assets-eq-ok, validate_allowances-IsCovered,
}

-- The same token, as far as it prints.
pub record SameToken (a b : ValidatedAsset) : Type 0 where
  pub symbol : symbol_text a ≡ symbol_text b
  pub ledger : a.ledger_canister_id ≡ b.ledger_canister_id
  pub fee : a.ledger_fee_decimals ≡ b.ledger_fee_decimals

pub record SameAllowance (a b : ValidatedAllowance) : Type 0 where
  pub asset : SameToken a.asset b.asset
  pub amount : a.amount_decimals ≡ b.amount_decimals
  pub owner : a.owner_account ≡ b.owner_account

module _ (d : Display) where
  try_from_asset-parts :
      (a : Asset) (v : ValidatedAsset)
      → try_from_asset d a ≡ ok v
      → (t : Text) × (try_from_text t ≡ ok v.symbol) × (v.ledger_fee_decimals ≤ u64_max)
  unfolding try_from_asset decode_nat_to_u64
  try_from_asset-parts (token symbol ledger fee) v h = elim (Result-cases (try_from_text symbol)) [
    | inl (s, e) ↦ (symbol, ground (arith, e), ground (arith, e))
    | inr (x, e) ↦ (let k = rw e at h in cc)
  ]

  try_from_asset-asset_from :
      (a : Asset) (v : ValidatedAsset)
      → try_from_asset d a ≡ ok v
      → (v' : ValidatedAsset) × (try_from_asset d (asset_from v) ≡ ok v') × SameToken v' v
  unfolding asset_from try_from_asset decode_nat_to_u64
  try_from_asset-asset_from a v h =
      let (t, accepted, fits) = try_from_asset-parts a v h in
      let (s', again, prints) = try_from_text-to_string t v.symbol accepted in
      (
        record v { symbol = s' },
        rw again (ground arith),
        record { symbol = prints; ledger = refl; fee = refl },
      )

  try_from_allowance-allowance_from :
      (a : Allowance) (v : ValidatedAllowance)
      → IsCovered d a v
      → (v' : ValidatedAllowance) × (try_from_allowance d (allowance_from v) ≡ ok v')
        × SameAllowance v' v
  unfolding try_from_allowance allowance_from decode_nat_to_u64 judge_allowance
  try_from_allowance-allowance_from a v h =
      let (asset', again, same) = try_from_asset-asset_from a.asset v.asset h.asset in
      let fits = h.fits in
      let covers : ltb (v.amount_decimals / 10) asset'.ledger_fee_decimals ≡ false =
        rw same.fee (let f = h.fee in ground arith) in
      (
        record v { asset = asset' },
        rw (again, covers) (ground arith),
        record { asset = same; amount = refl; owner = refl },
      )

module _ (d : Display) (icp : Principal) where
  same-IsSupported :
      (a b a' b' : ValidatedAsset)
      → SameToken a' a
      → SameToken b' b
      → IsSupported icp a b
      → IsSupported icp a' b'
  same-IsSupported a b a' b' x y s = record {
    symbol_0 = rw x.symbol s.symbol_0;
    symbol_1 = rw y.symbol s.symbol_1;
    ledger_0 = rw x.ledger s.ledger_0;
    ledger_1 = rw y.ledger s.ledger_1;
  }

  -- Allowances that were accepted, sent as a deposit request, are accepted again, in their order, with
  -- the same amounts and accounts, for assets with the same ledgers, fees and printed symbols.
  pub try_from_deposit_request-allowance_from :
      (allowances : List Allowance) (v w : ValidatedAllowance)
      → validate_allowances d icp allowances ≡ ok (v, w)
      → (v' w' : ValidatedAllowance) × (try_from_deposit_request d icp
            (record { allowances = allowance_from v ∷ allowance_from w ∷ [] })
          ≡ ok (record { allowance_0 = v'; allowance_1 = w' }))
        × SameAllowance v' v
        × SameAllowance w' w
  unfolding try_from_deposit_request validate_allowances
  try_from_deposit_request-allowance_from allowances v w h =
      let (a, b, e, first, second, supported) =
        validate_allowances-IsCovered d icp allowances v w h in
      let (v', again, same) = try_from_allowance-allowance_from d a v first in
      let (w', again', same') = try_from_allowance-allowance_from d b w second in
      let accepted : validate_assets icp (v'.asset ∷ w'.asset ∷ []) ≡ ok (v'.asset, w'.asset) =
        (validate_assets-eq-ok icp (v'.asset ∷ w'.asset ∷ []) v'.asset w'.asset).1 refl
          (same-IsSupported v.asset w.asset v'.asset w'.asset same.asset same'.asset supported) in
      (v', w', rw (again, again', accepted) refl, same, same')
