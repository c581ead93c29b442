-- ===== src/Validation/Allowance.antt =====
-- validation.rs, `validate_assets`, `validate_allowances` and the requests that carry allowances.
pub mod Laws
pub mod RoundTrip
use mathlib.Core.List.{reverse}
use sns_kongswap_adaptor.Base.{
  ℕ, ◌-◌, ◌/◌, Bool, true, false, not, List, [], ◌∷◌, ◌++◌, ltb, if◌then◌else◌, length,
}
use sns_kongswap_adaptor.Base.Text.{Text, str, decimal, join, text_eq}
use sns_kongswap_adaptor.Base.Result.{Result, ok, err, ◌>>=◌, map_err}
use sns_kongswap_adaptor.Sns.{
  Principal, principal_eq, Account, Allowance, TreasuryManagerInit, DepositRequest,
}
use sns_kongswap_adaptor.Validation.Asset.{
  ValidatedAsset, symbol_text, Display, decode_nat_to_u64, try_from_asset, asset_from,
}

pub record ValidatedAllowance : Type 0 where
  pub asset : ValidatedAsset
  pub amount_decimals : ℕ
  pub owner_account : Account

-- The two allowances of a `ValidatedDepositRequest` and of a `ValidatedTreasuryManagerInit`.
pub record ValidatedDepositRequest : Type 0 where
  pub allowance_0 : ValidatedAllowance
  pub allowance_1 : ValidatedAllowance

-- A problem is noted if its test holds.
abbrev pub note_if : Bool → Text → List Text
note_if c problem = if c then problem ∷ [] else []

abbrev invalid_assets : Text → Result (ValidatedAsset × ValidatedAsset) Text
invalid_assets problem = err (str "Invalid assets: " ++ problem)

module _ (icp_ledger_canister_id : Principal) where
  -- What is wrong with a pair of assets, given how many assets were before them.
  unfoldable pub asset_problems : ℕ → ValidatedAsset → ValidatedAsset → List Text
  asset_problems rest asset_0 asset_1 =
      note_if (ltb 0 rest)
        (str "KongSwapAdaptor requires exactly two assets (got " ++ (decimal rest ++ str ")."))
      ++ (note_if (text_eq (symbol_text asset_0) (str "ICP"))
            (str "asset_0 must NOT represent ICP tokens.")
          ++ (note_if (not (text_eq (symbol_text asset_1) (str "ICP")))
                (str "asset_1 must represent ICP tokens.")
              ++ (note_if (principal_eq asset_0.ledger_canister_id icp_ledger_canister_id)
                    (str "asset_0 ledger must NOT be the ICP ledger.")
                  ++ note_if (not (principal_eq asset_1.ledger_canister_id icp_ledger_canister_id))
                      (str "asset_1 ledger must be the ICP ledger."))))

  judge_assets :
      List Text → ValidatedAsset → ValidatedAsset → Result (ValidatedAsset × ValidatedAsset) Text
  judge_assets [] asset_0 asset_1 = ok (asset_0, asset_1)
  judge_assets (p ∷ ps) asset_0 asset_1 =
      invalid_assets (str "\n  - " ++ join (str "  - \n") (p ∷ ps))

  -- `pop` takes from the end: the clauses match the reversed vector. The number in the second message
  -- is the length after both calls of `pop`.
  pop_assets : List ValidatedAsset → Result (ValidatedAsset × ValidatedAsset) Text
  pop_assets [] = invalid_assets (str "KongSwapAdaptor requires some assets.")
  pop_assets (asset_1 ∷ []) =
      invalid_assets (str "KongSwapAdaptor requires two assets (got " ++ (decimal 0 ++ str ")."))
  pop_assets (asset_1 ∷ asset_0 ∷ rest) =
      judge_assets (asset_problems (length rest) asset_0 asset_1) asset_0 asset_1

  unfoldable pub validate_assets :
      List ValidatedAsset → Result (ValidatedAsset × ValidatedAsset) Text
  unfolding pop_assets judge_assets
  validate_assets assets = pop_assets (reverse assets)

module _ (d : Display) where
  abbrev asset_or_problems : ℕ → Result ValidatedAsset Text → List Text
  asset_or_problems amount (ok asset) = note_if (ltb (amount / 10) asset.ledger_fee_decimals) (
      str "Allowance amount must be at least 10 * ledger fee; got amount: "
      ++ (d.nat amount ++ (str ", expected fee: " ++ decimal asset.ledger_fee_decimals)))
  asset_or_problems amount (err problem) = problem ∷ []

  abbrev decode_problems : Result ℕ Text → List Text
  decode_problems (ok amount) = []
  decode_problems (err problem) = problem ∷ []

  -- The two `unwrap`s stand behind the test that there is no problem.
  judge_allowance :
      List Text
      → Result ValidatedAsset Text
      → Result ℕ Text
      → Account
      → Result ValidatedAllowance Text
  judge_allowance [] (ok asset) (ok amount) owner_account =
      ok (record { asset = asset; amount_decimals = amount; owner_account = owner_account })
  judge_allowance problems asset amount owner_account =
      err (str "Invalid allowance:\n - " ++ join (str "  - \n") problems)

  -- `TryFrom<Allowance>`. The conversion of the account keeps its two fields.
  unfoldable pub try_from_allowance : Allowance → Result ValidatedAllowance Text
  unfolding judge_allowance try_from_asset decode_nat_to_u64
  try_from_allowance allowance =
      let asset = try_from_asset d allowance.asset in
      let amount = decode_nat_to_u64 d allowance.amount_decimals in
      judge_allowance (asset_or_problems allowance.amount_decimals asset ++ decode_problems amount)
        asset amount allowance.owner_account

module _ (d : Display) (icp_ledger_canister_id : Principal) where
  abbrev assets_problem : Result (ValidatedAsset × ValidatedAsset) Text → List Text
  assets_problem (ok assets) = []
  assets_problem (err problem) = problem ∷ []

  judge_allowances :
      List Text
      → ValidatedAllowance
      → ValidatedAllowance
      → Result (ValidatedAllowance × ValidatedAllowance) Text
  judge_allowances [] allowance_0 allowance_1 = ok (allowance_0, allowance_1)
  judge_allowances (p ∷ ps) allowance_0 allowance_1 =
      err (str "Invalid allowances:\n - " ++ join (str "  - \n") (p ∷ ps))

  pop_allowances : List Allowance → Result (ValidatedAllowance × ValidatedAllowance) Text
  pop_allowances [] = err (str "KongSwapAdaptor requires some allowances.")
  pop_allowances (allowance_1 ∷ []) =
      err (str "KongSwapAdaptor requires two allowances (got " ++ (decimal 0 ++ str ")."))
  pop_allowances (last ∷ first ∷ rest) = do
    allowance_0 ←
        map_err (λ e. str "Failed to validate allowance_0: " ++ e) (try_from_allowance d first)
    allowance_1 ←
        map_err (λ e. str "Failed to validate allowance_1: " ++ e) (try_from_allowance d last)
    judge_allowances
        (note_if (ltb 0 (length rest)) (
            str "KongSwapAdaptor requires exactly two allowances (got "
            ++ (decimal (length rest) ++ str ")."))
          ++ assets_problem
              (validate_assets icp_ledger_canister_id (allowance_0.asset ∷ allowance_1.asset ∷ [])))
        allowance_0 allowance_1

  unfoldable pub validate_allowances :
      List Allowance → Result (ValidatedAllowance × ValidatedAllowance) Text
  unfolding pop_allowances judge_allowances
  validate_allowances allowances = pop_allowances (reverse allowances)

  abbrev request_of : ValidatedAllowance × ValidatedAllowance → ValidatedDepositRequest
  request_of (allowance_0, allowance_1) = record {
    allowance_0 = allowance_0;
    allowance_1 = allowance_1;
  }

  -- `TryFrom<DepositRequest>`.
  unfoldable pub try_from_deposit_request : DepositRequest → Result ValidatedDepositRequest Text
  unfolding validate_allowances
  try_from_deposit_request request = do
    allowances ←
        map_err (λ e. str "Failed to validate DepositRequest: " ++ e)
          (validate_allowances request.allowances)
    ok (request_of allowances)

  -- `TryFrom<TreasuryManagerInit>`.
  unfoldable pub try_from_init : TreasuryManagerInit → Result ValidatedDepositRequest Text
  unfolding validate_allowances
  try_from_init init = do
    allowances ←
        map_err (λ e. str "Failed to validate TreasuryManagerInit: " ++ e)
          (validate_allowances init.allowances)
    ok (request_of allowances)

-- `From<ValidatedAllowance> for Allowance`.
unfoldable pub allowance_from : ValidatedAllowance → Allowance
unfolding asset_from
allowance_from a = record {
  asset = asset_from a.asset;
  amount_decimals = a.amount_decimals;
  owner_account = a.owner_account;
}
