-- ===== src/Validation/Asset.antt =====
-- validation.rs, `ValidatedAsset` and the conversions of numbers. `decode_nat_to_u64` fails on a
-- natural number of more than one 64-bit digit.
pub mod Laws
use sns_kongswap_adaptor.Base.{
  ℕ, Bool, true, false, ◌&&◌, List, [], ◌∷◌, ◌++◌, ◌==◌, leb, if◌then◌else◌, Option, none, some,
}
use sns_kongswap_adaptor.Base.Text.{Text, str, text_eq}
use sns_kongswap_adaptor.Base.Result.{Result, ok, err, ◌>>=◌, map_err}
use sns_kongswap_adaptor.Arithmetics.{u64_max}
use sns_kongswap_adaptor.Sns.{Principal, Asset, token, principal_eq}
use sns_kongswap_adaptor.Validation.Symbol.{ValidatedSymbol, symbol_eq, try_from_text}
use sns_kongswap_adaptor.Validation.Symbol

pub record ValidatedAsset : Type 0 where
  pub symbol : ValidatedSymbol
  pub ledger_canister_id : Principal
  pub ledger_fee_decimals : ℕ

-- The derived `PartialEq`: all three fields.
unfoldable pub asset_eq : ValidatedAsset → ValidatedAsset → Bool
asset_eq a b =
    symbol_eq a.symbol b.symbol
    && principal_eq a.ledger_canister_id b.ledger_canister_id
    && a.ledger_fee_decimals == b.ledger_fee_decimals

-- The method `symbol`.
abbrev pub symbol_text : ValidatedAsset → Text
symbol_text a = Symbol.to_string a.symbol

-- The setters return whether the value has changed.
unfoldable pub set_symbol : ValidatedSymbol → ValidatedAsset → ValidatedAsset × Bool
set_symbol new_symbol a =
    if symbol_eq a.symbol new_symbol then (a, false) else (record a { symbol = new_symbol }, true)

unfoldable pub set_ledger_fee_decimals : ℕ → ValidatedAsset → ValidatedAsset × Bool
set_ledger_fee_decimals new_fee_decimals a =
    if a.ledger_fee_decimals == new_fee_decimals
    then (a, false)
    else (record a { ledger_fee_decimals = new_fee_decimals }, true)

-- What the third-party types print: candid's `Nat`, in `Display` and in `Debug` form.
pub record Display : Type 0 where
  pub nat : ℕ → Text
  pub nat_debug : ℕ → Text
  pub u64_digit_count : ℕ → Text

module _ (d : Display) where
  unfoldable pub decode_nat_to_u64 : ℕ → Result ℕ Text
  decode_nat_to_u64 value =
      if leb value u64_max
      then ok value
      else err (
          str "Error parsing a Nat value `"
          ++ (d.nat_debug value
              ++ (str "` to u64: expected a unique u64 value, got "
                  ++ (d.u64_digit_count value ++ str "."))))

  -- `TryFrom<Asset>`.
  unfoldable pub try_from_asset : Asset → Result ValidatedAsset Text
  unfolding decode_nat_to_u64
  try_from_asset (token symbol ledger_canister_id ledger_fee_decimals) = do
    symbol ← map_err (λ e. str "Failed to validate asset symbol: " ++ e) (try_from_text symbol)
    fee ←
        map_err (λ e. str "Failed to validate asset ledger fee_decimals: " ++ e)
          (decode_nat_to_u64 ledger_fee_decimals)
    ok (record {
      symbol = symbol;
      ledger_canister_id = ledger_canister_id;
      ledger_fee_decimals = fee;
    })

-- `From<ValidatedAsset> for Asset`.
unfoldable pub asset_from : ValidatedAsset → Asset
asset_from a = token (symbol_text a) a.ledger_canister_id a.ledger_fee_decimals

-- `TryFrom<(String, String, u64)>`; `Principal::from_str` is a parameter.
unfoldable pub try_from_strings :
    (Text → Option Principal) → Text × Text × ℕ → Result ValidatedAsset Text
try_from_strings from_str (symbol, ledger_canister_id, ledger_fee_decimals) = do
  symbol ← try_from_text symbol
  elim (from_str ledger_canister_id) [
    | some ledger ↦ ok (record {
      symbol = symbol;
      ledger_canister_id = ledger;
      ledger_fee_decimals = ledger_fee_decimals;
    })
    | none ↦ err (str "Cannot interpret second component as a principal: " ++ ledger_canister_id)
  ]
