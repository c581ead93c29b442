-- ===== src/Validation/Asset/Laws.antt =====
-- Equality of validated assets, and the round trip of an asset through its validation.
use sns_kongswap_adaptor.Base.{◌≡◌, true, arith}
use sns_kongswap_adaptor.Base.Text.{text_eq_refl, text_eq_sound}
use sns_kongswap_adaptor.Validation.Asset.{ValidatedAsset, asset_eq}

pub asset_eq_refl : (a : ValidatedAsset) → asset_eq a a ≡ true
unfolding asset_eq
asset_eq_refl a = ground (arith, text_eq_refl a.symbol.repr, text_eq_refl a.ledger_canister_id.text)

pub asset_eq_sound : (a b : ValidatedAsset) → asset_eq a b ≡ true → a ≡ b
unfolding asset_eq
asset_eq_sound a b h = ground (
  arith,
  text_eq_sound a.symbol.repr b.symbol.repr,
  text_eq_sound a.ledger_canister_id.text b.ledger_canister_id.text,
)
