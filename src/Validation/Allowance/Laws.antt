-- ===== src/Validation/Allowance/Laws.antt =====
-- Which assets and allowances are accepted.
use mathlib.Core.List.{reverse, reverse-reverse}
use sns_kongswap_adaptor.Base.{
  ℕ, suc, ◌≡◌, refl, ap, sym, ◌∙◌, ◌≤◌, ◌/◌, ◌*◌, Bool, Bool-cases, inl, inr, true, false, List, [],
  ◌∷◌, ◌++◌, arith, ltb, length,
}
use sns_kongswap_adaptor.Base.Text.{Text, str, text_eq}
use sns_kongswap_adaptor.Base.Result.{Result, ok, err, Result-cases}
use sns_kongswap_adaptor.Arithmetics.{u64_max}
use sns_kongswap_adaptor.Sns.{Principal, Account, principal_eq, Allowance}
use sns_kongswap_adaptor.Validation.Asset.{
  ValidatedAsset, symbol_text, Display, try_from_asset, decode_nat_to_u64,
}
use sns_kongswap_adaptor.Validation.Allowance.{
  ValidatedAllowance, note_if, asset_problems, judge_assets, pop_assets, validate_assets,
  judge_allowance, asset_or_problems, decode_problems, try_from_allowance, judge_allowances,
  assets_problem, pop_allowances, validate_allowances,
}

-- The second asset, and it alone, has the symbol and the ledger of ICP.
pub record IsSupported (icp : Principal) (asset_0 asset_1 : ValidatedAsset) : Type 0 where
  pub symbol_0 : text_eq (symbol_text asset_0) (str "ICP") ≡ false
  pub symbol_1 : text_eq (symbol_text asset_1) (str "ICP") ≡ true
  pub ledger_0 : principal_eq asset_0.ledger_canister_id icp ≡ false
  pub ledger_1 : principal_eq asset_1.ledger_canister_id icp ≡ true

note_if_none :
    (c : Bool) (p : Text) (ps : List Text) → note_if c p ++ ps ≡ [] → (c ≡ false) × (ps ≡ [])
note_if_none true p ps h = cc
note_if_none false p ps h = (refl, h)

judge_assets-eq-ok :
    (icp : Principal) (ps : List Text) (a b : ValidatedAsset) (r : ValidatedAsset × ValidatedAsset)
    → judge_assets icp ps a b ≡ ok r
    → (ps ≡ []) × (r ≡ (a, b))
unfolding judge_assets
judge_assets-eq-ok icp [] a b r h = (refl, cc)
judge_assets-eq-ok icp (p ∷ ps) a b r h = cc

no_problems :
    (icp : Principal) (n : ℕ) (a b : ValidatedAsset)
    → asset_problems icp n a b ≡ []
    → (ltb 0 n ≡ false) × IsSupported icp a b
unfolding asset_problems
no_problems icp n a b h = ground arith

supported-no_problems :
    (icp : Principal) (a b : ValidatedAsset) → IsSupported icp a b → asset_problems icp 0 a b ≡ []
unfolding asset_problems
supported-no_problems icp a b s = ground arith

-- Assets are accepted exactly when they are two, the second has the symbol and the ledger of ICP, and
-- the first has neither; they are accepted in this order.
pub validate_assets-eq-ok :
    (icp : Principal) (assets : List ValidatedAsset) (asset_0 asset_1 : ValidatedAsset)
    → (validate_assets icp assets ≡ ok (asset_0, asset_1)
        → (assets ≡ asset_0 ∷ asset_1 ∷ []) × IsSupported icp asset_0 asset_1)
      × (assets ≡ asset_0 ∷ asset_1 ∷ []
          → IsSupported icp asset_0 asset_1
          → validate_assets icp assets ≡ ok (asset_0, asset_1))
unfolding validate_assets
validate_assets-eq-ok icp assets a b = (
  λ h. let (e, s) = popped (reverse assets) h in (sym (reverse-reverse assets) ∙ ap reverse e, s),
  accepted,
)
  where
    popped :
        (last_first : List ValidatedAsset)
        → pop_assets icp last_first ≡ ok (a, b)
        → (last_first ≡ b ∷ a ∷ []) × IsSupported icp a b
    popped [] h = cc
    popped (y ∷ []) h = cc
    popped (y ∷ x ∷ rest) h =
        let (none_found, e) =
          judge_assets-eq-ok icp (asset_problems icp (length rest) x y) x y (a, b) h in
        let (exact, supported) = no_problems icp (length rest) x y none_found in ground arith

    accepted :
        assets ≡ a ∷ b ∷ [] → IsSupported icp a b → pop_assets icp (reverse assets) ≡ ok (a, b)
    accepted e s = rw (e, supported-no_problems icp a b s) refl

-- An accepted allowance carries the amount and the account of the request; the amount fits in 64
-- bits, and is at least ten times the ledger fee.
pub record IsCovered (d : Display) (a : Allowance) (v : ValidatedAllowance) : Type 0 where
  pub asset : try_from_asset d a.asset ≡ ok v.asset
  pub amount : v.amount_decimals ≡ a.amount_decimals
  pub fits : v.amount_decimals ≤ u64_max
  pub owner : v.owner_account ≡ a.owner_account
  pub fee : v.asset.ledger_fee_decimals * 10 ≤ v.amount_decimals

judge_allowance-eq-ok :
    (d : Display) (n : ℕ) (a : Result ValidatedAsset Text) (r : Result ℕ Text) (o : Account)
    (v : ValidatedAllowance)
    → judge_allowance d (asset_or_problems d n a ++ decode_problems d r) a r o ≡ ok v
    → (a ≡ ok v.asset)
      × (r ≡ ok v.amount_decimals)
      × (v.owner_account ≡ o)
      × (v.asset.ledger_fee_decimals ≤ n / 10)
unfolding judge_allowance
judge_allowance-eq-ok d n (err e) r o v h = cc
judge_allowance-eq-ok d n (ok a) (err e) o v h =
    elim (Bool-cases (ltb (n / 10) a.ledger_fee_decimals)) [ inl e ↦ cc | inr e ↦ cc ]
judge_allowance-eq-ok d n (ok a) (ok x) o v h = ground arith

try_from_allowance-IsCovered :
    (d : Display) (a : Allowance) (v : ValidatedAllowance)
    → try_from_allowance d a ≡ ok v
    → IsCovered d a v
unfolding try_from_allowance decode_nat_to_u64
try_from_allowance-IsCovered d a v h =
    let (asset, amount, owner, fee) =
      judge_allowance-eq-ok d a.amount_decimals _ _ a.owner_account v h in
    ground arith

validate_assets-pair :
    (icp : Principal) (a b : ValidatedAsset) (r : ValidatedAsset × ValidatedAsset)
    → validate_assets icp (a ∷ b ∷ []) ≡ ok r
    → IsSupported icp a b
unfolding validate_assets
validate_assets-pair icp a b r h =
    (no_problems icp 0 a b (judge_assets-eq-ok icp (asset_problems icp 0 a b) a b r h).0).1

note_if-length :
    {A : Type 0} (rest : List A) (p : Text) → note_if (ltb 0 (length rest)) p ≡ [] → rest ≡ []
note_if-length [] p h = refl
note_if-length (x ∷ rest) p h =
    let some_left : ltb 0 (suc (length rest)) ≡ true = ground arith in
    let k = rw some_left at h in cc

-- An accepted list of allowances has exactly two; the first is for an asset with neither the symbol
-- nor the ledger of ICP, the second for one with both, in this order; and each keeps its asset,
-- amount and account, with an amount of 64 bits and of at least ten ledger fees.
pub validate_allowances-IsCovered :
    (d : Display) (icp : Principal) (allowances : List Allowance) (v w : ValidatedAllowance)
    → validate_allowances d icp allowances ≡ ok (v, w)
    → (a : Allowance) × (b : Allowance) × (allowances ≡ a ∷ b ∷ [])
      × IsCovered d a v
      × IsCovered d b w
      × IsSupported icp v.asset w.asset
unfolding validate_allowances
validate_allowances-IsCovered d icp allowances v w h =
    let (a, b, e, first, second, supported) = popped (reverse allowances) h in
    (a, b, sym (reverse-reverse allowances) ∙ ap reverse e, first, second, supported)
  where
    judged :
        (exact : List Text) (r : Result (ValidatedAsset × ValidatedAsset) Text)
        (x y : ValidatedAllowance)
        → judge_allowances d icp (exact ++ assets_problem d icp r) x y ≡ ok (v, w)
        → (exact ≡ []) × (x ≡ v) × (y ≡ w) × ((p : ValidatedAsset × ValidatedAsset) × (r ≡ ok p))
    judged [] (ok p) x y h = (refl, cc, cc, (p, refl))
    judged [] (err e) x y h = cc
    judged (p ∷ ps) r x y h = cc

    popped :
        (last_first : List Allowance)
        → pop_allowances d icp last_first ≡ ok (v, w)
        → (a : Allowance) × (b : Allowance) × (last_first ≡ b ∷ a ∷ [])
          × IsCovered d a v
          × IsCovered d b w
          × IsSupported icp v.asset w.asset
    popped [] h = cc
    popped (y ∷ []) h = cc
    popped (y ∷ x ∷ rest) h = elim (Result-cases (try_from_allowance d x)) [
      | inr (e, ex) ↦ (let k = rw ex at h in cc)
      | inl (x', ex) ↦ elim (Result-cases (try_from_allowance d y)) [
        | inr (e, ey) ↦ (let k = rw (ex, ey) at h in cc)
        | inl (y', ey) ↦
            let (exact, ev, ew, (r, accepted)) = judged _ _ x' y' (rw (ex, ey) at h) in
            (
              x,
              y,
              ap (λ t. y ∷ x ∷ t) (note_if-length rest _ exact),
              try_from_allowance-IsCovered d x v (ex ∙ ap ok ev),
              try_from_allowance-IsCovered d y w (ey ∙ ap ok ew),
              rw (sym ev, sym ew) (validate_assets-pair icp x'.asset y'.asset r accepted),
            )
      ]
    ]
