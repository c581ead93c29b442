-- ===== src/Adaptor/Deposit/Accounting.antt =====
-- That the books after the transfers of a deposit add up.
use mathlib.Core.Path.{subst}
use sns_kongswap_adaptor.Base.{
  ◌≡◌, ◌≤◌, ◌+◌, ◌-◌, some, true, false, arith, sym, ap, ◌∙◌, Bool-cases, inl, inr,
}
use sns_kongswap_adaptor.Arithmetics.{u64_max}
use sns_kongswap_adaptor.Validation.Asset.{ValidatedAsset, asset_eq}
use sns_kongswap_adaptor.Validation.Asset.Laws.{asset_eq_sound, asset_eq_refl}
use sns_kongswap_adaptor.Validation.Allowance.{ValidatedAllowance}
use sns_kongswap_adaptor.Balances.{ValidatedBalances, ValidatedBalanceBook}
use sns_kongswap_adaptor.Balances
use sns_kongswap_adaptor.Balances.Select.{book_of, book_of-update_book_ne}
use sns_kongswap_adaptor.Balances.Conservation.{turnover, managed_assets, receipt_conserves}
use sns_kongswap_adaptor.Machine.{Env, Machine, ConfigState, Flow, done, initialized, map_balances}
use sns_kongswap_adaptor.Machine.Emit.Quiet.{IsQuiet, BookedBoth}
use sns_kongswap_adaptor.Adaptor.Deposit.{transfer_from_owner}
use sns_kongswap_adaptor.Adaptor.Deposit.Received.{received, transfer_from_owner-BookedBoth}

-- What both transfers have booked when they have succeeded.
done-BookedBoth :
    {A E : Type 0} (f g : ValidatedBalances → ValidatedBalances) {v x : A} (s : ConfigState)
    {t : ConfigState} {r : Flow A E}
    → r ≡ done x
    → BookedBoth f g v s r t
    → (x ≡ v) × (t ≡ map_balances (λ b. g (f b)) s)
done-BookedBoth f g {v} s {t} h k = subst (λ r. BookedBoth f g v s r t) h k

received_ne :
    (a : ValidatedAllowance) (other : ValidatedAsset) (b : ValidatedBalances)
    → asset_eq other a.asset ≡ false
    → book_of other (received a b) ≡ book_of other b
unfolding Balances.charge_approval_fee Balances.add_manager_balance
received_ne a other b h =
    book_of-update_book_ne _ (Balances.add_manager_balance a.asset a.amount_decimals b) a.asset
      other h
    ∙ book_of-update_book_ne _ b a.asset other h

pub asset_eq-false : (a b : ValidatedAsset) → asset_eq b a ≡ false → asset_eq a b ≡ false
asset_eq-false a b h = elim (Bool-cases (asset_eq a b)) [
  | inr e ↦ e
  | inl e ↦
      let turned : asset_eq b a ≡ true =
        subst (λ x. asset_eq b x ≡ true) (sym (asset_eq_sound a b e)) (asset_eq_refl b) in
      cc
]

-- Where both transfers from the owners have succeeded, while no other message changes the balances,
-- for two different managed assets, amounts of at least the ledger fees and turnovers that stay within
-- 64 bits: the turnover of each book has risen by its whole amount, and its managed assets by the
-- amount that its allowance goes on with.
pub transfer_from_owner-conserves :
    {W : Type 0} (env : Env W) (a b a' b' : ValidatedAllowance) (m : Machine W)
    (before : ValidatedBalances) (book_a book_b : ValidatedBalanceBook)
    → IsQuiet env
    → (transfer_from_owner env a b m).0 ≡ done (a', b')
    → m.canister.balances ≡ initialized before
    → asset_eq b.asset a.asset ≡ false
    → book_of a.asset before ≡ some book_a
    → book_of b.asset before ≡ some book_b
    → a.asset.ledger_fee_decimals ≤ a.amount_decimals
    → b.asset.ledger_fee_decimals ≤ b.amount_decimals
    → turnover book_a + a.amount_decimals ≤ u64_max
    → turnover book_b + b.amount_decimals ≤ u64_max
    → (after : ValidatedBalances) × (after_a after_b : ValidatedBalanceBook) × ((transfer_from_owner
          env a b m).1.canister.balances
        ≡ initialized after)
      × (book_of a.asset after ≡ some after_a)
      × (book_of b.asset after ≡ some after_b)
      × (turnover after_a ≡ turnover book_a + a.amount_decimals)
      × (turnover after_b ≡ turnover book_b + b.amount_decimals)
      × (managed_assets after_a ≡ managed_assets book_a + a'.amount_decimals)
      × (managed_assets after_b ≡ managed_assets book_b + b'.amount_decimals)
transfer_from_owner-conserves env a b a' b' m before book_a book_b quiet h i ne fa fb ca cb ta tb =
    let (v, e) =
      done-BookedBoth (received a) (received b) m.canister.balances h
        (transfer_from_owner-BookedBoth env a b m quiet) in
    let middle = received a before in
    let (after_a, na, ra, ga, sa) =
      receipt_conserves a.asset a.amount_decimals before book_a fa ca ta in
    let nb = received_ne a b.asset before ne ∙ fb in
    let (after_b, nb', rb, gb, sb) =
      receipt_conserves b.asset b.amount_decimals middle book_b nb cb tb in
    let ea : a'.amount_decimals ≡ a.amount_decimals - a.asset.ledger_fee_decimals =
      ap (λ x. x.0.amount_decimals) v in
    let eb : b'.amount_decimals ≡ b.amount_decimals - b.asset.ledger_fee_decimals =
      ap (λ x. x.1.amount_decimals) v in
    (
      received b middle,
      after_a,
      after_b,
      e ∙ ap (map_balances (λ x. received b (received a x))) i,
      received_ne b a.asset middle (asset_eq-false a.asset b.asset ne) ∙ na,
      nb',
      ra,
      rb,
      omega (arith, ga, ea, ca),
      omega (arith, gb, eb, cb),
    )
