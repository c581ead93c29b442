-- ===== src/Balances/Flows/Rises.antt =====
-- What a run never lowers in the books.
use sns_kongswap_adaptor.Base.{ℕ, ◌≤◌, arith, Bool, true, false, if◌then◌else◌, ◌==◌}
use sns_kongswap_adaptor.Arithmetics.{u64_max, logged_saturating_add}
use sns_kongswap_adaptor.Arithmetics.Laws.{saturating}
use sns_kongswap_adaptor.Sns.{Operation}
use sns_kongswap_adaptor.Validation.Asset.{ValidatedAsset, asset_eq}
use sns_kongswap_adaptor.Balances.{
  ValidatedBalances, ValidatedBalanceBook, Party, refresh_asset, refreshed_asset,
  set_external_custodian_balance, add_manager_balance, move_asset, charge_approval_fee,
  find_deposit_discrepency, find_withdraw_discrepency, update_book, set_external, credit_manager,
  move_in_book, charge_fee_in_book, deposit_suspense, withdraw_suspense,
}
use sns_kongswap_adaptor.Balances.Bounds.{Update, apply}
use sns_kongswap_adaptor.Balances.Flows.{Runs, still, next}

-- A 64-bit number only rises, and stays one.
abbrev pub Rises : ℕ → ℕ → Type 0
Rises x y = x ≤ u64_max → (x ≤ y) × (y ≤ u64_max)

-- What has been returned to the owner, the fees, and what could not be accounted for.
pub record BookRises (a b : ValidatedBalanceBook) : Type 0 where
  pub returned : Rises a.treasury_owner.amount_decimals b.treasury_owner.amount_decimals
  pub fees : Rises a.fee_collector b.fee_collector
  pub suspense : Rises a.suspense b.suspense

pub record BalancesRise (a b : ValidatedBalances) : Type 0 where
  pub book_0 : BookRises a.asset_0_balance b.asset_0_balance
  pub book_1 : BookRises a.asset_1_balance b.asset_1_balance

pub Rises-refl : (x : ℕ) → Rises x x
Rises-refl x h = (omega arith, h)

pub Rises-trans : {x y z : ℕ} → Rises x y → Rises y z → Rises x z
Rises-trans h k l =
    let (first, bound) = h l in let (second, last) = k bound in (omega (arith, first, second), last)

pub Rises-add : (x n : ℕ) → Rises x (logged_saturating_add x n)
Rises-add x n h = (omega saturating, omega saturating)

BookRises-refl : (a : ValidatedBalanceBook) → BookRises a a
BookRises-refl a = record { returned = Rises-refl _; fees = Rises-refl _; suspense = Rises-refl _ }

pub BalancesRise-refl : (b : ValidatedBalances) → BalancesRise b b
BalancesRise-refl b = record { book_0 = BookRises-refl _; book_1 = BookRises-refl _ }

BookRises-trans : {a b c : ValidatedBalanceBook} → BookRises a b → BookRises b c → BookRises a c
BookRises-trans h k = record {
  returned = Rises-trans h.returned k.returned;
  fees = Rises-trans h.fees k.fees;
  suspense = Rises-trans h.suspense k.suspense;
}

BalancesRise-trans :
    {a b c : ValidatedBalances} → BalancesRise a b → BalancesRise b c → BalancesRise a c
BalancesRise-trans h k = record {
  book_0 = BookRises-trans h.book_0 k.book_0;
  book_1 = BookRises-trans h.book_1 k.book_1;
}

update_book-BalancesRise :
    (asset : ValidatedAsset) (f : ValidatedBalanceBook → ValidatedBalanceBook)
    (b : ValidatedBalances)
    → ((book : ValidatedBalanceBook) → BookRises book (f book))
    → BalancesRise b (update_book asset f b)
unfolding update_book
update_book-BalancesRise asset f b keep =
    by_asset (asset_eq asset b.asset_0) (asset_eq asset b.asset_1)
  where
    by_asset :
        (first second : Bool)
        → BalancesRise b (
            if first
            then record b { asset_0_balance = f b.asset_0_balance }
            else if second
            then record b { asset_1_balance = f b.asset_1_balance }
            else b)
    by_asset true second = record { book_0 = keep b.asset_0_balance; book_1 = BookRises-refl _ }
    by_asset false true = record { book_0 = BookRises-refl _; book_1 = keep b.asset_1_balance }
    by_asset false false = BalancesRise-refl b

move_in_book-BookRises :
    (fee : ℕ) (from to : Party) (amount : ℕ) (book : ValidatedBalanceBook)
    → BookRises book (move_in_book fee from to amount book)
unfolding move_in_book
move_in_book-BookRises fee Party.external Party.treasury_manager amount book = record {
  returned = Rises-refl _;
  fees = Rises-add _ _;
  suspense = Rises-refl _;
}
move_in_book-BookRises fee Party.treasury_manager Party.treasury_owner amount book = record {
  returned = Rises-add _ _;
  fees = Rises-add _ _;
  suspense = Rises-refl _;
}
move_in_book-BookRises fee _ _ amount book = record {
  returned = Rises-refl _;
  fees = Rises-add _ _;
  suspense = Rises-refl _;
}

if-Rises :
    (c : Bool) (book changed : ValidatedBalanceBook)
    → BookRises book changed
    → BookRises book (if c then changed else book)
if-Rises true book changed h = h
if-Rises false book changed h = BookRises-refl book

suspended :
    (n : ℕ) (book : ValidatedBalanceBook)
    → BookRises book (record book { suspense = logged_saturating_add book.suspense n })
suspended n book = record { returned = Rises-refl _; fees = Rises-refl _; suspense = Rises-add _ _ }

refresh_asset-BalancesRise :
    (i : ℕ) (a : ValidatedAsset) (b : ValidatedBalances) → BalancesRise b (refresh_asset i a b)
unfolding refresh_asset
refresh_asset-BalancesRise i a b = by_id (i == 0) (i == 1)
  where
    by_id :
        (first second : Bool)
        → BalancesRise b (
            if first
            then record b { asset_0 = refreshed_asset a b.asset_0 }
            else if second
            then record b { asset_1 = refreshed_asset a b.asset_1 }
            else b)
    by_id true second = record { book_0 = BookRises-refl _; book_1 = BookRises-refl _ }
    by_id false true = record { book_0 = BookRises-refl _; book_1 = BookRises-refl _ }
    by_id false false = BalancesRise-refl b

pub apply-BalancesRise : (u : Update) (b : ValidatedBalances) → BalancesRise b (apply u b)
unfolding apply set_external_custodian_balance add_manager_balance move_asset charge_approval_fee
    find_deposit_discrepency find_withdraw_discrepency set_external credit_manager
    charge_fee_in_book deposit_suspense withdraw_suspense
apply-BalancesRise (Update.refresh i a) b = refresh_asset-BalancesRise i a b
apply-BalancesRise (Update.external a n) b =
    update_book-BalancesRise a _ b
      (λ book. record { returned = Rises-refl _; fees = Rises-refl _; suspense = Rises-refl _ })
apply-BalancesRise (Update.credit a n) b =
    update_book-BalancesRise a _ b
      (λ book. record { returned = Rises-refl _; fees = Rises-refl _; suspense = Rises-refl _ })
apply-BalancesRise (Update.move a from to n) b =
    update_book-BalancesRise a _ b (move_in_book-BookRises a.ledger_fee_decimals from to n)
apply-BalancesRise (Update.charge a) b =
    update_book-BalancesRise a _ b
      (λ book. record { returned = Rises-refl _; fees = Rises-add _ _; suspense = Rises-refl _ })
apply-BalancesRise (Update.deposit_check a x y z) b =
    update_book-BalancesRise a _ b (λ book. if-Rises _ book _ (suspended _ book))
apply-BalancesRise (Update.withdraw_check a x y z) b =
    update_book-BalancesRise a _ b (λ book. if-Rises _ book _ (suspended _ book))

pub Runs-BalancesRise :
    {O : Operation → Type 0} {a b : ValidatedBalances} → Runs O a b → BalancesRise a b
Runs-BalancesRise still = BalancesRise-refl _
Runs-BalancesRise (next {b' = b'} {u = u} run o p) =
    BalancesRise-trans (Runs-BalancesRise run) (apply-BalancesRise u b')
