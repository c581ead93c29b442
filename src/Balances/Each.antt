-- ===== src/Balances/Each.antt =====
-- What a sequence of updates does to one book.
use sns_kongswap_adaptor.Base.{
  ◌≡◌, refl, ◌∙◌, sym, Bool, false, Bool-cases, inl, inr, if◌then◌else◌, some, List, [], ◌∷◌, ◌++◌,
}
use sns_kongswap_adaptor.Validation.Asset.{ValidatedAsset, asset_eq}
use sns_kongswap_adaptor.Validation.Asset.Laws.{asset_eq_sound}
use sns_kongswap_adaptor.Balances.{
  ValidatedBalances, ValidatedBalanceBook, set_external_custodian_balance, add_manager_balance,
  move_asset, charge_approval_fee, find_deposit_discrepency, find_withdraw_discrepency, update_book,
  set_external, credit_manager, move_in_book, charge_fee_in_book, deposit_suspense,
  withdraw_suspense,
}
use sns_kongswap_adaptor.Balances.Bounds.{Update, apply, apply_all}
use sns_kongswap_adaptor.Balances.Select.{book_of, book_of-update_book, book_of-update_book_ne}

-- The updates of one book: all but the refresh of the metadata, with the asset that they name.
abbrev pub is_of : ValidatedAsset → Update → Bool
is_of x (Update.refresh i a) = false
is_of x (Update.external a n) = asset_eq x a
is_of x (Update.credit a n) = asset_eq x a
is_of x (Update.move a from to n) = asset_eq x a
is_of x (Update.charge a) = asset_eq x a
is_of x (Update.deposit_check a before after n) = asset_eq x a
is_of x (Update.withdraw_check a before after n) = asset_eq x a

abbrev pub in_book : Update → ValidatedBalanceBook → ValidatedBalanceBook
in_book (Update.refresh i a) book = book
in_book (Update.external a n) book = set_external n book
in_book (Update.credit a n) book = credit_manager n book
in_book (Update.move a from to n) book = move_in_book a.ledger_fee_decimals from to n book
in_book (Update.charge a) book = charge_fee_in_book a.ledger_fee_decimals book
in_book (Update.deposit_check a before after n) book = deposit_suspense before after n book
in_book (Update.withdraw_check a before after n) book =
    withdraw_suspense a.ledger_fee_decimals before after n book

abbrev pub all_in_book : ValidatedAsset → List Update → ValidatedBalanceBook → ValidatedBalanceBook
all_in_book x [] book = book
all_in_book x (u ∷ us) book = all_in_book x us (if is_of x u then in_book u book else book)

abbrev pub IsOrdinary : Update → Type 0
IsOrdinary (Update.refresh i a) = ⊥
IsOrdinary _ = Unit

abbrev pub AllOrdinary : List Update → Type 0
AllOrdinary [] = Unit
AllOrdinary (u ∷ us) = IsOrdinary u × AllOrdinary us

module _ (x a : ValidatedAsset) (f : ValidatedBalanceBook → ValidatedBalanceBook)
    (b : ValidatedBalances) (book : ValidatedBalanceBook) where
  book_of-one :
      book_of x b ≡ some book
      → book_of x (update_book a f b) ≡ some (if asset_eq x a then f book else book)
  book_of-one h = elim (Bool-cases (asset_eq x a)) [
    | inl e ↦ rw e (rw (sym (asset_eq_sound x a e)) (book_of-update_book f b x h))
    | inr e ↦ rw e (book_of-update_book_ne f b a x e ∙ h)
  ]

book_of-apply :
    (x : ValidatedAsset) (u : Update) (b : ValidatedBalances) (book : ValidatedBalanceBook)
    → IsOrdinary u
    → book_of x b ≡ some book
    → book_of x (apply u b) ≡ some (if is_of x u then in_book u book else book)
unfolding apply set_external_custodian_balance add_manager_balance move_asset charge_approval_fee
    find_deposit_discrepency find_withdraw_discrepency
book_of-apply x (Update.refresh i a) b book o h = elim o [ ]
book_of-apply x (Update.external a n) b book o h = book_of-one x a _ b book h
book_of-apply x (Update.credit a n) b book o h = book_of-one x a _ b book h
book_of-apply x (Update.move a from to n) b book o h = book_of-one x a _ b book h
book_of-apply x (Update.charge a) b book o h = book_of-one x a _ b book h
book_of-apply x (Update.deposit_check a y z n) b book o h = book_of-one x a _ b book h
book_of-apply x (Update.withdraw_check a y z n) b book o h = book_of-one x a _ b book h

-- The updates of an asset go to its book, one after the other; the others pass it by.
pub book_of-apply_all :
    (x : ValidatedAsset) (us : List Update) (b : ValidatedBalances) (book : ValidatedBalanceBook)
    → AllOrdinary us
    → book_of x b ≡ some book
    → book_of x (apply_all us b) ≡ some (all_in_book x us book)
unfolding apply_all
book_of-apply_all x [] b book o h = h
book_of-apply_all x (u ∷ us) b book o h =
    book_of-apply_all x us (apply u b) _ o.1 (book_of-apply x u b book o.0 h)

pub all_in_book-append :
    (x : ValidatedAsset) (us vs : List Update) (book : ValidatedBalanceBook)
    → all_in_book x (us ++ vs) book ≡ all_in_book x vs (all_in_book x us book)
all_in_book-append x [] vs book = refl
all_in_book-append x (u ∷ us) vs book = all_in_book-append x us vs _

pub AllOrdinary-append :
    (us vs : List Update) → AllOrdinary us → AllOrdinary vs → AllOrdinary (us ++ vs)
AllOrdinary-append [] vs h k = k
AllOrdinary-append (u ∷ us) vs h k = (h.0, AllOrdinary-append us vs h.1 k)
