-- ===== src/Adaptor/Writes/Settles.antt =====
-- The two books under the updates of a withdrawal.
use mathlib.Core.Path.{subst}
use sns_kongswap_adaptor.Base.{
  ℕ, ◌+◌, ◌≤◌, ◌≡◌, refl, sym, ◌∙◌, Bool, true, false, Bool-cases, inl, inr, if◌then◌else◌, ◌==◌,
  some, List, [], ◌∷◌, ◌++◌, arith,
}
use sns_kongswap_adaptor.Arithmetics.{u64_max}
use sns_kongswap_adaptor.Validation.Asset.{ValidatedAsset}
use sns_kongswap_adaptor.Balances.{
  Party, ValidatedBalances, ValidatedBalanceBook, withdraw_suspense,
}
use sns_kongswap_adaptor.Balances.Bounds.{Update, apply_all}
use sns_kongswap_adaptor.Balances.Select.{book_of}
use sns_kongswap_adaptor.Balances.Conservation.{balance_of, turnover, Moves, move_in_book_lem}
use sns_kongswap_adaptor.Balances.Each.{
  IsOrdinary, AllOrdinary, is_of, in_book, all_in_book, book_of-apply_all,
}
use sns_kongswap_adaptor.Adaptor.Writes.{to_owner}
use sns_kongswap_adaptor.Adaptor.Writes.Takes.{Taking, AllTaking}
use sns_kongswap_adaptor.Adaptor.Writes.Withdrawn.{IsWithdrawn}

-- What one update takes from the DEX, what it returns to the owner, what the ledger charges for both,
-- and for the return alone.
abbrev pub taken_by : Update → ℕ
taken_by (Update.move a Party.external to n) = n
taken_by _ = 0

abbrev pub returned_by : Update → ℕ
returned_by (Update.move a Party.treasury_manager to n) = n
returned_by _ = 0

abbrev pub charged_by : Update → ℕ
charged_by (Update.move a from to n) = a.ledger_fee_decimals
charged_by _ = 0

abbrev pub charged_to_owner_by : Update → ℕ
charged_to_owner_by (Update.move a Party.treasury_manager to n) = a.ledger_fee_decimals
charged_to_owner_by _ = 0

-- The sum over the updates of one asset.
abbrev pub total : (Update → ℕ) → ValidatedAsset → List Update → ℕ
total f x [] = 0
total f x (u ∷ us) = (if is_of x u then f u else 0) + total f x us

-- Each movement of the asset covers the fee of the ledger, and the book has it.
abbrev pub IsCovered : Bool → Update → ValidatedBalanceBook → Type 0
IsCovered true (Update.move a from to n) book =
    (a.ledger_fee_decimals ≤ n) × (n ≤ balance_of from book)
IsCovered _ _ _ = Unit

abbrev pub AllCovered : ValidatedAsset → List Update → ValidatedBalanceBook → Type 0
AllCovered x [] book = Unit
AllCovered x (u ∷ us) book =
    IsCovered (is_of x u) u book × AllCovered x us (if is_of x u then in_book u book else book)

-- A taking or a return.
data Withdrawing : Update → Type 0 where
  taking : {u : Update} → Taking u → Withdrawing u
  returning :
      (a : ValidatedAsset) (n : ℕ)
      → Withdrawing (Update.move a Party.treasury_manager Party.treasury_owner n)

abbrev AllWithdrawing : List Update → Type 0
AllWithdrawing [] = Unit
AllWithdrawing (u ∷ us) = Withdrawing u × AllWithdrawing us

-- What has become of a book: the turnover is the same, the DEX has lost what was taken, the owner has
-- what was returned less the fees for it, and all fees have been collected.
pub record IsSettled (taken returned charged charged_to_owner : ℕ)
    (book after : ValidatedBalanceBook) : Type 0 where
  pub turnover : turnover after ≡ turnover book
  pub external : after.external + taken ≡ book.external
  pub owner :
      after.treasury_owner.amount_decimals + charged_to_owner
      ≡ book.treasury_owner.amount_decimals + returned
  pub fees : after.fee_collector ≡ book.fee_collector + charged

withdraw_suspense-IsSettled :
    (fee y z n : ℕ) (book : ValidatedBalanceBook)
    → IsSettled 0 0 0 0 book (withdraw_suspense fee y z n book)
unfolding withdraw_suspense
withdraw_suspense-IsSettled fee y z n book = record {
  turnover = ground arith;
  external = ground arith;
  owner = ground arith;
  fees = ground arith;
}

in_book-IsSettled :
    (u : Update) (book : ValidatedBalanceBook)
    → Withdrawing u
    → IsCovered true u book
    → turnover book ≤ u64_max
    → IsSettled
        (taken_by u)
        (returned_by u)
        (charged_by u)
        (charged_to_owner_by u)
        book
        (in_book u book)
in_book-IsSettled u book (taking (Taking.from_dex a n)) (h, k) fits =
    let (source, destination, managed, whole, suspense) =
      move_in_book_lem a.ledger_fee_decimals n book Moves.from_dex h k fits in
    record { turnover = whole; external = source; owner = omega arith; fees = omega arith }
in_book-IsSettled u book (taking (Taking.compared a y z n)) h fits =
    withdraw_suspense-IsSettled a.ledger_fee_decimals y z n book
in_book-IsSettled u book (returning a n) (h, k) fits =
    let (source, destination, managed, whole, suspense) =
      move_in_book_lem a.ledger_fee_decimals n book Moves.to_owner h k fits in
    record { turnover = whole; external = omega arith; owner = destination; fees = omega arith }

IsSettled-trans :
    {t r c o t' r' c' o' : ℕ} {x y z : ValidatedBalanceBook}
    → IsSettled t r c o x y
    → IsSettled t' r' c' o' y z
    → IsSettled (t + t') (r + r') (c + c') (o + o') x z
IsSettled-trans h k =
    let e = h.turnover in
    let f = k.turnover in
    let e1 = h.external in
    let f1 = k.external in
    let e2 = h.owner in
    let f2 = k.owner in
    let e3 = h.fees in
    let f3 = k.fees in
    record { turnover = f ∙ e; external = omega arith; owner = omega arith; fees = omega arith }

IsSettled-refl : (x : ValidatedBalanceBook) → IsSettled 0 0 0 0 x x
IsSettled-refl x = record {
  turnover = refl;
  external = omega arith;
  owner = refl;
  fees = omega arith;
}

all_in_book-IsSettled :
    (x : ValidatedAsset) (us : List Update) (book : ValidatedBalanceBook)
    → AllWithdrawing us
    → AllCovered x us book
    → turnover book ≤ u64_max
    → IsSettled
        (total taken_by x us)
        (total returned_by x us)
        (total charged_by x us)
        (total charged_to_owner_by x us)
        book
        (all_in_book x us book)
all_in_book-IsSettled x [] book w h fits = IsSettled-refl book
all_in_book-IsSettled x (u ∷ us) book w h fits =
    by_asset (is_of x u) h.0 h.1 (λ b k l. all_in_book-IsSettled x us b w.1 k l)
  where
    by_asset :
        (c : Bool)
        → IsCovered c u book
        → AllCovered x us (if c then in_book u book else book)
        → ((b : ValidatedBalanceBook)
            → AllCovered x us b
            → turnover b ≤ u64_max
            → IsSettled
                (total taken_by x us)
                (total returned_by x us)
                (total charged_by x us)
                (total charged_to_owner_by x us)
                b
                (all_in_book x us b))
        → IsSettled
            ((if c then taken_by u else 0) + total taken_by x us)
            ((if c then returned_by u else 0) + total returned_by x us)
            ((if c then charged_by u else 0) + total charged_by x us)
            ((if c then charged_to_owner_by u else 0) + total charged_to_owner_by x us)
            book
            (all_in_book x us (if c then in_book u book else book))
    by_asset true h k rest =
        let first = in_book-IsSettled u book w.0 h fits in
        let kept = first.turnover in IsSettled-trans first (rest (in_book u book) k (rw kept fits))
    by_asset false h k rest = IsSettled-trans (IsSettled-refl book) (rest book k fits)

AllWithdrawing-append :
    (us vs : List Update) → AllWithdrawing us → AllWithdrawing vs → AllWithdrawing (us ++ vs)
AllWithdrawing-append [] vs h k = k
AllWithdrawing-append (u ∷ us) vs h k = (h.0, AllWithdrawing-append us vs h.1 k)

AllTaking-AllWithdrawing : (us : List Update) → AllTaking us → AllWithdrawing us
AllTaking-AllWithdrawing [] h = tt
AllTaking-AllWithdrawing (u ∷ us) h = (taking h.0, AllTaking-AllWithdrawing us h.1)

to_owner-AllWithdrawing : (a : ValidatedAsset) (n : ℕ) → AllWithdrawing (to_owner a n)
to_owner-AllWithdrawing a n = elim (Bool-cases (n == 0)) [
  | inl e ↦ rw e tt
  | inr e ↦ rw e (returning a n, tt)
]

Withdrawing-IsOrdinary : (u : Update) → Withdrawing u → IsOrdinary u
Withdrawing-IsOrdinary u (taking (Taking.from_dex a n)) = tt
Withdrawing-IsOrdinary u (taking (Taking.compared a y z n)) = tt
Withdrawing-IsOrdinary u (returning a n) = tt

AllWithdrawing-AllOrdinary : (us : List Update) → AllWithdrawing us → AllOrdinary us
AllWithdrawing-AllOrdinary [] h = tt
AllWithdrawing-AllOrdinary (u ∷ us) h =
    (Withdrawing-IsOrdinary u h.0, AllWithdrawing-AllOrdinary us h.1)

IsWithdrawn-AllWithdrawing :
    (pair : ValidatedAsset × ValidatedAsset) (us : List Update)
    → IsWithdrawn pair us
    → AllWithdrawing us
IsWithdrawn-AllWithdrawing pair us (taken, returned, h, e) = subst AllWithdrawing (sym e) (
    AllWithdrawing-append taken _ (AllTaking-AllWithdrawing taken h) (
      AllWithdrawing-append (to_owner pair.0 returned.0) _ (to_owner-AllWithdrawing _ _)
        (to_owner-AllWithdrawing _ _)))

-- What a withdrawal books adds up in the book of each managed asset. Where every movement of the asset
-- covers the fee of the ledger and the book has its amount, and the turnover is within 64 bits: the
-- turnover stays the same; the balance of the DEX falls by what was taken; that of the owner rises by
-- what was returned less a fee for each return; and a fee for each movement has been collected.
pub IsWithdrawn-IsSettled :
    (pair : ValidatedAsset × ValidatedAsset) (us : List Update) (x : ValidatedAsset)
    (before : ValidatedBalances) (book : ValidatedBalanceBook)
    → IsWithdrawn pair us
    → book_of x before ≡ some book
    → AllCovered x us book
    → turnover book ≤ u64_max
    → (after : ValidatedBalanceBook) × (book_of x (apply_all us before) ≡ some after)
      × IsSettled
          (total taken_by x us)
          (total returned_by x us)
          (total charged_by x us)
          (total charged_to_owner_by x us)
          book
          after
IsWithdrawn-IsSettled pair us x before book script found covered fits =
    let h = IsWithdrawn-AllWithdrawing pair us script in
    (
      all_in_book x us book,
      book_of-apply_all x us before book (AllWithdrawing-AllOrdinary us h) found,
      all_in_book-IsSettled x us book h covered fits,
    )
