-- ===== src/Adaptor/Writes/Conserves.antt =====
-- That the books after a deposit add up.
use sns_kongswap_adaptor.Base.{
  ℕ, ◌+◌, ◌*◌, ◌≤◌, ◌≡◌, ◌⊎◌, inl, inr, Bool-cases, if◌then◌else◌, ◌==◌, arith,
}
use sns_kongswap_adaptor.Arithmetics.{u64_max}
use sns_kongswap_adaptor.Arithmetics.Laws.{saturating}
use sns_kongswap_adaptor.Balances.{
  Party, ValidatedBalanceBook, credit_manager, charge_fee_in_book, move_in_book, deposit_suspense,
}
use sns_kongswap_adaptor.Balances.Conservation.{turnover, to_dex, to_owner, move_in_book_lem}

-- What has become of the four balances of a book, where `charged` has been taken for fees, `sent` has
-- gone to the DEX and `returned` to the owner, with the fee of the ledger for each of both.
pub record IsBalanced (fee amount sent returned : ℕ) (book after : ValidatedBalanceBook)
    : Type 0 where
  pub turnover : turnover after ≡ turnover book + amount
  pub external : after.external + fee ≡ book.external + sent
  pub owner :
      after.treasury_owner.amount_decimals + (if returned == 0 then 0 else fee)
      ≡ book.treasury_owner.amount_decimals + returned
  pub manager :
      after.treasury_manager.amount_decimals + 2 * fee + sent + returned
      ≡ book.treasury_manager.amount_decimals + amount

-- The book of one asset after its receipt and its approval.
abbrev pub approved_book : ℕ → ℕ → ValidatedBalanceBook → ValidatedBalanceBook
approved_book fee amount book =
    charge_fee_in_book fee (charge_fee_in_book fee (credit_manager amount book))

approved_book_lem :
    (fee amount : ℕ) (book : ValidatedBalanceBook)
    → 2 * fee ≤ amount
    → turnover book + amount ≤ u64_max
    → let c = approved_book fee amount book in
      (c.treasury_manager.amount_decimals + 2 * fee
        ≡ book.treasury_manager.amount_decimals + amount)
      × (c.fee_collector ≡ book.fee_collector + 2 * fee)
      × (c.external ≡ book.external)
      × (c.treasury_owner.amount_decimals ≡ book.treasury_owner.amount_decimals)
unfolding charge_fee_in_book credit_manager
approved_book_lem fee amount book h k = omega saturating

abbrev SameBalances : ValidatedBalanceBook → ValidatedBalanceBook → Type 0
SameBalances a b =
    (a.treasury_manager.amount_decimals ≡ b.treasury_manager.amount_decimals)
    × (a.fee_collector ≡ b.fee_collector)
    × (a.external ≡ b.external)
    × (a.treasury_owner.amount_decimals ≡ b.treasury_owner.amount_decimals)

deposit_suspense-SameBalances :
    (y z n : ℕ) (book : ValidatedBalanceBook) → SameBalances (deposit_suspense y z n book) book
unfolding deposit_suspense
deposit_suspense-SameBalances y z n book = ground arith

abbrev pub returned_book : ℕ → ℕ → ValidatedBalanceBook → ValidatedBalanceBook
returned_book fee r book =
    if r == 0 then book else move_in_book fee Party.treasury_manager Party.treasury_owner r book

-- The book of one asset after a whole deposit.
abbrev pub deposited_book : ℕ → ℕ → ℕ → ℕ → ℕ → ℕ → ValidatedBalanceBook → ValidatedBalanceBook
deposited_book fee amount n y z r book = returned_book fee r (
    deposit_suspense y z n
      (move_in_book fee Party.treasury_manager Party.external n (approved_book fee amount book)))

pub deposited_book-IsBalanced :
    (fee amount n y z r : ℕ) (book : ValidatedBalanceBook)
    → fee ≤ n
    → (r ≡ 0) ⊎ (fee ≤ r)
    → 2 * fee + n + r ≤ book.treasury_manager.amount_decimals + amount
    → 2 * fee ≤ amount
    → turnover book + amount ≤ u64_max
    → IsBalanced fee amount n r book (deposited_book fee amount n y z r book)
deposited_book-IsBalanced fee amount n y z r book covers returns holds pays fits =
    let c = approved_book fee amount book in
    let (cm, cf, ce, co) = approved_book_lem fee amount book pays fits in
    let d = move_in_book fee Party.treasury_manager Party.external n c in
    let (dm, de, dt, du, ds) = move_in_book_lem fee n c to_dex covers (omega arith) (omega arith) in
    let e = deposit_suspense y z n d in
    let (em, ef, ee, eo) = deposit_suspense-SameBalances y z n d in
    elim (Bool-cases (r == 0)) [
      | inl i ↦
          let none_ : r ≡ 0 = ground arith in
          rw i (record {
            turnover = omega arith;
            external = omega arith;
            owner = rw i (omega arith);
            manager = omega arith;
          })
      | inr i ↦
          let some_ : fee ≤ r = ground arith in
          let (gm, ge, gt, gu, gs) =
            move_in_book_lem fee r e to_owner some_ (omega arith) (omega arith) in
          rw i (record {
            turnover = omega arith;
            external = omega arith;
            owner = rw i (omega arith);
            manager = omega arith;
          })
    ]
