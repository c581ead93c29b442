-- ===== src/Validation/View/Book.antt =====
-- test_helpers/mod.rs, `TryFrom<BalanceBook> for ValidatedBalanceBook`: the way back from the API's
-- view of a book. An `unwrap` of an error is a panic, which is `none`.
use sns_kongswap_adaptor.Base.{ℕ, ◌≡◌, ◌≤◌, refl, Option, none, some, ◌++◌, arith}
use sns_kongswap_adaptor.Base.Text.{Text, str, join}
use sns_kongswap_adaptor.Base.Result.{Result, ok, err}
use sns_kongswap_adaptor.Arithmetics.{u64_max}
use sns_kongswap_adaptor.Sns.{Balance, BalanceBook}
use sns_kongswap_adaptor.Validation.Asset.{Display, decode_nat_to_u64}
use sns_kongswap_adaptor.Balances.{ValidatedBalance, ValidatedBalanceBook}
use sns_kongswap_adaptor.Balances.Bounds.{IsBookBounded}
use sns_kongswap_adaptor.Validation.View.{absent, try_from_balance, book_from}
use sns_kongswap_adaptor.Validation.View.RoundTrip.{try_from_balance-balance_from}

module _ (d : Display) where
  abbrev value_or_zero : Result ℕ Text → ℕ
  value_or_zero (ok amount) = amount
  value_or_zero (err e) = 0

  -- `map_or(0, ..)`.
  abbrev amount_or_zero : Option Balance → ℕ
  amount_or_zero none = 0
  amount_or_zero (some balance) = value_or_zero (decode_nat_to_u64 d balance.amount_decimals)

  abbrev with_parties :
      BalanceBook
      → Result ValidatedBalance Text
      → Result ValidatedBalance Text
      → Option (Result ValidatedBalanceBook Text)
  with_parties value (ok treasury_owner) (ok treasury_manager) = some (
      ok (record {
        treasury_owner = treasury_owner;
        treasury_manager = treasury_manager;
        external = amount_or_zero value.external_custodian;
        fee_collector = amount_or_zero value.fee_collector;
        spendings = amount_or_zero value.payees;
        earnings = amount_or_zero value.payers;
        suspense = amount_or_zero value.suspense;
      }))
  with_parties value _ _ = none

  abbrev judge_book :
      BalanceBook → Option Balance → Option Balance → Option (Result ValidatedBalanceBook Text)
  judge_book value (some owner) (some manager) =
      with_parties value (try_from_balance d owner) (try_from_balance d manager)
  judge_book value owner manager = some (
      err (
        join (str ", ") (
          absent (str "Missing treasury owner") owner
          ++ absent (str "Missing treasury manager") manager)))

  unfoldable pub try_from_book : BalanceBook → Option (Result ValidatedBalanceBook Text)
  try_from_book value = judge_book value value.treasury_owner value.treasury_manager

  decode_fits : (n : ℕ) → n ≤ u64_max → decode_nat_to_u64 d n ≡ ok n
  unfolding decode_nat_to_u64
  decode_fits n h = ground arith

  -- A stored book whose amounts are 64-bit numbers is the same after its conversion to the API and
  -- back: the API shows the spendings as the payees and the earnings as the payers.
  pub try_from_book-book_from :
      (b : ValidatedBalanceBook) → IsBookBounded b → try_from_book (book_from b) ≡ some (ok b)
  unfolding try_from_book book_from
  try_from_book-book_from b h =
      rw
        (
          try_from_balance-balance_from d b.treasury_owner h.treasury_owner,
          try_from_balance-balance_from d b.treasury_manager h.treasury_manager,
          decode_fits b.external h.external,
          decode_fits b.fee_collector h.fee_collector,
          decode_fits b.spendings h.spendings,
          decode_fits b.earnings h.earnings,
          decode_fits b.suspense h.suspense,
        )
        refl
