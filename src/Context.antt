-- ===== src/Context.antt =====
-- audit.rs, `OperationContext`: numbers the steps of one operation.
pub mod Numbering
use sns_kongswap_adaptor.Base.{
  ℕ, ◌+◌, ◌-◌, ◌^◌, ◌≡◌, refl, ◌≤◌, ◌<◌, false, Option, none, some, leb, if◌then◌else◌, arith,
}
use sns_kongswap_adaptor.Sns.{Operation, TreasuryManagerOperation}

-- `usize::MAX` of the 32-bit target.
abbrev pub usize_max : ℕ
usize_max = 2 ^ 32 - 1

pub record OperationContext : Type 0 where
  pub operation : Operation
  pub index : Option ℕ

unfoldable pub new : Operation → OperationContext
new operation = record { operation = operation; index = none }

abbrev next_index : Option ℕ → ℕ
next_index none = 0
next_index (some index) = if leb (index + 1) usize_max then index + 1 else usize_max

unfoldable pub next_operation : OperationContext → TreasuryManagerOperation × OperationContext
next_operation context =
    let index = next_index context.index in
    (
      record { operation = context.operation; step = record { index = index; is_final = false } },
      record context { index = some index },
    )
