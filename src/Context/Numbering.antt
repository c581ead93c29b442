-- ===== src/Context/Numbering.antt =====
-- The numbers that the steps of one operation get.
use sns_kongswap_adaptor.Base.{ℕ, zero, suc, ◌≡◌, refl, false, min, arith}
use sns_kongswap_adaptor.Sns.{Operation}
use sns_kongswap_adaptor.Context.{OperationContext, new, next_operation, next_index, usize_max}

-- The context after a number of steps.
abbrev pub steps : ℕ → OperationContext → OperationContext
steps zero context = context
steps (suc n) context = (next_operation (steps n context)).1

number : (n : ℕ) (op : Operation) → next_index (steps n (new op)).index ≡ min n usize_max
unfolding next_operation new
number zero op = omega arith
number (suc n) op = rw (number n op) (ground arith)

operation_kept : (n : ℕ) (op : Operation) → (steps n (new op)).operation ≡ op
unfolding next_operation new
operation_kept zero op = refl
operation_kept (suc n) op = operation_kept n op

-- The steps of an operation are numbered from 0 on in the order in which they are taken, up to the
-- largest index, at which the numbering stays; each is of the operation, and none is final.
pub next_operation_lem :
    (n : ℕ) (op : Operation)
    → (next_operation (steps n (new op))).0
      ≡ record { operation = op; step = record { index = min n usize_max; is_final = false } }
unfolding next_operation
next_operation_lem n op = rw (number n op, operation_kept n op) refl
