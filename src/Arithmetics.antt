-- ===== src/Arithmetics.antt =====
-- logged_arithmetics.rs: saturating arithmetic on u64. The log line of an overflow is output and is
-- not modelled.
pub mod Laws
use sns_kongswap_adaptor.Base.{ℕ, ◌+◌, ◌-◌, ◌^◌, Option, none, some, leb, if◌then◌else◌}

-- `u64::MAX`.
abbrev pub u64_max : ℕ
u64_max = 2 ^ 64 - 1

abbrev pub checked_add : ℕ → ℕ → Option ℕ
checked_add a b = if leb (a + b) u64_max then some (a + b) else none

abbrev pub checked_sub : ℕ → ℕ → Option ℕ
checked_sub a b = if leb b a then some (a - b) else none

unfoldable pub logged_saturating_add : ℕ → ℕ → ℕ
logged_saturating_add a b = elim (checked_add a b) [ some sum ↦ sum | none ↦ u64_max ]

unfoldable pub logged_saturating_sub : ℕ → ℕ → ℕ
logged_saturating_sub a b = elim (checked_sub a b) [ some sub ↦ sub | none ↦ 0 ]

-- `u64::saturating_sub` and `u64::saturating_add` of the standard library.
abbrev pub saturating_sub : ℕ → ℕ → ℕ
saturating_sub a b = a - b

abbrev pub saturating_add : ℕ → ℕ → ℕ
saturating_add a b = if leb (a + b) u64_max then a + b else u64_max

-- `a - b` on u64, as a release build computes it.
abbrev pub wrapping_sub : ℕ → ℕ → ℕ
wrapping_sub a b = if leb b a then a - b else 2 ^ 64 + a - b
