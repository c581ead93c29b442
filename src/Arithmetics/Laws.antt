-- ===== src/Arithmetics/Laws.antt =====
-- The closed forms of the saturating operations, for proofs that keep them shut.
use sns_kongswap_adaptor.Base.{ℕ, ◌+◌, ◌-◌, ◌≤◌, min, ◌≡◌, arith}
use sns_kongswap_adaptor.Arithmetics.{u64_max, logged_saturating_add, logged_saturating_sub}

pub logged_saturating_add_lem : (a b : ℕ) → logged_saturating_add a b ≡ min (a + b) u64_max
unfolding logged_saturating_add
logged_saturating_add_lem a b = ground arith

pub logged_saturating_sub_lem : (a b : ℕ) → logged_saturating_sub a b ≡ a - b
unfolding logged_saturating_sub
logged_saturating_sub_lem a b = ground arith

pub ruleset saturating = (arith, logged_saturating_add_lem, logged_saturating_sub_lem)
