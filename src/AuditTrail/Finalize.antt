-- ===== src/AuditTrail/Finalize.antt =====
-- Finalisation marks exactly the last open transaction of its operation.
use mathlib.Core.List.{reverse}
use sns_kongswap_adaptor.Base.{
  ℕ, suc, ◌+◌, ◌-◌, ◌≤◌, ◌<◌, ◌≡◌, refl, ◌∙◌, ap, true, none, some, List, [], ◌∷◌, ◌++◌, arith,
  length, set, length-append, lt→ltb,
}
use sns_kongswap_adaptor.Base.Search.{fails, fails-reverse, reverse-cut, length-reverse}
use sns_kongswap_adaptor.Arithmetics.{u64_max}
use sns_kongswap_adaptor.Arithmetics.Laws.{saturating}
use sns_kongswap_adaptor.Arithmetics.{logged_saturating_add, logged_saturating_sub}
use sns_kongswap_adaptor.Sns.{Operation}
use sns_kongswap_adaptor.AuditTrail.{
  StableTransaction, Trail, is_open, find_open, finalized, finalize_audit_trail_transaction,
  set_audit_trail_transaction_result, close_found,
}

pub set-cut {ℓ} :
    {A : Type ℓ} (xs : List A) (x y : A) (ys : List A)
    → set (xs ++ x ∷ ys) (length xs) y ≡ xs ++ y ∷ ys
set-cut [] x y ys = refl
set-cut (z ∷ xs) x y ys = ap (λ t. z ∷ t) (set-cut xs x y ys)

find_open-fails :
    (op : Operation) (n r : ℕ) (xs : List StableTransaction)
    → fails (is_open op) xs ≡ true
    → find_open op n r xs ≡ none
unfolding find_open
find_open-fails op n r [] h = refl
find_open-fails op n r (x ∷ xs) h = ground (arith, find_open-fails op n (r + 1) xs)

find_open-cut :
    (op : Operation) (n r : ℕ) (xs : List StableTransaction) (x : StableTransaction)
    (ys : List StableTransaction)
    → fails (is_open op) xs ≡ true
    → is_open op x ≡ true
    → r + length xs < u64_max
    → find_open op n r (xs ++ x ∷ ys) ≡ some (n - (r + length xs + 1), x)
unfolding find_open
find_open-cut op n r [] x ys h e fits = rw e (
    let i : logged_saturating_sub n (logged_saturating_add r 1) ≡ n - (r + 0 + 1) =
      omega saturating in
    rw i)
find_open-cut op n r (z ∷ xs) x ys h e fits =
    let i : r + 1 + length xs + 1 ≡ r + suc (length xs) + 1 = omega arith in
    ground (arith, find_open-cut op n (r + 1) xs x ys)

pub finalize-cut :
    (op : Operation) (before : Trail) (t : StableTransaction) (after : Trail)
    → is_open op t ≡ true
    → fails (is_open op) after ≡ true
    → length (before ++ t ∷ after) ≤ u64_max
    → finalize_audit_trail_transaction op (before ++ t ∷ after) ≡ before ++ finalized t ∷ after
unfolding finalize_audit_trail_transaction set_audit_trail_transaction_result
finalize-cut op before t after h k fits =
    let trail = before ++ t ∷ after in
    let size : length trail ≡ length before + suc (length after) =
      length-append before (t ∷ after) in
    let distance = length-reverse after in
    let found =
      find_open-cut op (length trail) 0 (reverse after) t (reverse before)
        (fails-reverse (is_open op) after ∙ k) h (omega arith) in
    let index : length trail - (0 + length (reverse after) + 1) ≡ length before = omega arith in
    let within : length before < length trail = omega arith in
    rw (reverse-cut before t after, found, index, lt→ltb _ _ within)
      (set-cut before t (finalized t) after)

-- Where no transaction of the operation is open, finalisation changes nothing. Where one is, in a
-- trail of fewer than 2 ^ 64 transactions, the last such transaction becomes final and all others,
-- before and after it, stay as they are.
pub finalize_audit_trail_transaction_lem :
    (op : Operation) (trail : Trail)
    → (fails (is_open op) trail ≡ true → finalize_audit_trail_transaction op trail ≡ trail)
      × ((before : Trail) (t : StableTransaction) (after : Trail)
          → trail ≡ before ++ t ∷ after
          → is_open op t ≡ true
          → fails (is_open op) after ≡ true
          → length trail ≤ u64_max
          → finalize_audit_trail_transaction op trail ≡ before ++ finalized t ∷ after)
unfolding finalize_audit_trail_transaction
finalize_audit_trail_transaction_lem op trail = (nothing, marks)
  where
    nothing : fails (is_open op) trail ≡ true → finalize_audit_trail_transaction op trail ≡ trail
    nothing h =
        ap (close_found trail) (
          find_open-fails op (length trail) 0 (reverse trail)
            (fails-reverse (is_open op) trail ∙ h))

    marks :
        (before : Trail) (t : StableTransaction) (after : Trail)
        → trail ≡ before ++ t ∷ after
        → is_open op t ≡ true
        → fails (is_open op) after ≡ true
        → length trail ≤ u64_max
        → finalize_audit_trail_transaction op trail ≡ before ++ finalized t ∷ after
    marks before t after e h k fits = rw e (finalize-cut op before t after h k (rw e at fits))
