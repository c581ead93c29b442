-- ===== src/AuditTrail/Append.antt =====
-- A trail that only grows: its entries stay in their places, and keep what they were begun with.
use sns_kongswap_adaptor.Base.{
  ℕ, zero, suc, ◌≡◌, refl, sym, ◌≤◌, ◌<◌, Bool-cases, inl, inr, Option, none, some, [], ◌∷◌, ◌++◌,
  arith, ltb, lt→ltb, length, get_elem?, get_elem?-append_new, set, length-set, length-append,
}
use mathlib.Core.List.{reverse}
use sns_kongswap_adaptor.Base.Search.{Last, absent, cut, last_match}
use sns_kongswap_adaptor.Arithmetics.{u64_max}
use sns_kongswap_adaptor.Sns.{Operation}
use sns_kongswap_adaptor.AuditTrail.{
  StableTransaction, Trail, is_open, finalized, find_open, close_found,
  finalize_audit_trail_transaction, set_audit_trail_transaction_result,
}
use sns_kongswap_adaptor.AuditTrail.Finalize.{
  finalize-cut, finalize_audit_trail_transaction_lem, set-cut,
}

-- All of an entry but its result and its finality.
pub record SameEntry (a b : StableTransaction) : Type 0 where
  pub timestamp_ns : a.timestamp_ns ≡ b.timestamp_ns
  pub canister_id : a.canister_id ≡ b.canister_id
  pub human_readable : a.human_readable ≡ b.human_readable
  pub operation : a.operation.operation ≡ b.operation.operation
  pub index : a.operation.step.index ≡ b.operation.step.index

-- The second trail has, from its start on, the entries of the first.
abbrev pub Extends : Trail → Trail → Type 0
Extends [] t = Unit
Extends (x ∷ s) [] = ⊥
Extends (x ∷ s) (y ∷ t) = SameEntry x y × Extends s t

SameEntry-refl : (x : StableTransaction) → SameEntry x x
SameEntry-refl x = ground arith

SameEntry-trans : {x y z : StableTransaction} → SameEntry x y → SameEntry y z → SameEntry x z
SameEntry-trans h k = ground arith

SameEntry-sym : {x y : StableTransaction} → SameEntry x y → SameEntry y x
SameEntry-sym h = ground arith

pub Extends-refl : (s : Trail) → Extends s s
Extends-refl [] = tt
Extends-refl (x ∷ s) = (SameEntry-refl x, Extends-refl s)

Extends-trans : (s t u : Trail) → Extends s t → Extends t u → Extends s u
Extends-trans [] t u h k = tt
Extends-trans (x ∷ s) [] u h k = elim h [ ]
Extends-trans (x ∷ s) (y ∷ t) [] h k = elim k [ ]
Extends-trans (x ∷ s) (y ∷ t) (z ∷ u) (a, h) (b, k) = (SameEntry-trans a b, Extends-trans s t u h k)

Extends-append : (s t : Trail) → Extends s (s ++ t)
Extends-append [] t = tt
Extends-append (x ∷ s) t = (SameEntry-refl x, Extends-append s t)

Extends-set :
    (s : Trail) (i : ℕ) {x : StableTransaction} (y : StableTransaction)
    → get_elem? s i ≡ some x
    → SameEntry x y
    → Extends s (set s i y)
Extends-set [] i y h k = tt
Extends-set (z ∷ s) zero y h k = let e : z ≡ _ = cc in (rw e k, Extends-refl s)
Extends-set (z ∷ s) (suc i) y h k = (SameEntry-refl z, Extends-set s i y h k)

Extends-get_elem? :
    (s t : Trail) (i : ℕ) {x : StableTransaction}
    → Extends s t
    → get_elem? s i ≡ some x
    → (y : StableTransaction) × (get_elem? t i ≡ some y) × SameEntry x y
Extends-get_elem? [] t i h k = cc
Extends-get_elem? (z ∷ s) [] i h k = elim h [ ]
Extends-get_elem? (z ∷ s) (y ∷ t) zero {x} (a, h) k = let e : x ≡ z = cc in (y, refl, rw e a)
Extends-get_elem? (z ∷ s) (y ∷ t) (suc i) (a, h) k = Extends-get_elem? s t i h k

-- The stable vector has fewer than 2 ^ 64 entries.
pub record Grows (s t : Trail) : Type 0 where
  pub longer : length s ≤ length t
  pub extends : length t ≤ u64_max → Extends s t

pub Grows-refl : (s : Trail) → Grows s s
Grows-refl s = record { longer = omega arith; extends = λ fits. Extends-refl s }

pub Grows-trans : {s t u : Trail} → Grows s t → Grows t u → Grows s u
Grows-trans {s} {t} {u} h k = record {
  longer = omega (arith, h.longer, k.longer);
  extends =
      λ fits. Extends-trans s t u (h.extends (omega (arith, k.longer, fits))) (k.extends fits);
}

pub Grows-append : (s : Trail) (x : StableTransaction) → Grows s (s ++ x ∷ [])
Grows-append s x = record {
  longer = omega (arith, length-append s (x ∷ []));
  extends = λ fits. Extends-append s (x ∷ []);
}

Grows-set :
    (s : Trail) (i : ℕ) {x : StableTransaction} (y : StableTransaction)
    → get_elem? s i ≡ some x
    → SameEntry x y
    → Grows s (set s i y)
Grows-set s i y h k = record {
  longer = omega (arith, length-set s i y);
  extends = λ fits. Extends-set s i y h k;
}

get_elem?-cut :
    (s : Trail) (x : StableTransaction) (t : Trail) → get_elem? (s ++ x ∷ t) (length s) ≡ some x
get_elem?-cut [] x t = refl
get_elem?-cut (y ∷ s) x t = get_elem?-cut s x t

length-finalize :
    (op : Operation) (s : Trail) → length (finalize_audit_trail_transaction op s) ≡ length s
unfolding finalize_audit_trail_transaction set_audit_trail_transaction_result
length-finalize op s = closed (find_open op (length s) 0 (reverse s))
  where
    closed : (r : Option (ℕ × StableTransaction)) → length (close_found s r) ≡ length s
    closed none = refl
    closed (some (i, t)) = elim (Bool-cases (ltb i (length s))) [
      | inl e ↦ rw e (length-set s i (finalized t))
      | inr e ↦ rw e refl
    ]

finalize-Extends :
    (op : Operation) (s : Trail)
    → Last (is_open op) s
    → length s ≤ u64_max
    → Extends s (finalize_audit_trail_transaction op s)
finalize-Extends op s (absent h) fits =
    (rw ((finalize_audit_trail_transaction_lem op s).0 h) (Extends-refl s))
finalize-Extends op s (cut before t after e h k) fits =
    let closed =
      Extends-set (before ++ t ∷ after) (length before) (finalized t) (get_elem?-cut before t after)
        (ground arith) in
    rw
      (
        e,
        finalize-cut op before t after h k (rw e at fits),
        sym (set-cut before t (finalized t) after),
      )
      closed

pub Grows-finalize : (op : Operation) (s : Trail) → Grows s (finalize_audit_trail_transaction op s)
Grows-finalize op s = record {
  longer = omega (arith, length-finalize op s);
  extends = λ fits.
      finalize-Extends op s (last_match (is_open op) s) (omega (arith, length-finalize op s));
}

-- A result is recorded at the place where its entry was appended, in what the trail has grown to.
pub Grows-record :
    (s t : Trail) (x y : StableTransaction)
    → Grows (s ++ x ∷ []) t
    → SameEntry x y
    → Grows s (set_audit_trail_transaction_result (length s) y t)
unfolding set_audit_trail_transaction_result
Grows-record s t x y h k =
    rw (lt→ltb _ _ within) (Grows-trans (Grows-append s x) (Grows-trans h overwritten))
  where
    within : length s < length t
    within = omega (arith, h.longer, length-append s (x ∷ []))

    overwritten : Grows t (set t (length s) y)
    overwritten = record {
      longer = omega (arith, length-set t (length s) y);
      extends = λ fits.
          let (z, found, same) =
            Extends-get_elem? (s ++ x ∷ []) t (length s)
              (h.extends (omega (arith, length-set t (length s) y))) (get_elem?-append_new s x) in
          Extends-set t (length s) y found (SameEntry-trans (SameEntry-sym same) k);
    }
