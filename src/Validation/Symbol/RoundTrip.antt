-- ===== src/Validation/Symbol/RoundTrip.antt =====
-- Which texts are symbols, and what a symbol prints.
use sns_kongswap_adaptor.Base.{
  ℕ, zero, suc, ◌-◌, ◌≤◌, min, ◌≡◌, ◌↔◌, refl, ap, sym, ◌∙◌, true, [], ◌∷◌, ◌++◌, arith, ◌==◌,
  if◌then◌else◌, length, take, drop, replicate, all, length-append, length-replicate,
}
use sns_kongswap_adaptor.Base.Text.{Text}
use sns_kongswap_adaptor.Base.Result.{ok}
use sns_kongswap_adaptor.Validation.Symbol.{
  ValidatedSymbol, take_bytes, is_valid_symbol_character, try_from_text, bytes_to_string, to_string,
  max_symbol_bytes,
}

-- The bytes of a text before its first NUL.
abbrev pub before_nul : Text → Text
before_nul [] = []
before_nul (b ∷ bs) = if b == 0 then [] else b ∷ before_nul bs

take-length : (t : Text) → take (length t) t ≡ t
take-length [] = refl
take-length (b ∷ t) = ap (λ u. b ∷ u) (take-length t)

drop-replicate : (k n : ℕ) → drop {A = ℕ} k (replicate n 0) ≡ replicate (n - k) 0
drop-replicate zero n = let e : n - 0 ≡ n = omega arith in rw e
drop-replicate (suc k) zero = let e : 0 - suc k ≡ 0 = omega arith in rw e
drop-replicate (suc k) (suc n) =
    let e : suc n - suc k ≡ n - k = omega arith in rw e (drop-replicate k n)

take_bytes_padded :
    (t : Text) → length t ≤ max_symbol_bytes → take_bytes t ≡ t ++ replicate (10 - length t) 0
unfolding take_bytes
take_bytes_padded t h =
    let e : min (length t) 10 ≡ length t = omega arith in
    rw (e, take-length t, drop-replicate (length t) 10)

length-take_bytes : (t : Text) → length t ≤ max_symbol_bytes → length (take_bytes t) ≡ 10
length-take_bytes t h =
    rw (take_bytes_padded t h, length-append)
      (omega (arith, length-replicate {A = ℕ} (10 - length t) 0))

all-padding : (n : ℕ) → all is_valid_symbol_character (replicate n 0) ≡ true
unfolding is_valid_symbol_character
all-padding zero = refl
all-padding (suc n) = all-padding n

all-padded :
    (n : ℕ) (t : Text)
    → all is_valid_symbol_character (t ++ replicate n 0) ≡ all is_valid_symbol_character t
all-padded n [] = all-padding n
all-padded n (b ∷ t) = rw (all-padded n t)

bytes_to_string-padded :
    (n : ℕ) (t : Text)
    → all is_valid_symbol_character t ≡ true
    → bytes_to_string (t ++ replicate n 0) ≡ before_nul t
unfolding to_string is_valid_symbol_character
bytes_to_string-padded zero [] h = refl
bytes_to_string-padded (suc n) [] h = refl
bytes_to_string-padded n (b ∷ t) h = ground (arith, bytes_to_string-padded n t)

-- A text is accepted as a symbol exactly when it has at most ten bytes, all of them graphic ASCII
-- or NUL.
pub try_from_text-eq-ok :
    (t : Text)
    → ((s : ValidatedSymbol) × (try_from_text t ≡ ok s))
      ↔ ((length t ≤ max_symbol_bytes) × (all is_valid_symbol_character t ≡ true))
unfolding try_from_text
try_from_text-eq-ok t = (accepted t, built t)
  where
    accepted :
        (t : Text)
        → (s : ValidatedSymbol) × (try_from_text t ≡ ok s)
        → (length t ≤ max_symbol_bytes) × (all is_valid_symbol_character t ≡ true)
    accepted t (s, h) = ground (arith, take_bytes_padded t, all-padded (10 - length t) t)

    built :
        (t : Text)
        → (length t ≤ max_symbol_bytes) × (all is_valid_symbol_character t ≡ true)
        → (s : ValidatedSymbol) × (try_from_text t ≡ ok s)
    built t h = (
      record { repr = take_bytes t },
      ground (arith, take_bytes_padded t, all-padded (10 - length t) t),
    )

repr-try_from_text :
    (t : Text) (s : ValidatedSymbol) → try_from_text t ≡ ok s → s.repr ≡ take_bytes t
unfolding try_from_text
repr-try_from_text t s h = ground arith

-- An accepted symbol occupies ten bytes and prints as the accepted text up to its first NUL.
pub to_string-try_from_text :
    (t : Text) (s : ValidatedSymbol)
    → try_from_text t ≡ ok s
    → (length s.repr ≡ 10) × (to_string s ≡ before_nul t)
unfolding to_string
to_string-try_from_text t s h =
    let fits = ((try_from_text-eq-ok t).0 (s, h)).0 in
    let graphic = ((try_from_text-eq-ok t).0 (s, h)).1 in
    rw (repr-try_from_text t s h) (
      length-take_bytes t fits,
      rw (take_bytes_padded t fits) (bytes_to_string-padded (10 - length t) t graphic),
    )

length-before_nul : (t : Text) → length (before_nul t) ≤ length t
length-before_nul [] = omega arith
length-before_nul (b ∷ t) = ground (arith, length-before_nul t)

all-before_nul :
    (t : Text)
    → all is_valid_symbol_character t ≡ true
    → all is_valid_symbol_character (before_nul t) ≡ true
unfolding is_valid_symbol_character
all-before_nul [] h = refl
all-before_nul (b ∷ t) h = ground (arith, all-before_nul t)

before_nul_twice : (t : Text) → before_nul (before_nul t) ≡ before_nul t
before_nul_twice [] = refl
before_nul_twice (b ∷ t) = ground (arith, before_nul_twice t)

-- What an accepted symbol prints is accepted again, as a symbol that prints the same.
pub try_from_text-to_string :
    (t : Text) (s : ValidatedSymbol)
    → try_from_text t ≡ ok s
    → (s' : ValidatedSymbol) × (try_from_text (to_string s) ≡ ok s') × (to_string s' ≡ to_string s)
try_from_text-to_string t s h =
    let (fits, graphic) = (try_from_text-eq-ok t).0 (s, h) in
    let (padded, prints) = to_string-try_from_text t s h in
    let (s', again) =
      (try_from_text-eq-ok (before_nul t)).1
        (omega (arith, fits, length-before_nul t), all-before_nul t graphic) in
    let (padded', prints') = to_string-try_from_text (before_nul t) s' again in
    (s', rw prints again, prints' ∙ before_nul_twice t ∙ sym prints)
