-- ===== src/Prelude/Decimal/RoundTrip.antt =====
-- A number is read back from its numeral, also where other text follows it.
use debusine.Prelude.Decimal.{Text, is_digit, numeral, str, value, int, span_digits}
use debusine.Prelude.{
  ℕ, zero, suc, true, false, [], ◌∷◌, ◌++◌, All, ◌≡◌, ◌<◌, refl, arith, inl, inr, Bool-cases, ltb,
  ◌∙◌, ◌*◌, ◌+◌, ◌-◌, ◌/◌, ◌%◌,
}

value-append : (xs : Text) (n c : ℕ) → value n (xs ++ c ∷ []) ≡ value n xs * 10 + (c - b'0')
value-append [] n c = refl
value-append (x ∷ xs) n c = value-append xs (n * 10 + (x - b'0')) c

value-numeral : (rounds n : ℕ) → n < rounds → value 0 (numeral rounds n) ≡ n
value-numeral zero n h = absurd (omega arith)
value-numeral (suc rounds) n h = elim (Bool-cases (ltb n 10)) [
  | inl small ↦ ground arith
  | inr large ↦ rw large (
      value-append (numeral rounds (n / 10)) 0 (b'0' + n % 10)
      ∙ ground (arith, value-numeral rounds (n / 10)))
]

All-last :
    (xs : Text) (c : ℕ)
    → All (λ d. is_digit d ≡ true) xs
    → is_digit c ≡ true
    → All (λ d. is_digit d ≡ true) (xs ++ c ∷ [])
All-last [] c h e = (e, tt)
All-last (x ∷ xs) c h e = (h.0, All-last xs c h.1 e)

pub numeral-digits : (rounds n : ℕ) → All (λ d. is_digit d ≡ true) (numeral rounds n)
numeral-digits zero n = tt
numeral-digits (suc rounds) n = elim (Bool-cases (ltb n 10)) [
  | inl small ↦ rw small (ground arith, tt)
  | inr large ↦ rw large (
      All-last (numeral rounds (n / 10)) (b'0' + n % 10) (numeral-digits rounds (n / 10))
        (ground arith))
]

pub int-str : (n : ℕ) → int (str n) ≡ n
unfolding int str
int-str n = value-numeral (suc n) n (omega arith)

-- What stands behind a run of digits ends it.
abbrev pub Ends : Text → Type 0
Ends [] = Unit {0}
Ends (c ∷ s) = is_digit c ≡ false

span_append :
    (xs rest : Text)
    → All (λ d. is_digit d ≡ true) xs
    → Ends rest
    → span_digits (xs ++ rest) ≡ (xs, rest)
span_append [] [] h e = refl
span_append [] (c ∷ s) h e = rw e refl
span_append (x ∷ xs) rest h e = rw (h.0, span_append xs rest h.1 e) refl

pub span_digits-str :
    (n : ℕ) (rest : Text) → Ends rest → span_digits (str n ++ rest) ≡ (str n, rest)
unfolding str
span_digits-str n rest e = span_append (numeral (suc n) n) rest (numeral-digits (suc n) n) e

append_ne_nil : (xs : Text) (c : ℕ) → (d : ℕ) × (s : Text) × (xs ++ c ∷ [] ≡ d ∷ s)
append_ne_nil [] c = (c, [], refl)
append_ne_nil (x ∷ xs) c = (x, xs ++ c ∷ [], refl)

-- A numeral has a digit.
pub str_cons : (n : ℕ) → (d : ℕ) × (s : Text) × (str n ≡ d ∷ s)
unfolding str
str_cons n = elim (Bool-cases (ltb n 10)) [
  | inl small ↦ rw small (b'0' + n, [], refl)
  | inr large ↦ rw large (append_ne_nil (numeral n (n / 10)) (b'0' + n % 10))
]
