-- ===== src/Text/Numerals.antt =====
-- Decimal numerals: how a number is put into a template literal.
use kovcheg.Base.{
  ℕ, zero, suc, ◌+◌, ◌-◌, ◌*◌, ◌/◌, ◌%◌, ◌≡◌, ◌≤◌, ◌<◌, refl, ap, ◌∙◌, [], ◌∷◌, arith, ltb, if-true,
  if-false, all, all-cons_intro, &&-intro, leb, le→leb, ltb→lt, ltb-false, Bool-cases, true, inl,
  inr, if◌then◌else◌,
}
use kovcheg.Text.{Text, codes}
use kovcheg.Text.Splitting.{is_digit}
use kovcheg.Text.Patterns.{is_numeral}

-- The digits of a number, in front of those that follow. Each round takes one digit, and a number
-- has at most as many as itself and one.
digits : ℕ → ℕ → Text → Text
digits zero n after = after
digits (suc fuel) n after =
    let more = digits fuel (n / 10) ((b'0' + n % 10) ∷ after) in
    if ltb n 10 then (b'0' + n) ∷ after else more

-- `${n}`
unfoldable pub decimal : ℕ → Text
unfolding digits
decimal n = digits (suc n) n []

-- The number that digits denote, after those that denote `so_far`.
abbrev pub value_from : ℕ → Text → ℕ
value_from so_far [] = so_far
value_from so_far (u ∷ t) = value_from (so_far * 10 + (u - b'0')) t

value_from-digits :
    (fuel n : ℕ) (t : Text) → n < fuel → value_from 0 (digits fuel n t) ≡ value_from n t
unfolding digits
value_from-digits zero n t h = omega (arith, h)
value_from-digits (suc fuel) n t h =
    let more = digits fuel (n / 10) ((b'0' + n % 10) ∷ t) in
    elim (Bool-cases (ltb n 10)) [
      | inl few ↦
          ap (value_from 0) (if-true (ltb n 10) ((b'0' + n) ∷ t) more few)
          ∙ ap (λ k. value_from k t) (omega arith)
      | inr many ↦
          ap (value_from 0) (if-false (ltb n 10) ((b'0' + n) ∷ t) more many)
          ∙ value_from-digits fuel (n / 10) ((b'0' + n % 10) ∷ t)
              (omega (arith, h, ltb-false n 10 many))
          ∙ ap (λ k. value_from k t) (omega arith)
    ]

-- The fuel of `decimal` is enough: the numeral denotes the number.
pub value-decimal : (n : ℕ) → value_from 0 (decimal n) ≡ n
unfolding decimal
value-decimal n = value_from-digits (suc n) n [] (omega arith)

decimal_some : decimal 2592000 ≡ codes "2592000"
unfolding decimal
decimal_some = refl

is_numeral-cons :
    (u : ℕ) (t : Text) → b'0' < u → u ≤ b'9' → all is_digit t ≡ true → is_numeral (u ∷ t) ≡ true
unfolding is_numeral
is_numeral-cons u t low high d = ground (arith, low, high, d)

is_digit-of : (n : ℕ) → is_digit (b'0' + n % 10) ≡ true
is_digit-of n =
    &&-intro (leb b'0' (b'0' + n % 10)) (leb (b'0' + n % 10) b'9') (le→leb _ _ (omega arith))
      (le→leb _ _ (omega arith))

digits-is_numeral :
    (fuel n : ℕ) (t : Text)
    → n < fuel
    → 0 < n
    → all is_digit t ≡ true
    → is_numeral (digits fuel n t) ≡ true
unfolding digits is_numeral
digits-is_numeral zero n t h k d = absurd (omega (arith, h))
digits-is_numeral (suc fuel) n t h k d =
    let more = digits fuel (n / 10) ((b'0' + n % 10) ∷ t) in
    elim (Bool-cases (ltb n 10)) [
      | inl few ↦
          ap is_numeral (if-true (ltb n 10) ((b'0' + n) ∷ t) more few)
          ∙ is_numeral-cons (b'0' + n) t (omega (arith, k)) (omega (arith, ltb→lt n 10 few)) d
      | inr many ↦
          ap is_numeral (if-false (ltb n 10) ((b'0' + n) ∷ t) more many)
          ∙ digits-is_numeral fuel (n / 10) ((b'0' + n % 10) ∷ t)
              (omega (arith, h, ltb-false n 10 many)) (omega (arith, ltb-false n 10 many))
              (all-cons_intro is_digit (b'0' + n % 10) t (is_digit-of n) d)
    ]

-- The numeral of a number has no leading zero.
pub decimal-is_numeral : (n : ℕ) → is_numeral (decimal n) ≡ true
unfolding decimal is_numeral digits
decimal-is_numeral zero = refl
decimal-is_numeral (suc n) =
    digits-is_numeral (suc (suc n)) (suc n) [] (omega arith) (omega arith) refl
