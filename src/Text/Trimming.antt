-- ===== src/Text/Trimming.antt =====
-- What `trim` leaves as it is.
use kovcheg.Base.{
  ℕ, ◌≡◌, refl, ap, ◌∙◌, Bool, true, not, List, [], ◌∷◌, all, all-cons, all-cons_intro, if-not,
}
use mathlib.Core.List.{reverse, reverse_aux, reverse-reverse}
use kovcheg.Text.{Text}
use kovcheg.Text.Whitespace.{is_whitespace, trim, trim_start}

abbrev pub is_solid : ℕ → Bool
is_solid u = not (is_whitespace u)

module _ {ℓ} {A : Type ℓ} (p : A → Bool) where
  all-reverse_aux :
      (xs ys : List A) → all p xs ≡ true → all p ys ≡ true → all p (reverse_aux xs ys) ≡ true
  all-reverse_aux [] ys h k = k
  all-reverse_aux (x ∷ xs) ys h k =
      let (hx, hxs) = all-cons p x xs h in
      all-reverse_aux xs (x ∷ ys) hxs (all-cons_intro p x ys hx k)

  all-reverse : (xs : List A) → all p xs ≡ true → all p (reverse xs) ≡ true
  all-reverse xs h = all-reverse_aux xs [] h refl

trim_start-solid : (t : Text) → all is_solid t ≡ true → trim_start t ≡ t
unfolding trim_start
trim_start-solid [] h = refl
trim_start-solid (u ∷ t) h =
    let (hu, ht) = all-cons is_solid u t h in if-not (is_whitespace u) (trim_start t) (u ∷ t) hu

pub trim-solid : (t : Text) → all is_solid t ≡ true → trim t ≡ t
unfolding trim
trim-solid t h =
    ap (λ s. reverse (trim_start (reverse s))) (trim_start-solid t h)
    ∙ ap (λ s. reverse s) (trim_start-solid (reverse t) (all-reverse is_solid t h))
    ∙ reverse-reverse t

-- A space in front is trimmed.
pub trim-space : (t : Text) → trim (32 ∷ t) ≡ trim t
unfolding trim is_whitespace
trim-space t = refl
