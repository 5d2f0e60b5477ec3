-- ===== src/Text/Splitting.antt =====
-- `split`, `indexOf`, `slice` and `join` of JavaScript strings, the classes of regular expressions,
-- and numerals.
use kovcheg.Base.{
  ℕ, zero, suc, ◌≡◌, refl, ap, Bool, true, ◌&&◌, ◌||◌, not, Option, none, some, List, [], ◌∷◌, ◌++◌,
  arith, leb, ◌==◌, length, all, if◌then◌else◌,
}
use kovcheg.Text.{Text}

-- `text.indexOf(separator)`, for one code unit; `none` is -1
unfoldable pub index_of : ℕ → Text → Option ℕ
index_of c [] = none
index_of c (u ∷ t) =
    let rest = index_of c t in
    if u == c then some 0 else elim rest [ none ↦ none | some i ↦ some (suc i) ]

-- `text.slice(0, end)`
abbrev pub take : ℕ → Text → Text
take zero t = []
take (suc n) [] = []
take (suc n) (u ∷ t) = u ∷ take n t

-- `text.slice(start)`
abbrev pub drop : ℕ → Text → Text
drop zero t = t
drop (suc n) [] = []
drop (suc n) (u ∷ t) = drop n t

abbrev pub add_first : ℕ → List Text → List Text
add_first u [] = (u ∷ []) ∷ []
add_first u (p ∷ ps) = (u ∷ p) ∷ ps

-- `text.split(separator)`, for one code unit
unfoldable pub split : ℕ → Text → List Text
split c [] = [] ∷ []
split c (u ∷ t) = let rest = split c t in if u == c then [] ∷ rest else add_first u rest

-- `parts.join(separator)`
unfoldable pub join : Text → List Text → Text
join separator [] = []
join separator (p ∷ []) = p
join separator (p ∷ q ∷ ps) = p ++ (separator ++ join separator (q ∷ ps))

abbrev pub is_digit : ℕ → Bool
is_digit u = leb b'0' u && leb u b'9'

-- `[A-Za-z0-9_-]`
unfoldable pub is_base64url : ℕ → Bool
is_base64url u =
    (leb b'A' u && leb u b'Z') || (leb b'a' u && leb u b'z') || is_digit u || u == b'_' || u == b'-'

-- `/^[class]{least,most}$/`
abbrev pub matches_class : (ℕ → Bool) → ℕ → ℕ → Text → Bool
matches_class class least most t = all class t && leb least (length t) && leb (length t) most

-- The text has no unit `c`.
abbrev pub lacks : ℕ → Text → Bool
lacks c = all (λ u. not (u == c))

module _ (c : ℕ) where
  pub split-lacks : (s : Text) → lacks c s ≡ true → split c s ≡ s ∷ []
  unfolding split
  split-lacks [] h = refl
  split-lacks (u ∷ s) h = ground (arith, split-lacks s)

  pub split-append : (s t : Text) → lacks c s ≡ true → split c (s ++ (c ∷ t)) ≡ s ∷ split c t
  unfolding split
  split-append [] t h = ground arith
  split-append (u ∷ s) t h = ground (arith, split-append s t)

  pub index_of-append :
      (s t : Text) → lacks c s ≡ true → index_of c (s ++ (c ∷ t)) ≡ some (length s)
  unfolding index_of
  index_of-append [] t h = ground arith
  index_of-append (u ∷ s) t h = ground (arith, index_of-append s t)

pub take-length : (s t : Text) → take (length s) (s ++ t) ≡ s
take-length [] t = refl
take-length (u ∷ s) t = ap (λ r. u ∷ r) (take-length s t)

pub drop-length : (s t : Text) (u : ℕ) → drop (suc (length s)) (s ++ (u ∷ t)) ≡ t
drop-length [] t u = refl
drop-length (v ∷ s) t u = drop-length s t u

pub matches_class-all :
    (class : ℕ → Bool) (least most : ℕ) (t : Text)
    → matches_class class least most t ≡ true
    → all class t ≡ true
matches_class-all class least most t h = ground arith
