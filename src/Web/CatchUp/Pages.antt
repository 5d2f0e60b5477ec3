-- ===== src/Web/CatchUp/Pages.antt =====
-- The pages that the API gives after a sequence, of a chat in ascending order.
use kovcheg.Base.{
  ℕ, zero, suc, ◌+◌, ◌≤◌, ◌<◌, min, ◌≡◌, refl, sym, ap, subst, ◌∙◌, Bool, true, some, List, [], ◌∷◌,
  ◌++◌, ltb→lt, length, keep, all, all-cons, all-cons_intro, arith, if-true, if-false, inl, inr,
  Bool-cases,
}
use kovcheg.Web.Timeline.{TextMessage}
use kovcheg.Chat.History.{first_rows, rows_after, last_item, is_newer}

-- The messages of a chat stand in the order of their sequences, and no two have the same.
unfoldable pub IsAscending : List TextMessage → Type 0
IsAscending [] = Unit {0}
IsAscending (m ∷ ms) = (all (is_newer m.chat_sequence) ms ≡ true) × IsAscending ms

module _ {ℓ} {A : Type ℓ} where
  pub first_rows-rest : (n : ℕ) (rows : List A) → first_rows n rows ++ rows_after n rows ≡ rows
  first_rows-rest zero rows = refl
  first_rows-rest (suc n) [] = refl
  first_rows-rest (suc n) (row ∷ rows) = ap (λ r. row ∷ r) (first_rows-rest n rows)

  pub first_rows-all : (n : ℕ) (rows : List A) → length rows ≤ n → first_rows n rows ≡ rows
  first_rows-all zero [] h = refl
  first_rows-all zero (row ∷ rows) h = absurd (omega (arith, h))
  first_rows-all (suc n) [] h = refl
  first_rows-all (suc n) (row ∷ rows) h =
      ap (λ r. row ∷ r) (first_rows-all n rows (omega (arith, h)))

  pub length-first_rows : (n : ℕ) (rows : List A) → length (first_rows n rows) ≡ min n (length rows)
  length-first_rows zero rows = omega arith
  length-first_rows (suc n) [] = omega arith
  length-first_rows (suc n) (row ∷ rows) = omega (arith, length-first_rows n rows)

  pub length-rows_after :
      (n : ℕ) (rows : List A) → n ≤ length rows → n + length (rows_after n rows) ≡ length rows
  length-rows_after zero rows h = omega arith
  length-rows_after (suc n) [] h = absurd (omega (arith, h))
  length-rows_after (suc n) (row ∷ rows) h =
      omega (arith, length-rows_after n rows (omega (arith, h)))

  pub first_rows-twice :
      (n : ℕ) (rows : List A) → first_rows n (first_rows (suc n) rows) ≡ first_rows n rows
  first_rows-twice zero rows = refl
  first_rows-twice (suc n) [] = refl
  first_rows-twice (suc n) (row ∷ rows) = ap (λ r. row ∷ r) (first_rows-twice n rows)

  pub keep-all : (p : A → Bool) (xs : List A) → all p xs ≡ true → keep p xs ≡ xs
  keep-all p [] h = refl
  keep-all p (x ∷ xs) h =
      let (hx, hxs) = all-cons p x xs h in
      if-true (p x) (x ∷ keep p xs) (keep p xs) hx ∙ ap (λ r. x ∷ r) (keep-all p xs hxs)

  pub all-keep : (p q : A → Bool) (xs : List A) → all p xs ≡ true → all p (keep q xs) ≡ true
  all-keep p q [] h = refl
  all-keep p q (x ∷ xs) h = let (hx, hxs) = all-cons p x xs h in ground (arith, all-keep p q xs hxs)

  -- What is kept passes the test.
  pub all-kept : (p : A → Bool) (xs : List A) → all p (keep p xs) ≡ true
  all-kept p [] = refl
  all-kept p (x ∷ xs) = ground (arith, all-kept p xs)

  -- Keeping by a stronger test may start from what a weaker one kept.
  pub keep-keep :
      (p q : A → Bool)
      → ((x : A) → p x ≡ true → q x ≡ true)
      → (xs : List A) → keep p (keep q xs) ≡ keep p xs
  keep-keep p q f [] = refl
  keep-keep p q f (x ∷ xs) = ground (arith, f x, keep-keep p q f xs)

module _ {A : Type 0} (p : A → Bool) where
  pub all-first_rows : (n : ℕ) (xs : List A) → all p xs ≡ true → all p (first_rows n xs) ≡ true
  all-first_rows zero xs h = refl
  all-first_rows (suc n) [] h = refl
  all-first_rows (suc n) (x ∷ xs) h =
      let (hx, hxs) = all-cons p x xs h in
      all-cons_intro p x (first_rows n xs) hx (all-first_rows n xs hxs)

  pub last_item-all : (xs : List A) (x : A) → last_item xs ≡ some x → all p xs ≡ true → p x ≡ true
  unfolding last_item
  last_item-all [] x e h = absurd (ground arith)
  last_item-all (y ∷ []) x e h = ground arith
  last_item-all (y ∷ z ∷ xs) x e h = last_item-all (z ∷ xs) x e (all-cons p y (z ∷ xs) h).1

pub keep-IsAscending :
    (p : TextMessage → Bool) (ms : List TextMessage) → IsAscending ms → IsAscending (keep p ms)
unfolding IsAscending
keep-IsAscending p [] h = tt
keep-IsAscending p (m ∷ ms) (h, hs) = elim (Bool-cases (p m)) [
  | inl kept ↦
      subst IsAscending (sym (if-true (p m) (m ∷ keep p ms) (keep p ms) kept))
        (all-keep (is_newer m.chat_sequence) p ms h, keep-IsAscending p ms hs)
  | inr left ↦
      subst IsAscending (sym (if-false (p m) (m ∷ keep p ms) (keep p ms) left))
        (keep-IsAscending p ms hs)
]

-- A message that is not newer is not kept.
drops :
    (s : ℕ) (m : TextMessage) (ms : List TextMessage)
    → m.chat_sequence ≤ s
    → keep (is_newer s) (m ∷ ms) ≡ keep (is_newer s) ms
drops s m ms h =
    if-false (is_newer s m) (m ∷ keep (is_newer s) ms) (keep (is_newer s) ms) (ground (arith, h))

drops_first :
    (m : TextMessage) (ms : List TextMessage)
    → keep (is_newer m.chat_sequence) (m ∷ ms) ≡ keep (is_newer m.chat_sequence) ms
drops_first m ms = drops m.chat_sequence m ms (omega arith)

-- The last message of the first rows splits the messages.
pub first_rows-splits :
    (n s : ℕ) (ms : List TextMessage)
    → IsAscending ms
    → all (is_newer s) ms ≡ true
    → suc n ≤ length ms
    → (m : TextMessage) × (last_item (first_rows (suc n) ms) ≡ some m)
      × (s < m.chat_sequence)
      × (keep (is_newer m.chat_sequence) ms ≡ rows_after (suc n) ms)
unfolding IsAscending last_item
first_rows-splits n s [] h k l = absurd (omega (arith, l))
first_rows-splits zero s (m ∷ ms) (h, hs) k l = (
  m,
  refl,
  ltb→lt s m.chat_sequence (all-cons (is_newer s) m ms k).0,
  drops_first m ms ∙ keep-all (is_newer m.chat_sequence) ms h,
)
first_rows-splits (suc n) s (m ∷ []) (h, hs) k l = absurd (omega (arith, l))
first_rows-splits (suc n) s (m ∷ m' ∷ ms) (h, hs) k l =
    let t = m.chat_sequence in
    let (first, found, later, split) = first_rows-splits n t (m' ∷ ms) hs h (omega (arith, l)) in
    (
      first,
      found,
      omega (arith, later, ltb→lt s t (all-cons (is_newer s) m (m' ∷ ms) k).0),
      drops first.chat_sequence m (m' ∷ ms) (omega (arith, later)) ∙ split,
    )
