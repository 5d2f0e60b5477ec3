-- ===== src/Realtime/Window.antt =====
-- What the deduplicator answers is said by the keys that it has accepted last.
use kovcheg.Base.{
  ℕ, zero, suc, ◌-◌, ◌≤◌, ◌≡◌, refl, sym, ap, ◌∙◌, Bool, true, false, List, [], ◌∷◌, ◌++◌, ltb,
  length, length-append, arith, if◌then◌else◌, if-true, if-false, ltb→lt, ltb-false, inl, inr,
  Bool-cases,
}
use kovcheg.Text.{Text}
use kovcheg.Realtime.Deduplicator.{
  RealtimeEvent, event_key, is_seen, without_oldest, accept, accept_all,
}

module _ {ℓ} {A : Type ℓ} where
  abbrev pub skip : ℕ → List A → List A
  skip zero xs = xs
  skip (suc n) [] = []
  skip (suc n) (x ∷ xs) = skip n xs

  -- The last elements, at most so many.
  abbrev pub last_few : ℕ → List A → List A
  last_few n xs = skip (length xs - n) xs

  skip-append : (n : ℕ) (xs ys : List A) → n ≤ length xs → skip n (xs ++ ys) ≡ skip n xs ++ ys
  skip-append zero xs ys h = refl
  skip-append (suc n) [] ys h = absurd (omega (arith, h))
  skip-append (suc n) (x ∷ xs) ys h = skip-append n xs ys (omega (arith, h))

  length-skip : (n : ℕ) (xs : List A) → length (skip n xs) ≡ length xs - n
  length-skip zero xs = omega arith
  length-skip (suc n) [] = omega arith
  length-skip (suc n) (x ∷ xs) = omega (arith, length-skip n xs)

-- The answers of a deduplicator that forgets nothing: it looks at the keys that it has accepted last.
-- `accepted` are all of them, the oldest first.
unfoldable pub remembered_answers : ℕ → List RealtimeEvent → List Text → List Bool
remembered_answers capacity [] accepted = []
remembered_answers capacity (event ∷ events) accepted =
    let key = event_key event in
    let refused = remembered_answers capacity events accepted in
    let kept = remembered_answers capacity events (accepted ++ (key ∷ [])) in
    if is_seen key (last_few capacity accepted) then false ∷ refused else true ∷ kept

skip-suc : (n : ℕ) (xs : List Text) → skip (suc n) xs ≡ without_oldest (skip n xs)
skip-suc zero [] = refl
skip-suc zero (x ∷ xs) = refl
skip-suc (suc n) [] = refl
skip-suc (suc n) (x ∷ xs) = skip-suc n xs

-- What is seen after a new key.
grown_lem :
    (capacity : ℕ) (key : Text) (accepted : List Text)
    → (if ltb capacity (length (last_few capacity accepted ++ (key ∷ [])))
        then without_oldest (last_few capacity accepted ++ (key ∷ []))
        else last_few capacity accepted ++ (key ∷ []))
      ≡ last_few capacity (accepted ++ (key ∷ []))
grown_lem capacity key accepted =
    let n = length accepted in
    let last = last_few capacity accepted in
    let grown = last ++ (key ∷ []) in
    let all_keys = accepted ++ (key ∷ []) in
    let more : length all_keys ≡ suc n = length-append accepted (key ∷ []) ∙ omega arith in
    let size : length grown ≡ suc (n - (n - capacity)) =
      omega (arith, length-append last (key ∷ []), length-skip (n - capacity) accepted) in
    elim (Bool-cases (ltb capacity (length grown))) [
      | inl full ↦
          let next : suc (n - capacity) ≡ length all_keys - capacity =
            omega (arith, more, size, ltb→lt capacity (length grown) full) in
          if-true (ltb capacity (length grown)) (without_oldest grown) grown full
          ∙ ap without_oldest (sym (skip-append (n - capacity) accepted (key ∷ []) (omega arith)))
          ∙ sym (skip-suc (n - capacity) all_keys)
          ∙ ap (λ m. skip m all_keys) next
      | inr room ↦
          let same : n - capacity ≡ length all_keys - capacity =
            omega (arith, more, size, ltb-false capacity (length grown) room) in
          if-false (ltb capacity (length grown)) (without_oldest grown) grown room
          ∙ sym (skip-append (n - capacity) accepted (key ∷ []) (omega arith))
          ∙ ap (λ m. skip m all_keys) same
    ]

-- The deduplicator answers as if it remembered every key: an event is refused just when its key is
-- among the last ones that were accepted, as many as the capacity.
pub accept_all-window :
    (capacity : ℕ) (events : List RealtimeEvent) (accepted : List Text)
    → accept_all capacity events (last_few capacity accepted)
      ≡ remembered_answers capacity events accepted
unfolding accept_all accept remembered_answers
accept_all-window capacity [] accepted = refl
accept_all-window capacity (event ∷ events) accepted =
    let key = event_key event in
    let seen = last_few capacity accepted in
    elim (Bool-cases (is_seen key seen)) [
      | inl known ↦ ground (arith, accept_all-window capacity events accepted)
      | inr new ↦ ground (
        arith,
        grown_lem capacity key accepted,
        accept_all-window capacity events (accepted ++ (key ∷ [])),
      )
    ]
