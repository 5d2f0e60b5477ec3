-- ===== src/Web/Timeline/Order.antt =====
-- The order of the timeline.
use kovcheg.Base.{
  ◌≡◌, ◌≢◌, refl, Bool, true, false, List, [], ◌∷◌, if◌then◌else◌, leb, any, arith, inl, inr, ◌⊎◌,
}
use kovcheg.Text.{Text}
use kovcheg.Web.Timeline.{
  TextMessage, TimelineItem, optimistic, stored, MessageTimelineState, Sign, negative, zero,
  positive, compare_items, insert_item, sort_timeline, values, store_messages, keep_items,
  merge_stored_messages,
}

-- Two items that follow each other: stored messages by their sequence, and before what is not stored.
unfoldable pub in_order : TimelineItem → TimelineItem → Bool
in_order (stored m) (stored n) = leb m.chat_sequence n.chat_sequence
in_order (stored m) (optimistic p) = true
in_order (optimistic o) (stored n) = false
in_order (optimistic o) (optimistic p) = true

-- `x`, if there is one, and then `xs`, all in order.
unfoldable pub follows : TimelineItem → List TimelineItem → Bool
unfolding in_order
follows x [] = true
follows x (y ∷ ys) = let rest = follows y ys in if in_order x y then rest else false

unfoldable pub is_chronological : List TimelineItem → Bool
unfolding follows
is_chronological [] = true
is_chronological (x ∷ xs) = follows x xs

module _ (locale_compare : Text → Text → Sign) where
  greater-in_order :
      (x y : TimelineItem) → compare_items locale_compare x y ≡ positive → in_order y x ≡ true
  unfolding compare_items in_order
  greater-in_order (optimistic o) (optimistic p) h = refl
  greater-in_order (optimistic o) (stored n) h = refl
  greater-in_order (stored m) (optimistic p) h = absurd (ground arith)
  greater-in_order (stored m) (stored n) h = ground arith

  sign-cases : (s : Sign) → (s ≡ positive) ⊎ (s ≢ positive)
  sign-cases positive = inl refl
  sign-cases zero = inr (λ e. absurd (ground arith))
  sign-cases negative = inr (λ e. absurd (ground arith))

  three_signs : (s : Sign) → (s ≡ positive) ⊎ ((s ≡ zero) ⊎ (s ≡ negative))
  three_signs positive = inl refl
  three_signs zero = inr (inl refl)
  three_signs negative = inr (inr refl)

  not_greater-in_order :
      (x y : TimelineItem) → compare_items locale_compare x y ≢ positive → in_order x y ≡ true
  unfolding compare_items in_order
  not_greater-in_order (optimistic o) (optimistic p) h = refl
  not_greater-in_order (optimistic o) (stored n) h = absurd (h refl)
  not_greater-in_order (stored m) (optimistic p) h = refl
  not_greater-in_order (stored m) (stored n) h = ground arith

  insert-greater :
      (x y : TimelineItem) (ys : List TimelineItem)
      → compare_items locale_compare x y ≡ positive
      → insert_item locale_compare x (y ∷ ys) ≡ y ∷ insert_item locale_compare x ys
  unfolding insert_item
  insert-greater x y ys h = ground arith

  insert-first :
      (x y : TimelineItem) (ys : List TimelineItem)
      → compare_items locale_compare x y ≢ positive
      → insert_item locale_compare x (y ∷ ys) ≡ x ∷ y ∷ ys
  unfolding insert_item
  insert-first x y ys h = elim (three_signs (compare_items locale_compare x y)) [
    | inl greater ↦ absurd (h greater)
    | inr (inl e) ↦ ground arith
    | inr (inr e) ↦ ground arith
  ]

  insert-follows :
      (x z : TimelineItem) (ys : List TimelineItem)
      → in_order z x ≡ true
      → follows z ys ≡ true
      → follows z (insert_item locale_compare x ys) ≡ true
  unfolding insert_item follows
  insert-follows x z [] le h = ground arith
  insert-follows x z (y ∷ ys) le h = elim (sign-cases (compare_items locale_compare x y)) [
    | inl greater ↦ ground (
      arith,
      insert-greater x y ys greater,
      insert-follows x y ys (greater-in_order x y greater) (ground arith),
    )
    | inr first ↦ ground (arith, insert-first x y ys first, not_greater-in_order x y first)
  ]

  insert-is_chronological :
      (x : TimelineItem) (ys : List TimelineItem)
      → is_chronological ys ≡ true
      → is_chronological (insert_item locale_compare x ys) ≡ true
  unfolding is_chronological insert_item follows
  insert-is_chronological x [] h = refl
  insert-is_chronological x (y ∷ ys) h = elim (sign-cases (compare_items locale_compare x y)) [
    | inl greater ↦ ground (
      arith,
      insert-greater x y ys greater,
      insert-follows x y ys (greater-in_order x y greater) h,
    )
    | inr first ↦ ground (arith, insert-first x y ys first, not_greater-in_order x y first)
  ]

  -- Sorting puts the stored messages first, by their sequence.
  pub sort_timeline-is_chronological :
      (xs : List TimelineItem) → is_chronological (sort_timeline locale_compare xs) ≡ true
  unfolding sort_timeline is_chronological
  sort_timeline-is_chronological [] = refl
  sort_timeline-is_chronological (x ∷ xs) =
      insert-is_chronological x (sort_timeline locale_compare xs)
        (sort_timeline-is_chronological xs)

  -- Whatever the state and the messages are, and however the runtime compares texts, a merged timeline
  -- is chronological: the stored messages come first, by rising sequence, and the unsent ones last.
  pub merge-is_chronological :
      (state : MessageTimelineState) (messages : List TextMessage)
      → is_chronological (merge_stored_messages locale_compare state messages).items ≡ true
  unfolding merge_stored_messages
  merge-is_chronological state messages =
      sort_timeline-is_chronological
        (values (store_messages messages (keep_items messages state.items [])))

  -- Sorting keeps what each test finds.
  insert-any :
      (p : TimelineItem → Bool) (x : TimelineItem) (ys : List TimelineItem)
      → any p (insert_item locale_compare x ys) ≡ any p (x ∷ ys)
  unfolding insert_item
  insert-any p x [] = refl
  insert-any p x (y ∷ ys) = elim (sign-cases (compare_items locale_compare x y)) [
    | inl greater ↦ ground (arith, insert-greater x y ys greater, insert-any p x ys)
    | inr first ↦ ground (arith, insert-first x y ys first)
  ]

  pub sort_timeline-any :
      (p : TimelineItem → Bool) (xs : List TimelineItem)
      → any p (sort_timeline locale_compare xs) ≡ any p xs
  unfolding sort_timeline
  sort_timeline-any p [] = refl
  sort_timeline-any p (x ∷ xs) =
      ground (arith, insert-any p x (sort_timeline locale_compare xs), sort_timeline-any p xs)
