-- ===== src/Web/Timeline/Merge.antt =====
-- What merging keeps.
use kovcheg.Base.{
  ℕ, ◌≤◌, ◌≡◌, refl, ◌∙◌, Bool, true, false, not, some, List, [], ◌∷◌, ◌++◌, any, all, arith,
  Bool-cases, inl, inr,
}
use kovcheg.Text.{Text, text_eq, text_discrete}
use kovcheg.Dict.{Dict, get, set, get-set, get-set_self}
use kovcheg.Web.Timeline.{
  TextMessage, TimelineItem, stored, MessageTimelineState, Sign, item_id, is_replaced, keep_items,
  store_messages, values, last_of, sequence_maximum, merge_stored_messages,
}
use kovcheg.Web.Timeline.Order.{sort_timeline-any}

-- What stands in the map stands among its values.
values-get :
    (p : TimelineItem → Bool) (k : Text) (item : TimelineItem) (d : Dict TimelineItem)
    → get k d ≡ some item
    → p item ≡ true
    → any p (values d) ≡ true
unfolding get values
values-get p k item [] e h = absurd (ground arith)
values-get p k item ((j, w) ∷ d) e h = elim (text_discrete k j) [
  | yes same ↦ ground arith
  | no other ↦ ground (arith, values-get p k item d)
]

-- No message of the list has the id.
abbrev pub is_absent : Text → List TextMessage → Bool
is_absent id messages = all (λ m. not (text_eq m.id id)) messages

store_messages-other :
    (id : Text) (messages : List TextMessage) (d : Dict TimelineItem)
    → is_absent id messages ≡ true
    → get id (store_messages messages d) ≡ get id d
unfolding store_messages
store_messages-other id [] d h = refl
store_messages-other id (m ∷ messages) d h =
    ground (
      arith,
      store_messages-other id messages (set m.id (stored m) d),
      get-set id m.id (stored m) d,
    )

store_messages-last :
    (earlier later : List TextMessage) (m : TextMessage) (d : Dict TimelineItem)
    → is_absent m.id later ≡ true
    → get m.id (store_messages (earlier ++ m ∷ later) d) ≡ some (stored m)
unfolding store_messages
store_messages-last [] later m d h =
    store_messages-other m.id later (set m.id (stored m) d) h ∙ get-set_self m.id (stored m) d
store_messages-last (n ∷ earlier) later m d h =
    store_messages-last earlier later m (set n.id (stored n) d) h

module _ (locale_compare : Text → Text → Sign) where
  -- A message that the server sent is shown, as the last one under its id in the batch has it: each
  -- test that it passes is passed by an item of the merged timeline.
  pub merge-shows :
      (state : MessageTimelineState) (earlier later : List TextMessage) (m : TextMessage)
      (p : TimelineItem → Bool)
      → is_absent m.id later ≡ true
      → p (stored m) ≡ true
      → any p (merge_stored_messages locale_compare state (earlier ++ m ∷ later)).items ≡ true
  unfolding merge_stored_messages
  merge-shows state earlier later m p last h =
      let batch = earlier ++ m ∷ later in
      let kept = keep_items batch state.items [] in
      sort_timeline-any locale_compare p (values (store_messages batch kept))
      ∙ values-get p m.id (stored m) (store_messages batch kept)
          (store_messages-last earlier later m kept last) h

-- The values of a map pass no test that neither the map before a write nor the value passes.
values-set :
    (p : TimelineItem → Bool) (k : Text) (item : TimelineItem) (d : Dict TimelineItem)
    → p item ≡ false
    → any p (values d) ≡ false
    → any p (values (set k item d)) ≡ false
unfolding values set
values-set p k item [] h e = ground arith
values-set p k item ((j, w) ∷ d) h e = elim (text_discrete k j) [
  | yes same ↦ ground arith
  | no other ↦ ground (arith, values-set p k item d h)
]

module _ (batch : List TextMessage) where
  keep_items-replaced :
      (items : List TimelineItem) (d : Dict TimelineItem)
      → any (is_replaced batch) (values d) ≡ false
      → any (is_replaced batch) (values (keep_items batch items d)) ≡ false
  unfolding keep_items
  keep_items-replaced [] d h = h
  keep_items-replaced (item ∷ items) d h = elim (Bool-cases (is_replaced batch item)) [
    | inl replaced ↦ ground (arith, keep_items-replaced items d h)
    | inr fresh ↦ ground (
      arith,
      keep_items-replaced items (set (item_id item) item d)
          (values-set (is_replaced batch) (item_id item) item d fresh h),
    )
  ]

  store_messages-replaced :
      (messages : List TextMessage) (d : Dict TimelineItem)
      → any (is_replaced batch) (values d) ≡ false
      → any (is_replaced batch) (values (store_messages messages d)) ≡ false
  unfolding store_messages
  store_messages-replaced [] d h = h
  store_messages-replaced (m ∷ messages) d h =
      store_messages-replaced messages (set m.id (stored m) d)
        (values-set (is_replaced batch) m.id (stored m) d refl h)

  -- No message is shown twice, as sent and as unsent: a merged timeline holds no optimistic item whose
  -- client id is that of a message of the batch.
  pub merge-replaces :
      (locale_compare : Text → Text → Sign) (state : MessageTimelineState)
      → any (is_replaced batch) (merge_stored_messages locale_compare state batch).items ≡ false
  unfolding merge_stored_messages values
  merge-replaces locale_compare state =
      sort_timeline-any locale_compare (is_replaced batch)
        (values (store_messages batch (keep_items batch state.items [])))
      ∙ store_messages-replaced batch (keep_items batch state.items [])
          (keep_items-replaced state.items [] refl)

last_of-grows : (messages : List TextMessage) (last : ℕ) → last ≤ last_of messages last
unfolding last_of sequence_maximum
last_of-grows [] last = omega arith
last_of-grows (m ∷ messages) last =
    ground (arith, last_of-grows messages (sequence_maximum last m.chat_sequence))

-- The last sequence of a merged timeline is not before that of the state, nor before that of any
-- message of the batch.
pub merge-last_sequence :
    (locale_compare : Text → Text → Sign) (state : MessageTimelineState)
    (earlier later : List TextMessage) (m : TextMessage)
    → let r = merge_stored_messages locale_compare state (earlier ++ m ∷ later) in
      (state.last_sequence ≤ r.last_sequence) × (m.chat_sequence ≤ r.last_sequence)
unfolding merge_stored_messages last_of sequence_maximum
merge-last_sequence locale_compare state earlier later m = (
  last_of-grows (earlier ++ m ∷ later) state.last_sequence,
  last_of-after earlier state.last_sequence,
)
  where
    last_of-after :
        (earlier : List TextMessage) (last : ℕ)
        → m.chat_sequence ≤ last_of (earlier ++ m ∷ later) last
    last_of-after [] last =
        ground (arith, last_of-grows later (sequence_maximum last m.chat_sequence))
    last_of-after (n ∷ earlier) last = last_of-after earlier (sequence_maximum last n.chat_sequence)
