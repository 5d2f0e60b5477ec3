-- ===== src/Web/Timeline/Retry.antt =====
-- Sending an unsent message again.
use kovcheg.Base.{
  ◌≡◌, refl, ◌∙◌, Bool, true, false, List, [], ◌∷◌, ◌++◌, map, any, if◌then◌else◌, arith,
  Bool-cases, inl, inr,
}
use kovcheg.Text.{Text, text_eq, text_eq_refl}
use kovcheg.Web.Timeline.{
  TimelineItem, optimistic, stored, MessageTimelineState, Sign, SendStatus, failed, sending,
  is_client, with_send_status, sort_timeline, enqueue_optimistic_message,
}
use kovcheg.Web.Timeline.Order.{sort_timeline-any}

abbrev pub has_failed : SendStatus → Bool
has_failed failed = true
has_failed sending = false

-- An unsent item of the client id whose last attempt failed.
abbrev pub is_stale : Text → TimelineItem → Bool
is_stale client_message_id (optimistic o) =
    if text_eq o.client_message_id client_message_id then has_failed o.status else false
is_stale client_message_id (stored m) = false

module _ (id : Text) where
  fresh_status : (s : SendStatus) → has_failed s ≡ false → sending ≡ s
  fresh_status failed h = absurd (ground arith)
  fresh_status sending h = refl

  resend_kept :
      (item : TimelineItem) → is_stale id item ≡ false → with_send_status sending id item ≡ item
  resend_kept (optimistic o) h = elim (Bool-cases (text_eq o.client_message_id id)) [
    | inl same ↦ ground (arith, fresh_status o.status (ground arith))
    | inr other ↦ ground arith
  ]
  resend_kept (stored m) h = refl

  resend_all_kept :
      (items : List TimelineItem)
      → any (is_stale id) items ≡ false
      → map (with_send_status sending id) items ≡ items
  resend_all_kept [] h = refl
  resend_all_kept (item ∷ items) h =
      ground (arith, resend_kept item (ground arith), resend_all_kept items (ground arith))

  resent_item : (item : TimelineItem) → is_stale id (with_send_status sending id item) ≡ false
  resent_item (optimistic o) = ground arith
  resent_item (stored m) = refl

  resent_items :
      (items : List TimelineItem)
      → any (is_stale id) (map (with_send_status sending id) items) ≡ false
  resent_items [] = refl
  resent_items (item ∷ items) = ground (arith, resent_item item, resent_items items)

  resent_client :
      (item : TimelineItem) → is_client id (with_send_status sending id item) ≡ is_client id item
  resent_client (optimistic o) = ground arith
  resent_client (stored m) = refl

  resent_clients :
      (items : List TimelineItem)
      → any (is_client id) (map (with_send_status sending id) items) ≡ any (is_client id) items
  resent_clients [] = refl
  resent_clients (item ∷ items) = ground (arith, resent_client item, resent_clients items)

  unknown_item : (item : TimelineItem) → is_client id item ≡ false → is_stale id item ≡ false
  unknown_item (optimistic o) h = ground arith
  unknown_item (stored m) h = refl

  appended_stale :
      (items : List TimelineItem) (x : TimelineItem)
      → any (is_client id) items ≡ false
      → is_stale id x ≡ false
      → any (is_stale id) (items ++ x ∷ []) ≡ false
  appended_stale [] x h e = ground arith
  appended_stale (item ∷ items) x h e =
      ground (arith, unknown_item item (ground arith), appended_stale items x (ground arith) e)

  appended_client :
      (items : List TimelineItem) (x : TimelineItem)
      → is_client id x ≡ true
      → any (is_client id) (items ++ x ∷ []) ≡ true
  appended_client [] x e = ground arith
  appended_client (item ∷ items) x e = ground (arith, appended_client items x e)

-- Enqueueing a message leaves an item of its client id, and no item of that id whose sending has failed:
-- a failed one is being sent again. A second time it changes nothing, also if the second text or sender
-- differs.
pub enqueue_idempotent :
    (locale_compare : Text → Text → Sign) (state : MessageTimelineState)
    (id sender sender' text text' : Text)
    → let once = enqueue_optimistic_message locale_compare state id sender text in
      (any (is_client id) once.items ≡ true)
      × (any (is_stale id) once.items ≡ false)
      × (enqueue_optimistic_message locale_compare once id sender' text' ≡ once)
unfolding enqueue_optimistic_message
enqueue_idempotent locale_compare state id sender sender' text text' =
    elim (Bool-cases (any (is_client id) state.items)) [
      | inl known ↦ (
        ground (arith, resent_clients id state.items),
        ground (arith, resent_items id state.items),
        ground (
          arith,
          resent_clients id state.items,
          resend_all_kept id (map (with_send_status sending id) state.items)
              (resent_items id state.items),
        ),
      )
      | inr unknown ↦
          let new : TimelineItem = optimistic (record {
            client_message_id = id;
            sender_user_id = sender;
            status = sending;
            text = text;
          }) in
          let all_items = state.items ++ new ∷ [] in
          let there =
            sort_timeline-any locale_compare (is_client id) all_items
            ∙ appended_client id state.items new (text_eq_refl id) in
          let waiting =
            sort_timeline-any locale_compare (is_stale id) all_items
            ∙ appended_stale id state.items new unknown (ground arith) in
          (
            ground (arith, there),
            ground (arith, waiting),
            ground
                (arith, there, resend_all_kept id (sort_timeline locale_compare all_items) waiting),
          )
    ]
