-- ===== src/Web/Timeline.antt =====
-- apps/web/src/a6/message-state.ts: the messages of a chat as the client shows them. A chat sequence
-- is a decimal numeral, of which only the value is used: it stands here as that number.
pub mod Order
pub mod Merge
pub mod Retry
use kovcheg.Base.{
  ℕ, Bool, true, false, ◌&&◌, not, List, [], ◌∷◌, ◌++◌, map, any, if◌then◌else◌, ltb, leb,
}
use kovcheg.Text.{Text, codes, text_eq}
use kovcheg.Dict.{Dict, set}

-- `TextMessage` of packages/contracts/src/message-flow.ts.
pub record TextMessage : Type 0 where
  pub body : Text
  pub chat_id : Text
  pub chat_sequence : ℕ
  pub client_message_id : Text
  pub created_at : Text
  pub id : Text
  pub sender_account_id : Text

pub data SendStatus : Type 0 where
  failed sending : SendStatus

pub record OptimisticItem : Type 0 where
  pub client_message_id : Text
  pub sender_user_id : Text
  pub status : SendStatus
  pub text : Text

-- The two kinds of `TimelineItem`. The `id` and the `clientMessageId` of a stored item are those of
-- its message; the `id` of an optimistic one is made from its `clientMessageId`.
pub data TimelineItem : Type 0 where
  optimistic : OptimisticItem → TimelineItem
  stored : TextMessage → TimelineItem

abbrev pub item_id : TimelineItem → Text
item_id (optimistic o) = codes "optimistic:" ++ o.client_message_id
item_id (stored m) = m.id

abbrev pub item_client_id : TimelineItem → Text
item_client_id (optimistic o) = o.client_message_id
item_client_id (stored m) = m.client_message_id

pub record MessageTimelineState : Type 0 where
  pub items : List TimelineItem
  pub last_sequence : ℕ

abbrev pub empty_message_timeline : MessageTimelineState
empty_message_timeline = record { items = []; last_sequence = 0 }

unfoldable pub sequence_maximum : ℕ → ℕ → ℕ
sequence_maximum left right = if leb right left then left else right

-- `item.clientMessageId === clientMessageId`
abbrev pub is_client : Text → TimelineItem → Bool
is_client client_message_id item = text_eq (item_client_id item) client_message_id

abbrev pub with_send_status : SendStatus → Text → TimelineItem → TimelineItem
with_send_status status client_message_id (optimistic o) =
    if text_eq o.client_message_id client_message_id
    then optimistic (record o { status = status })
    else optimistic o
with_send_status status client_message_id (stored m) = stored m

unfoldable pub fail_optimistic_message : MessageTimelineState → Text → MessageTimelineState
fail_optimistic_message state client_message_id = record state {
  items = map (with_send_status failed client_message_id) state.items;
}

-- `storedClientIds.has(item.clientMessageId)`, for an optimistic item
abbrev pub is_replaced : List TextMessage → TimelineItem → Bool
is_replaced messages (optimistic o) =
    any (λ m. text_eq m.client_message_id o.client_message_id) messages
is_replaced messages (stored m) = false

-- The loop over the items that are there.
unfoldable pub keep_items :
    List TextMessage → List TimelineItem → Dict TimelineItem → Dict TimelineItem
keep_items messages [] d = d
keep_items messages (item ∷ items) d =
    keep_items messages items (if is_replaced messages item then d else set (item_id item) item d)

-- The loop over the messages.
unfoldable pub store_messages : List TextMessage → Dict TimelineItem → Dict TimelineItem
store_messages [] d = d
store_messages (m ∷ messages) d = store_messages messages (set m.id (stored m) d)

unfoldable pub last_of : List TextMessage → ℕ → ℕ
unfolding sequence_maximum
last_of [] last = last
last_of (m ∷ messages) last = last_of messages (sequence_maximum last m.chat_sequence)

-- `[...map.values()]`
unfoldable pub values : Dict TimelineItem → List TimelineItem
values [] = []
values ((k, item) ∷ d) = item ∷ values d

-- What the comparison of two items answers: the sign of its number.
pub data Sign : Type 0 where
  negative zero positive : Sign

abbrev sign_of : ℕ → ℕ → Sign → Sign
sign_of a b same = if ltb a b then negative else if ltb b a then positive else same

-- `localeCompare` is the runtime's.
module _ (locale_compare : Text → Text → Sign) where
  unfoldable pub compare_items : TimelineItem → TimelineItem → Sign
  compare_items (optimistic o) (optimistic p) =
      locale_compare o.client_message_id p.client_message_id
  compare_items (optimistic o) (stored n) = positive
  compare_items (stored m) (optimistic p) = negative
  compare_items (stored m) (stored n) =
      sign_of m.chat_sequence n.chat_sequence (locale_compare m.id n.id)

  -- `sort`, which is stable: an item goes before the first that is not less than it.
  unfoldable pub insert_item : TimelineItem → List TimelineItem → List TimelineItem
  unfolding compare_items
  insert_item x [] = x ∷ []
  insert_item x (y ∷ ys) =
      let rest = insert_item x ys in
      elim (compare_items x y) [ positive ↦ y ∷ rest | zero ↦ x ∷ y ∷ ys | negative ↦ x ∷ y ∷ ys ]

  unfoldable pub sort_timeline : List TimelineItem → List TimelineItem
  unfolding insert_item
  sort_timeline [] = []
  sort_timeline (x ∷ xs) = insert_item x (sort_timeline xs)

  unfoldable pub enqueue_optimistic_message :
      MessageTimelineState → Text → Text → Text → MessageTimelineState
  unfolding sort_timeline
  enqueue_optimistic_message state client_message_id sender_user_id text =
      if any (is_client client_message_id) state.items
      then record state { items = map (with_send_status sending client_message_id) state.items }
      else record state {
        items = sort_timeline (
            state.items
            ++ optimistic (record {
              client_message_id = client_message_id;
              sender_user_id = sender_user_id;
              status = sending;
              text = text;
            })
              ∷ []);
      }

  unfoldable pub merge_stored_messages :
      MessageTimelineState → List TextMessage → MessageTimelineState
  unfolding keep_items store_messages last_of values sort_timeline
  merge_stored_messages state messages = record {
    items = sort_timeline (values (store_messages messages (keep_items messages state.items [])));
    last_sequence = last_of messages state.last_sequence;
  }
