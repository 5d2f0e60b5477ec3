-- ===== src/Web/Tests.antt =====
-- The theorems on the timeline at a small chat. Texts are compared as equal where order is open.
use kovcheg.Base.{ℕ, ◌≡◌, refl, Bool, true, false, List, [], ◌∷◌, ◌++◌, any, all, none, leb, arith}
use kovcheg.Text.{Text, codes, text_discrete}
use kovcheg.Dict.{set}
use kovcheg.Web.Timeline.{
  TextMessage, TimelineItem, optimistic, stored, failed, MessageTimelineState, Sign, zero,
  is_client, is_replaced, merge_stored_messages, enqueue_optimistic_message, sort_timeline,
  insert_item, compare_items, keep_items, store_messages, values, last_of, sequence_maximum,
}
use kovcheg.Web.Timeline.Order.{is_chronological, merge-is_chronological}
use kovcheg.Web.Timeline.Merge.{merge-shows, merge-replaces}
use kovcheg.Web.Timeline.Retry.{is_stale, enqueue_idempotent}
use kovcheg.Text.Patterns.{is_uuid, matches_units}
use kovcheg.Chat.History.{HistoryDatabase}
use kovcheg.Web.History.{is_text_message, is_client_message_id}
use kovcheg.Web.CatchUp.{catch_up}
use kovcheg.Web.CatchUp.Pages.{IsAscending}
use kovcheg.Web.CatchUp.Complete.{HasCaughtUp}
use kovcheg.Web.CatchUp.Requests.{history_request, catch_up-HasCaughtUp}

abbrev level : Text → Text → Sign
level s t = zero

abbrev message : ℕ → Text → Text → TextMessage
message chat_sequence client_message_id id = record {
  body = codes "hello";
  chat_id = codes "chat";
  chat_sequence = chat_sequence;
  client_message_id = client_message_id;
  created_at = codes "now";
  id = id;
  sender_account_id = codes "bob";
}

-- One message is sent, and one is not.
abbrev chat : MessageTimelineState
chat = record {
  items =
      stored (message 4 (codes "k4") (codes "m4"))
      ∷ optimistic (record {
        client_message_id = codes "k5";
        sender_user_id = codes "bob";
        status = failed;
        text = codes "hello";
      })
      ∷ [];
  last_sequence = 4;
}

abbrev batch : List TextMessage
batch = message 6 (codes "k6") (codes "m6") ∷ message 5 (codes "k5") (codes "m5") ∷ []

-- The unsent message was sent meanwhile, and the batch comes in the wrong order.
merged : merge_stored_messages level chat batch ≡ record {
  items =
      stored (message 4 (codes "k4") (codes "m4"))
      ∷ stored (message 5 (codes "k5") (codes "m5"))
      ∷ stored (message 6 (codes "k6") (codes "m6"))
      ∷ [];
  last_sequence = 6;
}
unfolding merge_stored_messages sort_timeline insert_item compare_items keep_items store_messages
    values last_of sequence_maximum set text_discrete
merged = refl

merge-is_chronological_example :
    is_chronological (merge_stored_messages level chat batch).items ≡ true
merge-is_chronological_example = merge-is_chronological level chat batch

-- A stored item of a sequence.
abbrev has_sequence : ℕ → TimelineItem → Bool
has_sequence n (stored m) = leb m.chat_sequence n
has_sequence n (optimistic o) = false

merge-shows_example :
    any
      (has_sequence 5)
      (merge_stored_messages level chat (
        (message 6 (codes "k6") (codes "m6") ∷ [])
        ++ message 5 (codes "k5") (codes "m5") ∷ [])).items
    ≡ true
merge-shows_example =
    merge-shows level chat (message 6 (codes "k6") (codes "m6") ∷ []) []
      (message 5 (codes "k5") (codes "m5")) (has_sequence 5) refl refl

merge-replaces_example :
    any (is_replaced batch) (merge_stored_messages level chat batch).items ≡ false
merge-replaces_example = merge-replaces batch level chat

enqueue_idempotent_example :
    let once = enqueue_optimistic_message level chat (codes "k5") (codes "bob") (codes "hello") in
    (any (is_client (codes "k5")) once.items ≡ true)
    × (any (is_stale (codes "k5")) once.items ≡ false)
    × (enqueue_optimistic_message level once (codes "k5") (codes "bob") (codes "again") ≡ once)
enqueue_idempotent_example =
    enqueue_idempotent level chat (codes "k5") (codes "bob") (codes "bob") (codes "hello")
      (codes "again")

abbrev chat_id : Text
chat_id = codes "00000000-0000-4000-8000-000000004001"

abbrev in_chat : ℕ → Text → Text → TextMessage
in_chat chat_sequence client_message_id id = record {
  body = codes "hello";
  chat_id = chat_id;
  chat_sequence = chat_sequence;
  client_message_id = client_message_id;
  created_at = codes "2026-01-02T03:04:05.678Z";
  id = id;
  sender_account_id = codes "00000000-0000-4000-8000-00000000b0b0";
}

-- A database with a chat of three messages, that never fails.
abbrev database : HistoryDatabase
database = record {
  can_account_read_chat = λ user chat. true;
  messages = λ id.
      in_chat 4 (codes "k4") (codes "00000000-0000-4000-8000-0000000000a4")
      ∷ in_chat 5 (codes "k5") (codes "00000000-0000-4000-8000-0000000000a5")
      ∷ in_chat 6 (codes "k6") (codes "00000000-0000-4000-8000-0000000000a6")
      ∷ [];
  authorization_error = λ command. none;
  rows_error = λ command. none;
}

database-IsAscending : IsAscending (database.messages chat_id)
unfolding IsAscending
database-IsAscending = (refl, (refl, (refl, tt)))

routed : is_uuid b'5' chat_id ≡ true
unfolding matches_units
routed = refl

parsed : all (is_text_message (λ t. true)) (database.messages chat_id) ≡ true
unfolding is_text_message is_client_message_id matches_units
parsed = refl

catch_up-HasCaughtUp_example :
    HasCaughtUp level
      (database.messages chat_id)
      4
      chat
      (catch_up level (history_request (λ t. t) (λ t. true) database (codes "bob") chat_id) 4 chat)
catch_up-HasCaughtUp_example =
    catch_up-HasCaughtUp (λ t. t) (λ t. true) database (codes "bob") chat_id (λ c. refl) (λ c. refl)
      routed refl level 4 chat database-IsAscending parsed refl (omega arith) (omega arith)
