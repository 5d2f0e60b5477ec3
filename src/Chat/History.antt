-- ===== src/Chat/History.antt =====
-- `readMessageHistory`, of the service (message-flow.service.ts) and of the PostgreSQL repository
-- (postgres-message-flow.repository.ts). A chat is the list of its messages in ascending order of
-- their sequences, which are unique in a chat.
use kovcheg.Base.{
  ℕ, suc, Bool, true, false, ◌&&◌, ◌||◌, not, Option, none, some, List, [], ◌∷◌, Result, ok, err,
  ltb, length, keep, if◌then◌else◌, zero, is_some,
}
use mathlib.Core.List.{reverse}
use kovcheg.Text.{Text}
use kovcheg.Web.Timeline.{TextMessage}
use kovcheg.Chat.Failures.{
  MessageFlowRepositoryFailure, forbidden, idempotency_key_reused, internal, invalid_request,
  unavailable, PostgresError, map_postgres_error,
}
use kovcheg.Chat.Validation.{
  Given, is_given, parse_uuid, parse_after_sequence, parse_before_sequence, parse_history_limit,
}

pub data Cursor : Type 0 where
  after_sequence before_sequence : ℕ → Cursor
  latest : Cursor

pub data MessageFlowErrorCode : Type 0 where
  flow_forbidden flow_idempotency_key_reused flow_identity_unavailable : MessageFlowErrorCode
  flow_internal_error flow_invalid_request flow_unauthenticated : MessageFlowErrorCode
  flow_unavailable : MessageFlowErrorCode

pub data ApplicationSessionFailure : Type 0 where
  unauthenticated identity_unavailable : ApplicationSessionFailure

pub record ReadMessageHistoryCommand : Type 0 where
  pub chat_id : Text
  pub cursor : Cursor
  pub limit : ℕ
  pub user_id : Text

pub record ReadMessageHistoryResult : Type 0 where
  pub has_more : Bool
  pub items : List TextMessage

pub record MessageHistoryPage : Type 0 where
  pub has_more : Bool
  pub items : List TextMessage
  pub next_after_sequence : Option ℕ
  pub next_before_sequence : Option ℕ

module _ {ℓ} {A : Type ℓ} where
  -- `rows.slice(0, count)`
  abbrev pub first_rows : ℕ → List A → List A
  first_rows zero rows = []
  first_rows (suc n) [] = []
  first_rows (suc n) (row ∷ rows) = row ∷ first_rows n rows

  -- `rows.slice(count)`
  abbrev pub rows_after : ℕ → List A → List A
  rows_after zero rows = rows
  rows_after (suc n) [] = []
  rows_after (suc n) (row ∷ rows) = rows_after n rows

  -- `items.at(0)`
  abbrev pub first_item : List A → Option A
  first_item [] = none
  first_item (a ∷ rest) = some a

  -- `items.at(-1)`
  unfoldable pub last_item : List A → Option A
  last_item [] = none
  last_item (a ∷ []) = some a
  last_item (a ∷ b ∷ rest) = last_item (b ∷ rest)

-- `message.chat_sequence > $2`
abbrev pub is_newer : ℕ → TextMessage → Bool
is_newer sequence m = ltb sequence m.chat_sequence

-- `message.chat_sequence < $2`
abbrev pub is_older : ℕ → TextMessage → Bool
is_older sequence m = ltb m.chat_sequence sequence

-- The rows of the query, before `LIMIT`.
unfoldable pub select_rows : Cursor → List TextMessage → List TextMessage
select_rows (after_sequence s) chat = keep (is_newer s) chat
select_rows (before_sequence s) chat = reverse (keep (is_older s) chat)
select_rows latest chat = reverse chat

abbrev pub is_descending : Cursor → Bool
is_descending (after_sequence s) = false
is_descending (before_sequence s) = true
is_descending latest = true

-- What becomes of the rows that the query gave, of which there is at most one more than the limit.
unfoldable pub page_of_rows : Bool → ℕ → List TextMessage → ReadMessageHistoryResult
page_of_rows descending limit rows =
    let has_more = ltb limit (length rows) in
    let page_rows = if has_more then first_rows limit rows else rows in
    record { has_more = has_more; items = if descending then reverse page_rows else page_rows }

-- The database: whether an account may read a chat, the messages of a chat, and the errors that end a
-- command, if any, up to the answer of the authorization and after it.
pub record HistoryDatabase : Type 0 where
  pub can_account_read_chat : Text → Text → Bool
  pub messages : Text → List TextMessage
  pub authorization_error : ReadMessageHistoryCommand → Option PostgresError
  pub rows_error : ReadMessageHistoryCommand → Option PostgresError

-- `PostgresMessageFlowRepository.readMessageHistory`
unfoldable pub read_rows :
    HistoryDatabase
    → ReadMessageHistoryCommand
    → Result MessageFlowRepositoryFailure ReadMessageHistoryResult
read_rows database command = elim (database.authorization_error command) [
  | some e ↦ err (map_postgres_error e)
  | none ↦
      if database.can_account_read_chat command.user_id command.chat_id
      then elim (database.rows_error command) [
        | some e ↦ err (map_postgres_error e)
        | none ↦ ok (
            page_of_rows (is_descending command.cursor) command.limit (
              first_rows (suc command.limit)
                (select_rows command.cursor (database.messages command.chat_id))))
      ]
      else err forbidden
]

abbrev pub sequence_of : Option TextMessage → Option ℕ
sequence_of none = none
sequence_of (some m) = some m.chat_sequence

-- The answer that the service makes of a result.
unfoldable pub answer_page : Cursor → ReadMessageHistoryResult → MessageHistoryPage
answer_page cursor result = record {
  has_more = result.has_more;
  items = result.items;
  next_after_sequence =
      if not (is_descending cursor) && result.has_more
      then sequence_of (last_item result.items)
      else none;
  next_before_sequence =
      if is_descending cursor && result.has_more
      then sequence_of (first_item result.items)
      else none;
}

unfoldable pub require_principal :
    {A : Type 0} → Result ApplicationSessionFailure A → Result MessageFlowErrorCode A
require_principal (ok principal) = ok principal
require_principal (err identity_unavailable) = err flow_identity_unavailable
require_principal (err unauthenticated) = err flow_unauthenticated

unfoldable pub map_flow_error : MessageFlowRepositoryFailure → MessageFlowErrorCode
map_flow_error forbidden = flow_forbidden
map_flow_error idempotency_key_reused = flow_idempotency_key_reused
map_flow_error invalid_request = flow_invalid_request
map_flow_error internal = flow_internal_error
map_flow_error unavailable = flow_unavailable

-- The cursor of a request, where both parameters parse.
abbrev pub cursor_of : Option ℕ → Option ℕ → Cursor
cursor_of (some s) before = after_sequence s
cursor_of none (some s) = before_sequence s
cursor_of none none = latest

-- The command of a request, or that it is invalid.
unfoldable pub history_command :
    (Text → Text) → Text → Given → Given → Given → Given → Option ReadMessageHistoryCommand
history_command to_lower_case user_id chat_id_value after_value before_value limit_value =
    elim (parse_uuid to_lower_case chat_id_value) [
      | none ↦ none
      | some chat_id ↦ elim (parse_history_limit limit_value) [
        | none ↦ none
        | some limit ↦
            let after = parse_after_sequence after_value in
            let before = parse_before_sequence before_value in
            if (is_given after_value && not (is_some after))
              || (is_given before_value && not (is_some before))
              || (is_given after_value && is_given before_value)
            then none
            else some (record {
              chat_id = chat_id;
              cursor = cursor_of after before;
              limit = limit;
              user_id = user_id;
            })
      ]
    ]

-- `MessageFlowService.readMessageHistory`, from the answer of the session authenticator
unfoldable pub read_message_history :
    (Text → Text)
    → (ReadMessageHistoryCommand → Result MessageFlowRepositoryFailure ReadMessageHistoryResult)
    → Result ApplicationSessionFailure Text
    → Given
    → Given
    → Given
    → Given
    → Result MessageFlowErrorCode MessageHistoryPage
read_message_history to_lower_case repository session chat_id after_value before_value limit =
    elim (require_principal session) [
      | err e ↦ err e
      | ok user_id ↦
          elim (history_command to_lower_case user_id chat_id after_value before_value limit) [
            | none ↦ err flow_invalid_request
            | some command ↦ elim (repository command) [
              | err failure ↦ err (map_flow_error failure)
              | ok result ↦ ok (answer_page command.cursor result)
            ]
          ]
    ]
