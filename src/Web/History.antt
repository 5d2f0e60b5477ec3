-- ===== src/Web/History.antt =====
-- A page of history on its way to the client: the route of the web server
-- (apps/web/src/app/bff/chats/[chatId]/messages/route.ts), `requestHistory` of
-- apps/web/src/app/chat-panel.tsx, and the parsers of apps/web/src/a6/contracts.ts. A page stands for
-- its JSON, in which every member has the type that the API gives it; so the parsers' tests of types,
-- of the contract version and of numerals pass, and the others are made here.
use kovcheg.Base.{
  ℕ, ◌≡◌, refl, Bool, true, false, ◌&&◌, ◌||◌, Option, none, some, List, [], ◌∷◌, leb, ◌==◌, length,
  all, all-cons, arith, if◌then◌else◌,
}
use kovcheg.Text.{Text}
use kovcheg.Text.Splitting.{is_digit, matches_class}
use kovcheg.Text.Patterns.{is_uuid}
use kovcheg.Web.Timeline.{TextMessage}
use kovcheg.Chat.History.{MessageHistoryPage}

-- `[A-Za-z0-9]`
abbrev is_alphanumeric : ℕ → Bool
is_alphanumeric u = is_digit u || (leb b'a' u && leb u b'z') || (leb b'A' u && leb u b'Z')

-- `/^[A-Za-z0-9][A-Za-z0-9._:-]{0,127}$/u`
unfoldable pub is_client_message_id : Text → Bool
is_client_message_id [] = false
is_client_message_id (u ∷ t) =
    is_alphanumeric u
    && matches_class (λ v. is_alphanumeric v || v == b'.' || v == b'_' || v == b':' || v == b'-') 0
        127 t

-- What the web server's route answers: an error status, or a page.
pub data HistoryAnswer : Type 0 where
  refused : HistoryAnswer
  answered : MessageHistoryPage → HistoryAnswer

pub data SessionRead : Type 0 where
  session_read_failed no_session in_session : SessionRead

-- `forward` of a GET whose query has the keys that are allowed. `api` is what the API answers; a
-- request that fails is refused.
unfoldable pub forward_history : SessionRead → Text → HistoryAnswer → HistoryAnswer
forward_history session_read_failed chat_id api = refused
forward_history no_session chat_id api = refused
forward_history in_session chat_id api = if is_uuid b'5' chat_id then api else refused

-- `date_parses` is `Number.isFinite(Date.parse(value))`, of the runtime.
module _ (date_parses : Text → Bool) where
  -- The tests of `parseTextMessage`.
  unfoldable pub is_text_message : TextMessage → Bool
  is_text_message m =
      leb 1 (length m.body)
      && leb (length m.body) 20000
      && is_uuid b'8' m.chat_id
      && is_client_message_id m.client_message_id
      && date_parses m.created_at
      && is_uuid b'8' m.id
      && is_uuid b'8' m.sender_account_id

  -- The first message that is refused refuses the list.
  unfoldable pub parse_messages : List TextMessage → Option (List TextMessage)
  parse_messages [] = some []
  parse_messages (m ∷ messages) =
      let rest = parse_messages messages in
      if is_text_message m
      then elim rest [ none ↦ none | some parsed ↦ some (m ∷ parsed) ]
      else none

  unfoldable pub parse_message_history_page : MessageHistoryPage → Option MessageHistoryPage
  parse_message_history_page page = elim (parse_messages page.items) [
    | none ↦ none
    | some items ↦ some (record page { items = items })
  ]

  -- `requestHistory`
  unfoldable pub request_history : HistoryAnswer → Option MessageHistoryPage
  request_history refused = none
  request_history (answered page) = parse_message_history_page page

  parse_messages-all :
      (ms : List TextMessage) → all is_text_message ms ≡ true → parse_messages ms ≡ some ms
  unfolding parse_messages
  parse_messages-all [] h = refl
  parse_messages-all (m ∷ ms) h =
      let (first, others) = all-cons is_text_message m ms h in
      ground (arith, first, parse_messages-all ms others)

  -- A page whose messages all pass is parsed as it is.
  pub parse_message_history_page-all :
      (page : MessageHistoryPage)
      → all is_text_message page.items ≡ true
      → parse_message_history_page page ≡ some page
  unfolding parse_message_history_page
  parse_message_history_page-all page h = ground (arith, parse_messages-all page.items h)
