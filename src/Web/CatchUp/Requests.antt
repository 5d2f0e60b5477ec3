-- ===== src/Web/CatchUp/Requests.antt =====
-- Catching up over the requests that the API serves.
use kovcheg.Base.{
  ℕ, suc, none, ap, ◌∙◌, ltb, if-true, if-both, ◌≤◌, ◌≡◌, Bool, true, Option, none, some, List,
  Result, ok, err, leb, length, keep, all, arith,
}
use kovcheg.Text.{Text, codes}
use kovcheg.Text.Numerals.{decimal, value-decimal, decimal-is_numeral}
use kovcheg.Text.Patterns.{is_uuid, is_uuid-wider, is_numeral}
use kovcheg.Web.Timeline.{TextMessage, MessageTimelineState, Sign}
use kovcheg.Web.CatchUp.{catch_up}
use kovcheg.Chat.Validation.{
  absent, text, parse_uuid, parse_after_sequence, parse_history_limit, parse_limit_text,
  maximum_sequence,
}
use kovcheg.Chat.History.{
  is_newer, first_rows, after_sequence, answer_page, page_of_rows, select_rows, MessageHistoryPage,
  HistoryDatabase, ReadMessageHistoryCommand, read_rows, read_message_history, history_command,
  require_principal, MessageFlowErrorCode,
}
use kovcheg.Web.History.{
  HistoryAnswer, refused, answered, in_session, forward_history, is_text_message, request_history,
  parse_message_history_page-all,
}
use kovcheg.Web.CatchUp.Pages.{IsAscending, all-keep, all-first_rows}
use kovcheg.Web.CatchUp.Complete.{page_after, HasCaughtUp, catch_up_rounds-HasCaughtUp}

-- What the API answers to the web server.
abbrev pub api_answer : Result MessageFlowErrorCode MessageHistoryPage → HistoryAnswer
api_answer (ok page) = answered page
api_answer (err e) = refused

page_after-all :
    (p : TextMessage → Bool) (limit s : ℕ) (chat : List TextMessage)
    → all p chat ≡ true
    → all p (page_after limit chat s).items ≡ true
unfolding page_after answer_page page_of_rows select_rows
page_after-all p limit s chat h =
    let newer = all-keep p (is_newer s) chat h in
    let more = all-first_rows p (suc limit) (keep (is_newer s) chat) newer in
    if-both (λ rows. all p rows ≡ true)
      (ltb limit (length (first_rows (suc limit) (keep (is_newer s) chat))))
      (all-first_rows p limit (first_rows (suc limit) (keep (is_newer s) chat)) more) more

module _ (to_lower_case : Text → Text) (date_parses : Text → Bool) (database : HistoryDatabase)
    (user_id chat : Text) where
  abbrev pub messages_of_chat : List TextMessage
  messages_of_chat = database.messages (to_lower_case chat)

  -- The request of a page of a hundred messages after a sequence, by a user who is logged in: from the
  -- client through the web server to the API, and back.
  abbrev pub history_request : ℕ → Option MessageHistoryPage
  history_request s = request_history date_parses (
      forward_history in_session chat (
        api_answer (
          read_message_history to_lower_case (read_rows database) (ok user_id) (text chat)
            (text (decimal s)) absent (text (codes "100")))))

  parse_after_sequence-decimal :
      (s : ℕ) → s ≤ maximum_sequence → parse_after_sequence (text (decimal s)) ≡ some s
  unfolding parse_after_sequence
  parse_after_sequence-decimal s h = ground (arith, value-decimal s, decimal-is_numeral s, h)

  module _ (works : (c : ReadMessageHistoryCommand) → database.authorization_error c ≡ none)
      (answers : (c : ReadMessageHistoryCommand) → database.rows_error c ≡ none)
      (routed : is_uuid b'5' chat ≡ true)
      (readable : database.can_account_read_chat user_id (to_lower_case chat) ≡ true) where
    api-page :
        (s : ℕ)
        → s ≤ maximum_sequence
        → read_message_history to_lower_case
            (read_rows database)
            (ok user_id)
            (text chat)
            (text (decimal s))
            absent
            (text (codes "100"))
          ≡ ok (page_after 100 messages_of_chat s)
    unfolding read_message_history require_principal history_command parse_uuid parse_history_limit
        parse_limit_text read_rows is_numeral page_after
    api-page s h =
        let command : ReadMessageHistoryCommand = record {
          chat_id = to_lower_case chat;
          cursor = after_sequence s;
          limit = 100;
          user_id = user_id;
        } in
        ground (
          arith,
          is_uuid-wider chat routed,
          readable,
          parse_after_sequence-decimal s h,
          works command,
          answers command,
        )

    history_request-page :
        (s : ℕ)
        → all (is_text_message date_parses) messages_of_chat ≡ true
        → s ≤ maximum_sequence
        → history_request s ≡ some (page_after 100 messages_of_chat s)
    unfolding forward_history request_history
    history_request-page s parsed h =
        let page = page_after 100 messages_of_chat s in
        ap (λ a. request_history date_parses (forward_history in_session chat (api_answer a)))
          (api-page s h)
        ∙ ap (request_history date_parses)
            (if-true (is_uuid b'5' chat) (answered page) refused routed)
        ∙ parse_message_history_page-all date_parses page
            (page_after-all (is_text_message date_parses) 100 s messages_of_chat parsed)

    -- A client that was away catches up: from the last sequence that it has, the loop ends connected, the
    -- pages that it has merged are all the messages of the chat after that sequence, each once, in order,
    -- and after them the timeline has at most 400 items, the last ones being kept after each page. The web
    -- server and the API find a session, the database answers, the chat's id is a UUID of a version up to
    -- 5, the user may read the chat, its messages are in order and pass the client's tests, no sequence is
    -- over the largest of the database, and at most two thousand messages were missed.
    pub catch_up-HasCaughtUp :
        (locale_compare : Text → Text → Sign) (s : ℕ) (timeline : MessageTimelineState)
        → IsAscending messages_of_chat
        → all (is_text_message date_parses) messages_of_chat ≡ true
        → all (λ m. leb m.chat_sequence maximum_sequence) messages_of_chat ≡ true
        → s ≤ maximum_sequence
        → length (keep (is_newer s) messages_of_chat) ≤ 2000
        → HasCaughtUp locale_compare messages_of_chat s timeline
            (catch_up locale_compare history_request s timeline)
    unfolding catch_up
    catch_up-HasCaughtUp locale_compare s timeline ascending parsed bounded within few =
        catch_up_rounds-HasCaughtUp locale_compare 99 maximum_sequence messages_of_chat
          history_request ascending bounded (λ q h. history_request-page q parsed h) 19 s timeline
          within few
