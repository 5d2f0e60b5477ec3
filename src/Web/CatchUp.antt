-- ===== src/Web/CatchUp.antt =====
-- `catchUp` of apps/web/src/app/chat-panel.tsx: after a connection the client reads the pages that it
-- has missed, and merges each into its timeline.
pub mod Pages
pub mod Complete
pub mod Requests
use kovcheg.Base.{
  ℕ, zero, suc, ◌-◌, List, leb, length, Bool, true, false, not, Option, none, some, ◌==◌,
  if◌then◌else◌,
}
use kovcheg.Text.{Text}
use kovcheg.Web.Timeline.{TextMessage, MessageTimelineState, Sign, merge_stored_messages}
use kovcheg.Chat.History.{MessageHistoryPage, rows_after}

pub data Connection : Type 0 where
  still_connected offline : Connection

-- What the client does with the next cursor: it goes on, unless there is none or it is the same.
abbrev pub next_cursor :
    ℕ
    → Option ℕ
    → (ℕ → MessageTimelineState → MessageTimelineState × Connection)
    → MessageTimelineState
    → MessageTimelineState × Connection
next_cursor cursor none continue timeline = (timeline, offline)
next_cursor cursor (some next) continue timeline =
    if next == cursor then (timeline, offline) else continue next timeline

-- `maximumRenderedItems`
abbrev pub maximum_rendered_items : ℕ
maximum_rendered_items = 400

-- `state.items.slice(-maximumRenderedItems)` of a state that has more.
unfoldable pub bounded_timeline : MessageTimelineState → MessageTimelineState
bounded_timeline state =
    if leb (length state.items) maximum_rendered_items then state else record state {
      items = rows_after (length state.items - maximum_rendered_items) state.items;
    }

module _ (locale_compare : Text → Text → Sign) where
  -- `updateTimeline((current) => mergeStoredMessages(current, items))`
  unfoldable pub merge_bounded : MessageTimelineState → List TextMessage → MessageTimelineState
  merge_bounded timeline items =
      bounded_timeline (merge_stored_messages locale_compare timeline items)

  -- The body of the loop, after the request; `continue` is the rest of the loop.
  abbrev pub on_page :
      ℕ
      → (ℕ → MessageTimelineState → MessageTimelineState × Connection)
      → MessageTimelineState
      → Option MessageHistoryPage
      → MessageTimelineState × Connection
  on_page cursor continue timeline none = (timeline, offline)
  on_page cursor continue timeline (some page) =
      let merged = merge_bounded timeline page.items in
      if not page.has_more
      then (merged, still_connected)
      else next_cursor cursor page.next_after_sequence continue merged

  -- The loop. `rounds` counts the pages that may still be read; a request may fail.
  unfoldable pub catch_up_rounds :
      ℕ
      → (ℕ → Option MessageHistoryPage)
      → ℕ
      → MessageTimelineState
      → MessageTimelineState × Connection
  catch_up_rounds zero request cursor timeline = (timeline, offline)
  catch_up_rounds (suc rounds) request cursor timeline =
      on_page cursor (λ next merged. catch_up_rounds rounds request next merged) timeline
        (request cursor)

  -- `catchUp`: at most 20 pages.
  unfoldable pub catch_up :
      (ℕ → Option MessageHistoryPage) → ℕ → MessageTimelineState → MessageTimelineState × Connection
  catch_up = catch_up_rounds 20
