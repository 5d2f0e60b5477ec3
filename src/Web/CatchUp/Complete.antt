-- ===== src/Web/CatchUp/Complete.antt =====
-- Catching up shows every message that was missed.
use kovcheg.Base.{
  ℕ, zero, suc, ◌-◌, ◌*◌, ◌≤◌, ◌<◌, ◌≡◌, sym, ap, ◌∙◌, true, false, Option, none, some, List, [],
  ◌∷◌, ◌++◌, ltb, leb, length, keep, all, arith, if-false, inl, inr, Bool-cases, ltb→lt, ltb-false,
  leb→le, ◌==◌,
}
use mathlib.Core.List.{append-nil}
use kovcheg.Text.{Text}
use kovcheg.Web.Timeline.{TextMessage, MessageTimelineState, Sign, merge_stored_messages}
use kovcheg.Web.CatchUp.{
  Connection, still_connected, offline, catch_up_rounds, on_page, merge_bounded, bounded_timeline,
  maximum_rendered_items,
}
use kovcheg.Chat.History.{
  after_sequence, first_rows, rows_after, last_item, is_newer, select_rows, page_of_rows,
  answer_page, MessageHistoryPage, sequence_of,
}
use kovcheg.Web.CatchUp.Pages.{
  IsAscending, first_rows-rest, first_rows-all, length-first_rows, length-rows_after,
  first_rows-twice, all-kept, keep-keep, keep-IsAscending, first_rows-splits, all-keep,
  all-first_rows, last_item-all,
}

-- The page that the API answers.
unfoldable pub page_after : ℕ → List TextMessage → ℕ → MessageHistoryPage
page_after limit chat s =
    answer_page (after_sequence s)
      (page_of_rows false limit (first_rows (suc limit) (select_rows (after_sequence s) chat)))

page_of_rows-last :
    (limit : ℕ) (rows : List TextMessage)
    → length rows ≤ limit
    → page_of_rows false limit (first_rows (suc limit) rows)
      ≡ record { has_more = false; items = rows }
unfolding page_of_rows
page_of_rows-last limit rows h =
    let whole = first_rows-all (suc limit) rows (omega (arith, h)) in
    let few : ltb limit (length (first_rows (suc limit) rows)) ≡ false =
      ap (λ r. ltb limit (length r)) whole ∙ ground (arith, h) in
    ground (arith, whole, few)

page_of_rows-more :
    (limit : ℕ) (rows : List TextMessage)
    → limit < length rows
    → page_of_rows false limit (first_rows (suc limit) rows)
      ≡ record { has_more = true; items = first_rows limit rows }
unfolding page_of_rows
page_of_rows-more limit rows h =
    let many : ltb limit (length (first_rows (suc limit) rows)) ≡ true =
      ground (arith, length-first_rows (suc limit) rows, h) in
    ground (arith, many, first_rows-twice limit rows)

-- A page that has a successor.
abbrev more_page : List TextMessage → Option TextMessage → MessageHistoryPage
more_page items last = record {
  has_more = true;
  items = items;
  next_after_sequence = sequence_of last;
  next_before_sequence = none;
}

-- A page with a successor: its first messages, and the sequence to go on from.
page_after-more :
    (n s : ℕ) (chat : List TextMessage) (m : TextMessage)
    → suc n < length (keep (is_newer s) chat)
    → last_item (first_rows (suc n) (keep (is_newer s) chat)) ≡ some m
    → page_after (suc n) chat s ≡ record {
      has_more = true;
      items = first_rows (suc n) (keep (is_newer s) chat);
      next_after_sequence = some m.chat_sequence;
      next_before_sequence = none;
    }
unfolding page_after select_rows answer_page
page_after-more n s chat m h l =
    ap (answer_page (after_sequence s)) (page_of_rows-more (suc n) (keep (is_newer s) chat) h)
    ∙ ap (more_page (first_rows (suc n) (keep (is_newer s) chat))) l

page_after-last :
    (n s : ℕ) (chat : List TextMessage)
    → length (keep (is_newer s) chat) ≤ suc n
    → page_after (suc n) chat s ≡ record {
      has_more = false;
      items = keep (is_newer s) chat;
      next_after_sequence = none;
      next_before_sequence = none;
    }
unfolding page_after select_rows answer_page
page_after-last n s chat h =
    ap (answer_page (after_sequence s)) (page_of_rows-last (suc n) (keep (is_newer s) chat) h)

-- The messages of pages, one page after the other.
pub messages_of : List (List TextMessage) → List TextMessage
messages_of [] = []
messages_of (page ∷ pages) = page ++ messages_of pages

module _ (locale_compare : Text → Text → Sign) where
  length-merge_bounded :
      (timeline : MessageTimelineState) (items : List TextMessage)
      → length (merge_bounded locale_compare timeline items).items ≤ maximum_rendered_items
  unfolding merge_bounded bounded_timeline
  length-merge_bounded timeline items =
      let all_items = (merge_stored_messages locale_compare timeline items).items in
      ground (arith, length-rows_after (length all_items - maximum_rendered_items) all_items)

  -- The timeline after the pages are merged in turn.
  pub merge_pages : MessageTimelineState → List (List TextMessage) → MessageTimelineState
  merge_pages timeline [] = timeline
  merge_pages timeline (page ∷ pages) =
      merge_pages (merge_bounded locale_compare timeline page) pages

  -- All that was missed has been merged, in order, and the timeline is within its bound.
  abbrev pub HasCaughtUp :
      List TextMessage → ℕ → MessageTimelineState → MessageTimelineState × Connection → Type 0
  HasCaughtUp chat s timeline outcome =
      (pages : List (List TextMessage)) × (messages_of pages ≡ keep (is_newer s) chat)
      × (outcome ≡ (merge_pages timeline pages, still_connected))
      × (length (merge_pages timeline pages).items ≤ maximum_rendered_items)

  module _ (n bound : ℕ) (chat : List TextMessage) (request : ℕ → Option MessageHistoryPage)
      (ascending : IsAscending chat) (bounded : all (λ m. leb m.chat_sequence bound) chat ≡ true)
      (answers : (s : ℕ) → s ≤ bound → request s ≡ some (page_after (suc n) chat s)) where
    -- What is missed fits on one page.
    last_page-HasCaughtUp :
        (rounds s : ℕ) (timeline : MessageTimelineState)
        → s ≤ bound
        → length (keep (is_newer s) chat) ≤ suc n
        → HasCaughtUp chat s timeline
            (catch_up_rounds locale_compare (suc rounds) request s timeline)
    unfolding catch_up_rounds messages_of merge_pages
    last_page-HasCaughtUp rounds s timeline within few = (
      keep (is_newer s) chat ∷ [],
      append-nil (keep (is_newer s) chat),
      ap
          (on_page locale_compare s
            (λ next merged. catch_up_rounds locale_compare rounds request next merged) timeline)
          (answers s within ∙ ap some (page_after-last n s chat few)),
      length-merge_bounded timeline (keep (is_newer s) chat),
    )

    pub catch_up_rounds-HasCaughtUp :
        (rounds s : ℕ) (timeline : MessageTimelineState)
        → s ≤ bound
        → length (keep (is_newer s) chat) ≤ suc rounds * suc n
        → HasCaughtUp chat s timeline
            (catch_up_rounds locale_compare (suc rounds) request s timeline)
    unfolding catch_up_rounds messages_of merge_pages
    catch_up_rounds-HasCaughtUp zero s timeline within few =
        last_page-HasCaughtUp zero s timeline within (omega (arith, few))
    catch_up_rounds-HasCaughtUp (suc rounds) s timeline within few =
        let missed = keep (is_newer s) chat in
        elim (Bool-cases (ltb (suc n) (length missed))) [
          | inr one_page ↦
              last_page-HasCaughtUp (suc rounds) s timeline within
                (ltb-false (suc n) (length missed) one_page)
          | inl more ↦
              let long = ltb→lt (suc n) (length missed) more in
              let (m, found, later, split) =
                first_rows-splits n s missed (keep-IsAscending (is_newer s) chat ascending)
                  (all-kept (is_newer s) chat) (omega (arith, long)) in
              let t = m.chat_sequence in
              let merged = merge_bounded locale_compare timeline (first_rows (suc n) missed) in
              let rest : keep (is_newer t) chat ≡ rows_after (suc n) missed =
                sym (keep-keep (is_newer t) (is_newer s) (λ x k. ground (arith, later, k)) chat)
                ∙ split in
              let shorter : length (keep (is_newer t) chat) ≤ suc rounds * suc n = omega (
                arith,
                few,
                ap length rest,
                length-rows_after (suc n) missed (omega (arith, long)),
              ) in
              let below : t ≤ bound = leb→le t bound (
                last_item-all (λ x. leb x.chat_sequence bound) (first_rows (suc n) missed) m found
                  (all-first_rows (λ x. leb x.chat_sequence bound) (suc n) missed
                    (all-keep (λ x. leb x.chat_sequence bound) (is_newer s) chat bounded))) in
              let (pages, all_messages, outcome, short) =
                catch_up_rounds-HasCaughtUp rounds t merged below shorter in
              let continue = λ (next : ℕ) (now : MessageTimelineState).
                catch_up_rounds locale_compare (suc rounds) request next now in
              (
                first_rows (suc n) missed ∷ pages,
                ap (λ r. first_rows (suc n) missed ++ r) (all_messages ∙ rest)
                    ∙ first_rows-rest (suc n) missed,
                ap (on_page locale_compare s continue timeline)
                      (answers s within ∙ ap some (page_after-more n s chat m long found))
                    ∙ if-false (t == s) (merged, offline) (continue t merged)
                        (ground (arith, later))
                    ∙ outcome,
                short,
              )
        ]
