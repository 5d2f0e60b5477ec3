-- ===== src/Realtime/Deduplicator.antt =====
-- `createRealtimeEventDeduplicator` of packages/contracts/src/realtime.ts. The map of what was seen
-- is the list of its keys, the oldest first.
use kovcheg.Base.{
  ℕ, Bool, true, false, ◌||◌, Option, none, some, List, [], ◌∷◌, ◌++◌, ltb, length, any,
  if◌then◌else◌,
}
use kovcheg.Text.{Text, codes, text_eq}

pub record RealtimeEvent : Type 0 where
  pub event_id : Text
  pub message_id : Text

-- The capacity that the constructor accepts.
unfoldable pub new_deduplicator : ℕ → Option (List Text)
new_deduplicator capacity =
    if ltb 9007199254740991 capacity || ltb capacity 1 then none else some []

abbrev pub event_key : RealtimeEvent → Text
event_key event = event.event_id ++ (codes ":" ++ event.message_id)

-- `seen.has(key)`
abbrev pub is_seen : Text → List Text → Bool
is_seen key seen = any (λ k. text_eq k key) seen

abbrev pub without_oldest : List Text → List Text
without_oldest [] = []
without_oldest (k ∷ ks) = ks

-- `accept`, with what is seen before and after.
unfoldable pub accept : ℕ → RealtimeEvent → List Text → Bool × List Text
accept capacity event seen =
    let grown = seen ++ (event_key event ∷ []) in
    if is_seen (event_key event) seen
    then (false, seen)
    else (true, if ltb capacity (length grown) then without_oldest grown else grown)

-- The answers to the events of a list, in turn.
unfoldable pub accept_all : ℕ → List RealtimeEvent → List Text → List Bool
accept_all capacity [] seen = []
accept_all capacity (event ∷ events) seen =
    let (answer, later) = accept capacity event seen in answer ∷ accept_all capacity events later
