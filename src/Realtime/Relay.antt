-- ===== src/Realtime/Relay.antt =====
-- `RealtimeRelay` of apps/worker/src/realtime/realtime-relay.ts: entries of the stream are handed to
-- the API, and acknowledged when that has taken them.
use kovcheg.Base.{
  ℕ, Bool, true, false, Option, none, some, List, [], ◌∷◌, ◌++◌, ◌==◌, if◌then◌else◌, Action, ok,
  err, ◌>>=◌, ◌>>◌, pure, throw,
}
use kovcheg.Text.{Text, codes, text_eq}

-- What a Redis command answers.
mutual
  pub data Reply : Type 0 where
    text : Text → Reply
    array : Replies → Reply
    other : Reply

  pub data Replies : Type 0 where
    done : Replies
    then_reply : Reply → Replies → Replies

pub record StreamEntry : Type 0 where
  pub id : Text
  pub value : Text

-- The loop over the fields and values of an entry, two at a time.
unfoldable pub event_field : Replies → Option Text
event_field done = none
event_field (then_reply r done) = none
event_field (then_reply (text field) (then_reply (text value) rest)) =
    let later = event_field rest in if text_eq field (codes "event") then some value else later
event_field (then_reply (text field) (then_reply (array a) rest)) = event_field rest
event_field (then_reply (text field) (then_reply other rest)) = event_field rest
event_field (then_reply (array a) (then_reply v rest)) = event_field rest
event_field (then_reply other (then_reply v rest)) = event_field rest

unfoldable pub parse_field_array : Reply → Option Text
parse_field_array (text t) = none
parse_field_array (array fields) = event_field fields
parse_field_array other = none

-- An item of `parseEntries`: an id and fields that name an event.
unfoldable pub parse_entry : Reply → Option StreamEntry
parse_entry (array (then_reply (text id) (then_reply fields rest))) =
    elim (parse_field_array fields) [
      | none ↦ none
      | some value ↦ some (record { id = id; value = value })
    ]
parse_entry (array (then_reply (text id) done)) = none
parse_entry (array (then_reply (array a) rest)) = none
parse_entry (array (then_reply other rest)) = none
parse_entry (array done) = none
parse_entry (text t) = none
parse_entry other = none

abbrev add_entry : Option StreamEntry → List StreamEntry → List StreamEntry
add_entry none entries = entries
add_entry (some e) entries = e ∷ entries

unfoldable pub parse_items : Replies → List StreamEntry
parse_items done = []
parse_items (then_reply item items) = add_entry (parse_entry item) (parse_items items)

unfoldable pub parse_entries : Reply → List StreamEntry
parse_entries (text t) = []
parse_entries (array items) = parse_items items
parse_entries other = []

-- `value[1]`; `undefined` is parsed as any value that is no array.
abbrev second : Replies → Reply
second done = other
second (then_reply r done) = other
second (then_reply r (then_reply s rest)) = s

unfoldable pub parse_x_read_group_reply : Reply → List StreamEntry
parse_x_read_group_reply (array (then_reply (array stream) rest)) = parse_entries (second stream)
parse_x_read_group_reply (array (then_reply (text t) rest)) = []
parse_x_read_group_reply (array (then_reply other rest)) = []
parse_x_read_group_reply (array done) = []
parse_x_read_group_reply (text t) = []
parse_x_read_group_reply other = []

unfoldable pub parse_x_auto_claim_reply : Reply → List StreamEntry
parse_x_auto_claim_reply (text t) = []
parse_x_auto_claim_reply (array values) = parse_entries (second values)
parse_x_auto_claim_reply other = []

-- How a Redis command ended; a `BUSYGROUP` error says that the group exists.
pub data CommandOutcome : Type 0 where
  replied : Reply → CommandOutcome
  busy_group failed : CommandOutcome

-- The state of a relay, and what it has done: the events that it has posted, and the entries that it
-- has acknowledged.
pub record RelayWorld (E : Type 0) : Type 0 where
  pub group_ready : Bool
  pub posted : List E
  pub acknowledged : List Text

pub data RelayError : Type 0 where
  redis_failed : RelayError

abbrev pub Relay : Type 0 → Type 0 → Type 0
Relay E A = Action (RelayWorld E) RelayError A

-- What the relay meets in a call: the parser of an event's JSON, and how the commands end. `status` is
-- what the API answers, if it does, to an event that is posted after others: two posts of the same
-- event may be answered differently.
pub record RelayWeather (E : Type 0) : Type 0 where
  pub parse_event : Text → Option E
  pub status : List E → E → Option ℕ
  pub create_group : CommandOutcome
  pub auto_claim : CommandOutcome
  pub read_group : CommandOutcome
  pub acknowledge : Text → CommandOutcome

abbrev pub reply_or_throw : {E : Type 0} → CommandOutcome → Relay E Reply
reply_or_throw (replied r) = pure r
reply_or_throw busy_group = throw redis_failed
reply_or_throw failed = throw redis_failed

abbrev pub is_accepted : Option ℕ → Bool
is_accepted none = false
is_accepted (some status) = status == 202

unfoldable pub reset_group : {E : Type 0} → RelayWorld E → RelayWorld E
reset_group w = record w { group_ready = false }

module _ {E : Type 0} (weather : RelayWeather E) where
  abbrev pub ready : RelayWorld E → RelayWorld E
  ready w = record w { group_ready = true }

  unfoldable pub ensure_group : Relay E (Unit {0})
  ensure_group w = if w.group_ready then (ok tt, w) else elim weather.create_group [
    | replied r ↦ (ok tt, ready w)
    | busy_group ↦ (ok tt, ready w)
    | failed ↦ (err redis_failed, w)
  ]

  unfoldable pub deliver_event : E → Relay E Bool
  deliver_event event w = (
    ok (is_accepted (weather.status w.posted event)),
    record w { posted = w.posted ++ (event ∷ []) },
  )

  -- An acknowledgement that failed is not counted.
  abbrev pub acknowledged_by : CommandOutcome → Text → Relay E (Unit {0})
  acknowledged_by (replied r) id w =
      (ok tt, record w { acknowledged = w.acknowledged ++ (id ∷ []) })
  acknowledged_by busy_group id w = (err redis_failed, w)
  acknowledged_by failed id w = (err redis_failed, w)

  unfoldable pub acknowledge_entry : Text → Relay E (Unit {0})
  acknowledge_entry id = acknowledged_by (weather.acknowledge id) id

  abbrev pub acknowledge_if : Bool → Text → Relay E (Unit {0})
  acknowledge_if true id = acknowledge_entry id
  acknowledge_if false id = pure tt

  -- `event === null || (await this.deliverEvent(event))`
  abbrev pub delivered : Option E → Relay E Bool
  delivered none = pure true
  delivered (some event) = deliver_event event

  -- The body of the loop.
  unfoldable pub relay_entry : StreamEntry → Relay E (Unit {0})
  relay_entry entry = do
    settled ← delivered (weather.parse_event entry.value)
    acknowledge_if settled entry.id

  unfoldable pub relay_entries : List StreamEntry → Relay E (Unit {0})
  relay_entries [] = pure tt
  relay_entries (entry ∷ entries) = relay_entry entry >> relay_entries entries

  -- New entries are read when none is reclaimed.
  abbrev pub entries_or_new : List StreamEntry → Relay E (List StreamEntry)
  entries_or_new [] = do
    reply ← reply_or_throw weather.read_group
    pure (parse_x_read_group_reply reply)
  entries_or_new (entry ∷ entries) = pure (entry ∷ entries)

  abbrev pub relay_some : List StreamEntry → Relay E Bool
  relay_some [] = pure false
  relay_some (entry ∷ entries) = relay_entries (entry ∷ entries) >> pure true

  -- The part of `relayOnce` after the reply of `XAUTOCLAIM`.
  abbrev pub relay_claimed : Reply → Relay E Bool
  relay_claimed claimed = entries_or_new (parse_x_auto_claim_reply claimed) >>= relay_some

  unfoldable pub relay_once : Relay E Bool
  relay_once = do ensure_group; claimed ← reply_or_throw weather.auto_claim; relay_claimed claimed
