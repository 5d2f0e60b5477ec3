-- ===== src/Realtime/Tests.antt =====
-- A deduplicator of two keys, and a relay of three entries of which the API refuses one.
use kovcheg.Base.{◌≡◌, refl, true, false, none, some, List, [], ◌∷◌, if◌then◌else◌, after}
use kovcheg.Text.{Text, codes, text_discrete, text_eq}
use kovcheg.Realtime.Deduplicator.{RealtimeEvent, accept, accept_all}
use kovcheg.Realtime.Window.{remembered_answers, accept_all-window}
use kovcheg.Realtime.Relay.{
  Reply, text, array, other, done, then_reply, replied, RelayWorld, RelayWeather, relay_once,
  relay_entries, relay_entry, ensure_group, deliver_event, acknowledge_entry,
  parse_x_auto_claim_reply, parse_x_read_group_reply, parse_entries, parse_items, parse_entry,
  parse_field_array, event_field,
}
use kovcheg.Realtime.Acknowledged.{IsRelayed, pending_entries, relay_once-IsRelayed}

abbrev event : Text → RealtimeEvent
event id = record { event_id = id; message_id = codes "m" }

abbrev events : List RealtimeEvent
events =
    event (codes "1")
    ∷ event (codes "2")
    ∷ event (codes "1")
    ∷ event (codes "3")
    ∷ event (codes "1")
    ∷ []

answers : accept_all 2 events [] ≡ true ∷ true ∷ false ∷ true ∷ true ∷ []
unfolding accept_all accept text_discrete
answers = refl

accept_all-window_example : accept_all 2 events [] ≡ remembered_answers 2 events []
accept_all-window_example = accept_all-window 2 events []

abbrev entry : Text → Text → Reply
entry id value = array (
    then_reply (text id)
      (then_reply (array (then_reply (text (codes "event")) (then_reply (text value) done))) done))

abbrev stream : Reply
stream = array (
    then_reply
      (array (
        then_reply (text (codes "stream")) (
          then_reply
            (array (
              then_reply (entry (codes "1-0") (codes "a")) (
                then_reply (entry (codes "2-0") (codes "b"))
                  (then_reply (entry (codes "3-0") (codes "?")) done))))
            done)))
      done)

-- `a` is taken, `b` is refused, and `?` is no event.
abbrev weather : RelayWeather Text
weather = record {
  parse_event = λ value. if text_eq value (codes "?") then none else some value;
  status = λ before event. if text_eq event (codes "a") then some 202 else some 503;
  create_group = replied other;
  auto_claim = replied (array done);
  read_group = replied stream;
  acknowledge = λ id. replied other;
}

abbrev fresh : RelayWorld Text
fresh = record { group_ready = false; posted = []; acknowledged = [] }

relayed : (after (relay_once weather fresh)).acknowledged ≡ codes "1-0" ∷ codes "3-0" ∷ []
unfolding relay_once relay_entries relay_entry ensure_group deliver_event acknowledge_entry
    parse_x_auto_claim_reply parse_x_read_group_reply parse_entries parse_items parse_entry
    parse_field_array event_field text_discrete
relayed = refl

relay_once-IsRelayed_example :
    IsRelayed weather (pending_entries weather) fresh (relay_once weather fresh)
relay_once-IsRelayed_example = relay_once-IsRelayed weather fresh
