-- ===== src/Realtime/Acknowledged.antt =====
-- What a relay acknowledges.
use kovcheg.Base.{
  ◌≡◌, refl, sym, ap, ◌∙◌, subst, subst₂, Bool, true, Option, none, some, List, [], ◌∷◌, ◌++◌,
  Result, ok, err, result, after, arith, if◌then◌else◌, then-ok, then-returned, then-threw, ok-err,
  Result-cases, Option-cases, inl, inr, ◌>>=◌, pure,
}
use mathlib.Core.List.{append_assoc, append-nil}
use kovcheg.Text.{Text}
use kovcheg.Realtime.Relay.{
  Reply, other, StreamEntry, CommandOutcome, replied, busy_group, failed, RelayWorld, RelayWeather,
  RelayError, Relay, parse_x_auto_claim_reply, parse_x_read_group_reply, ensure_group,
  deliver_event, acknowledge_entry, relay_entry, relay_entries, entries_or_new, relay_some,
  relay_once, relay_claimed, is_accepted, reply_or_throw,
}

abbrev reply_of : CommandOutcome → Reply
reply_of (replied r) = r
reply_of busy_group = other
reply_of failed = other

module _ {E : Type 0} (weather : RelayWeather E) where
  abbrev add_event : Option E → List E → List E
  add_event none events = events
  add_event (some event) events = event ∷ events

  -- The API takes the event of the entry, which is posted after others; or the entry has none.
  abbrev is_settled : List E → Option E → Bool
  is_settled before none = true
  is_settled before (some event) = is_accepted (weather.status before event)

  -- The ids of the entries that need no further delivery, where all before them have been posted.
  unfoldable pub settled_ids : List E → List StreamEntry → List Text
  settled_ids before [] = []
  settled_ids before (entry ∷ entries) =
      let event = weather.parse_event entry.value in
      let rest = settled_ids (before ++ add_event event []) entries in
      if is_settled before event then entry.id ∷ rest else rest

  -- The events of entries.
  unfoldable pub events_of : List StreamEntry → List E
  events_of [] = []
  events_of (entry ∷ entries) = add_event (weather.parse_event entry.value) (events_of entries)

  entry-ok :
      (entry : StreamEntry) (w : RelayWorld E) (u : Unit {0})
      → result (relay_entry weather entry w) ≡ ok u
      → ((after (relay_entry weather entry w)).acknowledged
          ≡ w.acknowledged ++ settled_ids w.posted (entry ∷ []))
        × ((after (relay_entry weather entry w)).posted ≡ w.posted ++ events_of (entry ∷ []))
  unfolding relay_entry settled_ids events_of deliver_event acknowledge_entry
  entry-ok entry w u h = elim (Option-cases (weather.parse_event entry.value)) [
    | inl malformed ↦ ground (arith, append-nil w.acknowledged, append-nil w.posted)
    | inr (event, parsed) ↦ ground (arith, append-nil w.acknowledged, append-nil w.posted)
  ]

  entry-err :
      (entry : StreamEntry) (w : RelayWorld E) (e : RelayError)
      → result (relay_entry weather entry w) ≡ err e
      → (after (relay_entry weather entry w)).acknowledged ≡ w.acknowledged
  unfolding relay_entry deliver_event acknowledge_entry
  entry-err entry w e h = elim (Option-cases (weather.parse_event entry.value)) [
    | inl malformed ↦ ground arith
    | inr (event, parsed) ↦ ground arith
  ]

  settled_ids-cons :
      (before : List E) (entry : StreamEntry) (entries : List StreamEntry)
      → settled_ids before (entry ∷ entries)
        ≡ settled_ids before (entry ∷ []) ++ settled_ids (before ++ events_of (entry ∷ [])) entries
  unfolding settled_ids events_of
  settled_ids-cons before entry entries = ground arith

  -- After one entry the others are settled as the whole says.
  settled_ids-step :
      (entry : StreamEntry) (entries : List StreamEntry) (w v : RelayWorld E)
      → v.acknowledged ≡ w.acknowledged ++ settled_ids w.posted (entry ∷ [])
      → v.posted ≡ w.posted ++ events_of (entry ∷ [])
      → v.acknowledged ++ settled_ids v.posted entries
        ≡ w.acknowledged ++ settled_ids w.posted (entry ∷ entries)
  settled_ids-step entry entries w v a p =
      subst₂
        (λ x y.
          x ++ settled_ids y entries ≡ w.acknowledged ++ settled_ids w.posted (entry ∷ entries))
        (sym a) (sym p)
        (append_assoc w.acknowledged (settled_ids w.posted (entry ∷ []))
            (settled_ids (w.posted ++ events_of (entry ∷ [])) entries)
          ∙ ap (λ l. w.acknowledged ++ l) (sym (settled_ids-cons w.posted entry entries)))

  events_of-cons :
      (entry : StreamEntry) (entries : List StreamEntry)
      → events_of (entry ∷ entries) ≡ events_of (entry ∷ []) ++ events_of entries
  unfolding events_of
  events_of-cons entry entries = ground arith

  entries-ok :
      (entries : List StreamEntry) (w : RelayWorld E) (u : Unit {0})
      → result (relay_entries weather entries w) ≡ ok u
      → ((after (relay_entries weather entries w)).acknowledged
          ≡ w.acknowledged ++ settled_ids w.posted entries)
        × ((after (relay_entries weather entries w)).posted ≡ w.posted ++ events_of entries)
  unfolding relay_entries settled_ids events_of
  entries-ok [] w u h = (sym (append-nil w.acknowledged), sym (append-nil w.posted))
  entries-ok (entry ∷ entries) w u h =
      let (_, first, others, whole) =
        then-ok (relay_entry weather entry) (relay_entries weather entries) w u h in
      let v = after (relay_entry weather entry w) in
      let (a, p) = entry-ok entry w _ first in
      let (as', ps) = entries-ok entries v u others in
      (
        ap (λ z. z.acknowledged) whole ∙ as' ∙ settled_ids-step entry entries w v a p,
        ap (λ z. z.posted) whole
            ∙ ps
            ∙ ap (λ l. l ++ events_of entries) p
            ∙ append_assoc w.posted (events_of (entry ∷ [])) (events_of entries)
            ∙ ap (λ l. w.posted ++ l) (sym (events_of-cons entry entries)),
      )

  -- However the loop ends, the acknowledged entries are the first of those that are settled.
  entries-settled :
      (entries : List StreamEntry) (w : RelayWorld E)
      → (rest : List Text) × ((after (relay_entries weather entries w)).acknowledged ++ rest
          ≡ w.acknowledged ++ settled_ids w.posted entries)
  unfolding relay_entries settled_ids
  entries-settled [] w = ([], refl)
  entries-settled (entry ∷ entries) w =
      let v = after (relay_entry weather entry w) in
      elim (Result-cases (result (relay_entry weather entry w))) [
        | inl (u, first) ↦
            let (rest, e) = entries-settled entries v in
            let (a, p) = entry-ok entry w u first in
            (
              rest,
              ap (λ (z : Result RelayError (Unit {0}) × RelayWorld E). z.1.acknowledged ++ rest)
                    (then-returned (relay_entry weather entry) (relay_entries weather entries) w u
                      first)
                  ∙ e
                  ∙ settled_ids-step entry entries w v a p,
            )
        | inr (x, first) ↦ (
          settled_ids w.posted (entry ∷ entries),
          ap
                (λ (z : Result RelayError (Unit {0}) × RelayWorld E).
                  z.1.acknowledged ++ settled_ids w.posted (entry ∷ entries))
                (then-threw (relay_entry weather entry) (relay_entries weather entries) w x first)
              ∙ ap (λ l. l ++ settled_ids w.posted (entry ∷ entries)) (entry-err entry w x first),
        )
      ]

  -- What a call on entries has done with its result and the state that it left.
  pub record IsRelayed (entries : List StreamEntry) (w : RelayWorld E)
      (z : Result RelayError Bool × RelayWorld E) : Type 0 where
    pub acknowledged :
        (b : Bool) → z.0 ≡ ok b → z.1.acknowledged ≡ w.acknowledged ++ settled_ids w.posted entries
    pub posted : (b : Bool) → z.0 ≡ ok b → z.1.posted ≡ w.posted ++ events_of entries
    pub rest : List Text
    pub settled : z.1.acknowledged ++ rest ≡ w.acknowledged ++ settled_ids w.posted entries

  -- Nothing was acknowledged before an error.
  stopped-IsRelayed :
      (entries : List StreamEntry) (w : RelayWorld E) (e : RelayError)
      → IsRelayed entries w (err e, w)
  stopped-IsRelayed entries w e = record {
    acknowledged = λ b h. absurd (ok-err b e (sym h));
    posted = λ b h. absurd (ok-err b e (sym h));
    rest = settled_ids w.posted entries;
    settled = refl;
  }

  -- A state that differs in other fields may stand for the first one.
  start-IsRelayed :
      (entries : List StreamEntry) (w v : RelayWorld E) (z : Result RelayError Bool × RelayWorld E)
      → v.acknowledged ≡ w.acknowledged
      → v.posted ≡ w.posted
      → IsRelayed entries v z
      → IsRelayed entries w z
  start-IsRelayed entries w v z a p h =
      let moved : v.acknowledged ++ settled_ids v.posted entries
          ≡ w.acknowledged ++ settled_ids w.posted entries =
        subst₂ (λ x y. x ++ settled_ids y entries ≡ w.acknowledged ++ settled_ids w.posted entries)
          (sym a) (sym p) refl in
      record {
        acknowledged = λ b e. h.acknowledged b e ∙ moved;
        posted = λ b e. h.posted b e ∙ ap (λ l. l ++ events_of entries) p;
        rest = h.rest;
        settled = h.settled ∙ moved;
      }

  some-IsRelayed :
      (entries : List StreamEntry) (w : RelayWorld E)
      → IsRelayed entries w (relay_some weather entries w)
  unfolding settled_ids events_of
  some-IsRelayed [] w = record {
    acknowledged = λ b h. sym (append-nil w.acknowledged);
    posted = λ b h. sym (append-nil w.posted);
    rest = [];
    settled = refl;
  }
  some-IsRelayed (entry ∷ entries) w =
      let m = relay_entries weather (entry ∷ entries) in
      let end = pure {S = RelayWorld E} {E = RelayError} true in
      let (rest, s) = entries-settled (entry ∷ entries) w in
      elim (Result-cases (result (m w))) [
        | inl (u, first) ↦
            let (a, p) = entries-ok (entry ∷ entries) w u first in
            subst (IsRelayed (entry ∷ entries) w) (sym (then-returned m end w u first))
              (record { acknowledged = λ b h. a; posted = λ b h. p; rest = rest; settled = s })
        | inr (x, first) ↦
            subst (IsRelayed (entry ∷ entries) w) (sym (then-threw m end w x first)) (record {
              acknowledged = λ b h. absurd (ok-err b x (sym h));
              posted = λ b h. absurd (ok-err b x (sym h));
              rest = rest;
              settled = s;
            })
      ]

  reply-IsRelayed :
      (o : CommandOutcome) (f : Reply → Relay E Bool) (entries : List StreamEntry)
      (w : RelayWorld E)
      → IsRelayed entries w (f (reply_of o) w)
      → IsRelayed entries w ((reply_or_throw o >>= f) w)
  reply-IsRelayed (replied r) f entries w h = h
  reply-IsRelayed busy_group f entries w h = stopped-IsRelayed entries w _
  reply-IsRelayed failed f entries w h = stopped-IsRelayed entries w _

  new-IsRelayed :
      (o : CommandOutcome) (w : RelayWorld E)
      → IsRelayed (parse_x_read_group_reply (reply_of o)) w (
          ((reply_or_throw o >>= (λ reply. pure (parse_x_read_group_reply reply)))
              >>= relay_some weather)
            w)
  new-IsRelayed (replied r) w = some-IsRelayed (parse_x_read_group_reply r) w
  new-IsRelayed busy_group w = stopped-IsRelayed _ w _
  new-IsRelayed failed w = stopped-IsRelayed _ w _

  -- The entries that a call works on: those that are reclaimed, or else new ones.
  abbrev entries_of : List StreamEntry → List StreamEntry
  entries_of [] = parse_x_read_group_reply (reply_of weather.read_group)
  entries_of (entry ∷ entries) = entry ∷ entries

  chosen-IsRelayed :
      (claimed : List StreamEntry) (w : RelayWorld E)
      → IsRelayed (entries_of claimed) w ((entries_or_new weather claimed >>= relay_some weather) w)
  chosen-IsRelayed [] w = new-IsRelayed weather.read_group w
  chosen-IsRelayed (entry ∷ entries) w = some-IsRelayed (entry ∷ entries) w

  unfoldable pub pending_entries : List StreamEntry
  pending_entries = entries_of (parse_x_auto_claim_reply (reply_of weather.auto_claim))

  ensure_group-kept :
      (w : RelayWorld E)
      → ((after (ensure_group weather w)).acknowledged ≡ w.acknowledged)
        × ((after (ensure_group weather w)).posted ≡ w.posted)
  unfolding ensure_group
  ensure_group-kept w = ground arith

  -- However a call ends, what it has acknowledged are the first ids of the entries, among those that the
  -- replies parse to, whose value is no event or whose event the API answers with 202 when it is posted
  -- after the events of the entries before. When it ends without an error it has acknowledged all of these and no others, and it has
  -- posted the event of each entry that has one, once, in the order of the entries.
  pub relay_once-IsRelayed : (w : RelayWorld E) → IsRelayed pending_entries w (relay_once weather w)
  unfolding relay_once pending_entries
  relay_once-IsRelayed w =
      let k = reply_or_throw weather.auto_claim >>= relay_claimed weather in
      let m = ensure_group weather in
      let (a, p) = ensure_group-kept w in
      let v = after (m w) in
      let later : IsRelayed pending_entries v (k v) =
        reply-IsRelayed weather.auto_claim (relay_claimed weather) pending_entries v
          (chosen-IsRelayed (parse_x_auto_claim_reply (reply_of weather.auto_claim)) v) in
      elim (Result-cases (result (m w))) [
        | inl (u, e) ↦
            subst (IsRelayed pending_entries w) (sym (then-returned m k w u e))
              (start-IsRelayed pending_entries w v (k v) a p later)
        | inr (x, e) ↦ subst (IsRelayed pending_entries w) (sym (then-threw m k w x e)) (
            start-IsRelayed pending_entries w v (err x, v) a p
              (stopped-IsRelayed pending_entries v x))
      ]
