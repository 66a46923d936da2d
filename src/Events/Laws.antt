-- ===== src/Events/Laws.antt =====
-- What the event service answers.
use homesentinel.Prelude.{
  ℕ, ◌+◌, ◌-◌, ◌≡◌, refl, Text, text_eq, text_eq_iff, text_ltb, Bool, true, false, not, ◌&&◌,
  Option, none, some, List, [], ◌∷◌, ◌++◌, All, All-select, All-order_desc, All-drop, All-take,
  select, count, length, arith, order_desc, length-select, length-order_desc, length-take-drop,
  count-append, if◌then◌else◌, Dict, get, put, get-put, ok, raised, update, length-update,
  integrity_error,
}
use Prim.Native.Nat.{min}
use homesentinel.Db.Schema.{Event, Alert, Store, Moment, current_timestamp, is_alert}
use homesentinel.Db.Events.{refuses_event}
use homesentinel.Db.Alerts.{as_dismissed}
use homesentinel.Events.{
  record_event, Filter, matches, get_events, get_event_count, dismiss_alert, detect_new_device,
  count_by_type, next_count, get_event_stats,
}

-- A page of events holds matching events only, as many as the count, the offset and the limit say.
pub get_events_page :
    (f : Filter) (limit offset : ℕ) (s : Store)
    → All (λ e. matches f e ≡ true) (get_events f limit offset s)
      × (length (get_events f limit offset s) ≡ min limit (get_event_count f s - offset))
unfolding get_events get_event_count
get_events_page f limit offset s = (
  All-take _ limit _ (All-drop _ offset _ (All-order_desc _ _ _ (All-select (matches f) s.events))),
  omega (
    arith,
    length-take-drop limit offset (order_desc (λ e. e.timestamp) (select (matches f) s.events)),
    length-order_desc (λ e. e.timestamp) (select (matches f) s.events),
    length-select (matches f) s.events,
  ),
)

abbrev pub count_or_zero : Option ℕ → ℕ
count_or_zero none = 0
count_or_zero (some n) = n

counts_by_type :
    (k : Text) (es : List Event) (d : Dict ℕ)
    → count_or_zero (get k (count_by_type es d))
      ≡ count_or_zero (get k d) + count (λ e. text_eq e.event_type k) es
unfolding count_by_type count
counts_by_type k [] d = omega arith
counts_by_type k (e ∷ es) d = ground (
  arith,
  counts_by_type k es (put e.event_type (next_count (get e.event_type d)) d),
  get-put e.event_type k (next_count (get e.event_type d)) d,
  text_eq_iff e.event_type k,
)

partition :
    (p : Event → Bool) (es : List Event) → count (λ e. not (p e)) es + count p es ≡ length es
unfolding count
partition p [] = omega arith
partition p (e ∷ es) = ground (arith, partition p es)

-- The statistics count, for every type, the events of that type (a type with none is absent or
-- zero), and split the total at the last day.
pub get_event_stats_exact :
    (yesterday : Moment) (s : Store) (k : Text)
    → let r = get_event_stats yesterday s in
      (count_or_zero (get k r.events_by_type) ≡ count (λ e. text_eq e.event_type k) s.events)
      × (r.total_events ≡ length s.events)
      × (r.events_last_24h
            + count (λ e. text_ltb e.timestamp (current_timestamp yesterday)) s.events
          ≡ r.total_events)
unfolding get_event_stats get
get_event_stats_exact yesterday s k =
    (omega (arith, counts_by_type k s.events []), refl, partition _ s.events)

-- The row that `record_event` writes.
abbrev pub recorded : Text → Text → Text → Option Text → Option Text → Moment → Event
recorded id device kind description metadata now = record {
  event_id = id;
  device_id = device;
  event_type = kind;
  timestamp = current_timestamp now;
  description = description;
  metadata = metadata;
  created_at = current_timestamp now;
}

record_event_lem :
    (id device kind : Text) (description metadata : Option Text) (now : Moment) (s : Store)
    → refuses_event id device kind s ≡ false
    → record_event id device kind description metadata now s ≡ (
      ok id,
      record s { events = s.events ++ recorded id device kind description metadata now ∷ [] },
    )
unfolding record_event
record_event_lem id device kind description metadata now s h = rw h

-- An event that the schema admits is found from then on: its device is no longer new, no other
-- device's newness changes, and the count under any filter grows by one if the event matches.
pub record_event_seen :
    (id device kind : Text) (description metadata : Option Text) (now : Moment) (s : Store)
    (other : Text) (f : Filter)
    → refuses_event id device kind s ≡ false
    → let (r, s') = record_event id device kind description metadata now s in
      (r ≡ ok id)
      × (detect_new_device other s' ≡ (not (text_eq device other) && detect_new_device other s))
      × (get_event_count f s'
          ≡ get_event_count f s
            + (if matches f (recorded id device kind description metadata now) then 1 else 0))
record_event_seen id device kind description metadata now s other f h =
    rw (record_event_lem id device kind description metadata now s h) (refl, newness, counted)
  where
    e : Event
    e = recorded id device kind description metadata now

    newness :
        detect_new_device other (record s { events = s.events ++ e ∷ [] })
        ≡ (not (text_eq device other) && detect_new_device other s)
    newness =
        unfold detect_new_device count in
        ground (arith, count-append (λ e'. text_eq e'.device_id other) s.events (e ∷ []))

    counted :
        get_event_count f (record s { events = s.events ++ e ∷ [] })
        ≡ get_event_count f s + (if matches f e then 1 else 0)
    counted =
        unfold get_event_count count in ground (arith, count-append (matches f) s.events (e ∷ []))

-- An event that the schema refuses is not recorded: the caller sees the integrity error, and the
-- database is as it was.
pub record_event_refused :
    (id device kind : Text) (description metadata : Option Text) (now : Moment) (s : Store)
    → refuses_event id device kind s ≡ true
    → record_event id device kind description metadata now s ≡ (raised integrity_error, s)
unfolding record_event
record_event_refused id device kind description metadata now s h = rw h

dismissed_gone :
    (id : Text) (now : Moment) (rows : List Alert)
    → count (λ a. not a.dismissed && is_alert id a) (update (is_alert id) (as_dismissed now) rows)
      ≡ 0
unfolding count update as_dismissed
dismissed_gone id now [] = refl
dismissed_gone id now (a ∷ rows) = ground (arith, dismissed_gone id now rows)

dismissed_others :
    (id : Text) (now : Moment) (rows : List Alert)
    → count
        (λ a. not a.dismissed && not (is_alert id a))
        (update (is_alert id) (as_dismissed now) rows)
      ≡ count (λ a. not a.dismissed && not (is_alert id a)) rows
unfolding count update as_dismissed
dismissed_others id now [] = refl
dismissed_others id now (a ∷ rows) = ground (arith, dismissed_others id now rows)

-- Dismissing reports success for any id. Afterwards no active alert has the id, as many others are
-- active as before, and no event and no alert has come or gone.
pub dismiss_alert_effect :
    (id : Text) (now : Moment) (s : Store)
    → let (r, s') = dismiss_alert id now s in
      (r ≡ ok true)
      × (count (λ a. not a.dismissed && is_alert id a) s'.alerts ≡ 0)
      × (count (λ a. not a.dismissed && not (is_alert id a)) s'.alerts
          ≡ count (λ a. not a.dismissed && not (is_alert id a)) s.alerts)
      × (s'.events ≡ s.events)
      × (length s'.alerts ≡ length s.alerts)
unfolding dismiss_alert
dismiss_alert_effect id now s = (
  refl,
  dismissed_gone id now s.alerts,
  dismissed_others id now s.alerts,
  refl,
  length-update (is_alert id) (as_dismissed now) s.alerts,
)
