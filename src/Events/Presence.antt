-- ===== src/Events/Presence.antt =====
-- `EventService.get_presence_history`. The parsing of a timestamp into a time without a zone, in
-- seconds, and of its hour are parameters; the minutes of a window and their rounding, which are
-- floating-point, are left out: a day has its windows.
use homesentinel.Prelude.{
  ℕ, zero, suc, Text, text_eq, text_ltb, starts_with, Bool, false, not, ◌&&◌, ◌||◌, ◌==◌, Option,
  none, some, List, [], ◌∷◌, any, select, length, if◌then◌else◌, Outcome, ok, raised, type_error,
  and_then, codes,
}
use homesentinel.Db.Schema.{Store, Event}

abbrev pub is_up : Event → Bool
is_up e = text_eq e.event_type (codes "online") || text_eq e.event_type (codes "connected")

abbrev pub is_down : Event → Bool
is_down e = text_eq e.event_type (codes "offline") || text_eq e.event_type (codes "disconnected")

-- ORDER BY timestamp ASC
unfoldable pub insert_asc : Event → List Event → List Event
insert_asc e [] = e ∷ []
insert_asc e (x ∷ xs) =
    let rest = insert_asc e xs in if text_ltb x.timestamp e.timestamp then x ∷ rest else e ∷ x ∷ xs

unfoldable pub order_asc : List Event → List Event
unfolding insert_asc
order_asc [] = []
order_asc (e ∷ es) = insert_asc e (order_asc es)

-- The events of a device from the cutoff on
unfoldable pub presence_events : Text → Text → Store → List Event
unfolding order_asc
presence_events device_id cutoff s = order_asc (
    select
      (λ e.
        text_eq e.device_id device_id
        && (not (text_ltb e.timestamp cutoff) && (is_up e || is_down e)))
      s.events)

pub record Day : Type 0 where
  pub date : Text
  pub windows : List (ℕ × ℕ)
  pub event_count : ℕ
  pub hourly : List Bool

module _ (parse : Text → Option ℕ) where
  abbrev pub add_window : ℕ → ℕ → List (ℕ × ℕ) × Option ℕ → List (ℕ × ℕ) × Option ℕ
  add_window s t (windows, last) = ((s, t) ∷ windows, last)

  -- The loop over the events of a day: the closed windows, and the start of the open one
  unfoldable pub scan_day : List Event → Option ℕ → List (ℕ × ℕ) × Option ℕ
  scan_day [] last = ([], last)
  scan_day (e ∷ es) last =
      let passed = scan_day es last in
      let opened = λ (t : ℕ). scan_day es (some t) in
      let closed = scan_day es none in
      elim (parse e.timestamp) [
        | none ↦ passed
        | some t ↦
            if is_up e
            then opened t
            else if is_down e
            then elim last [ none ↦ passed | some s ↦ add_window s t closed ]
            else passed
      ]

  module _ (hour_of : Text → Option ℕ) where
    -- `hourly[hour]`
    abbrev pub is_hour : ℕ → Event → Bool
    is_hour h e = is_up e && elim (hour_of e.timestamp) [ none ↦ false | some k ↦ k == h ]

    unfoldable pub hours : ℕ → ℕ → List Event → List Bool
    hours first zero es = []
    hours first (suc n) es = any (is_hour first) es ∷ hours (suc first) n es

    -- A window that is open at the end of a day: the end has a time zone and the start has none, and
    -- their difference raises.
    abbrev pub day_of : Text → List Event → List (ℕ × ℕ) × Option ℕ → Outcome Day
    day_of date es (windows, none) =
        ok (record {
          date = date;
          windows = windows;
          event_count = length es;
          hourly = hours 0 24 es;
        })
    day_of date es (windows, some start) = raised type_error

    abbrev pub events_on : Text → List Event → List Event
    events_on date = select (λ e. starts_with e.timestamp date)

    -- The loop over the days, from the earliest; `days_ago n` is the date n days before today.
    unfoldable pub build_history : (ℕ → Text) → ℕ → List Event → Outcome (List Day)
    unfolding scan_day hours
    build_history days_ago zero es = ok []
    build_history days_ago (suc d) es =
        let rest = build_history days_ago d es in
        and_then
          (day_of (days_ago d) (events_on (days_ago d) es)
            (scan_day (events_on (days_ago d) es) none))
          (λ day. and_then rest (λ history. ok (day ∷ history)))

    -- `get_presence_history`
    unfoldable pub get_presence_history : (ℕ → Text) → Text → Text → ℕ → Store → Outcome (List Day)
    unfolding build_history presence_events
    get_presence_history days_ago cutoff device_id days s =
        build_history days_ago days (presence_events device_id cutoff s)
