-- ===== src/Insights/Digest.antt =====
-- `DigestService.compute_daily_digest`, on devices and events.
use homesentinel.Prelude.{
  ℕ, ◌≡◌, refl, ap, sym, Text, text_eq, text_ltb, text_length, text_ltb-append, Bool, true, false,
  not, ◌&&◌, ◌||◌, Option, none, some, List, [], ◌∷◌, ◌++◌, All, find, select, count, length,
  or_else, codes, arith,
}
use homesentinel.Db.Schema.{Store, Device, Event, Moment, current_timestamp, online, status_eq}

pub record NewDevice : Type 0 where
  pub name : Text
  pub mac : Text

pub record Digest : Type 0 where
  pub date : Text
  pub total_devices : ℕ
  pub online_devices : ℕ
  pub new_devices_count : ℕ
  pub new_devices : List NewDevice
  pub offline_events : ℕ

-- `timestamp >= day_start AND timestamp <= day_end`
unfoldable pub in_day : Text → Text → Bool
in_day date timestamp =
    not (text_ltb timestamp (date ++ codes "T00:00:00"))
    && not (text_ltb (date ++ codes "T23:59:59") timestamp)

abbrev pub is_offline_event : Text → Event → Bool
is_offline_event date e =
    (text_eq e.event_type (codes "offline") || text_eq e.event_type (codes "disconnected"))
    && in_day date e.timestamp

abbrev pub is_new_device_event : Text → Event → Bool
is_new_device_event date e = text_eq e.event_type (codes "new_device") && in_day date e.timestamp

-- JOIN network_devices ON device_id
abbrev pub joined : Option Device → List NewDevice → List NewDevice
joined none rest = rest
joined (some d) rest =
    record { name = or_else d.friendly_name d.mac_address; mac = d.mac_address } ∷ rest

unfoldable pub join_devices : List Device → List Event → List NewDevice
join_devices devices [] = []
join_devices devices (e ∷ es) =
    joined (find (λ d. text_eq d.device_id e.device_id) devices) (join_devices devices es)

unfoldable pub compute_daily_digest : Text → Store → Digest
unfolding join_devices
compute_daily_digest date s =
    let new_devices = join_devices s.devices (select (is_new_device_event date) s.events) in
    record {
      date = date;
      total_devices = length s.devices;
      online_devices = count (λ d. status_eq d.status online) s.devices;
      new_devices_count = length new_devices;
      new_devices = new_devices;
      offline_events = count (is_offline_event date) s.events;
    }

text_trichotomy : (s t : Text) → (text_ltb s t || (text_eq s t || text_ltb t s)) ≡ true
unfolding text_ltb text_eq
text_trichotomy [] [] = refl
text_trichotomy [] (y ∷ t) = refl
text_trichotomy (x ∷ s) [] = refl
text_trichotomy (x ∷ s) (y ∷ t) = ground (arith, text_trichotomy s t)

-- A stored timestamp has a blank where the bounds of a day have a T.
current_timestamp-in_day :
    (date : Text) (m : Moment)
    → text_length m.date ≡ text_length date
    → in_day date (current_timestamp m) ≡ false
unfolding in_day text_ltb
current_timestamp-in_day date m h = ground (
  arith,
  h,
  text_trichotomy m.date date,
  text_ltb-append m.date date (b' ' ∷ m.clock) (codes "T00:00:00") h,
  text_ltb-append date m.date (codes "T23:59:59") (b' ' ∷ m.clock) (sym h),
)

-- An event as the event service and the repository write it
abbrev pub IsStamped : Text → Event → Type 0
IsStamped date e =
    (m : Moment) × ((e.timestamp ≡ current_timestamp m) × (text_length m.date ≡ text_length date))

stamped-in_day : (date : Text) (e : Event) → IsStamped date e → in_day date e.timestamp ≡ false
stamped-in_day date e (m, (t, l)) = rw t (current_timestamp-in_day date m l)

no_offline_events :
    (date : Text) (es : List Event) → All (IsStamped date) es → count (is_offline_event date) es ≡ 0
unfolding count
no_offline_events date [] h = refl
no_offline_events date (e ∷ es) h =
    ground (arith, stamped-in_day date e h.0, no_offline_events date es h.1)

no_new_devices :
    (date : Text) (es : List Event)
    → All (IsStamped date) es
    → select (is_new_device_event date) es ≡ []
unfolding select
no_new_devices date [] h = refl
no_new_devices date (e ∷ es) h =
    ground (arith, stamped-in_day date e h.0, no_new_devices date es h.1)

-- If every event has a timestamp of CURRENT_TIMESTAMP, with a date as long as the digest's, then the
-- digest of any day shows no new device and no offline event, whatever happened on that day.
pub compute_daily_digest_blind :
    (date : Text) (s : Store)
    → All (IsStamped date) s.events
    → ((compute_daily_digest date s).new_devices ≡ [])
      × ((compute_daily_digest date s).offline_events ≡ 0)
unfolding compute_daily_digest join_devices
compute_daily_digest_blind date s h = (
  ap (join_devices s.devices) (no_new_devices date s.events h),
  no_offline_events date s.events h,
)
