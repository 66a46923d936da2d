-- ===== src/LocalServices/Snapshot.antt =====
-- `snapshot`, `_record`, `_enrich_history`, `get_events` and `get_traffic`.
use homesentinel.Prelude.{
  ℕ, suc, ◌+◌, Text, text_eq, Bool, true, false, not, ◌&&◌, ◌==◌, ltb, leb, Option, none, some,
  List, [], ◌∷◌, ◌++◌, map, any, find, select, count, take, length, if◌then◌else◌, codes,
}
use homesentinel.LocalServices.State.{
  Config, Listener, Status, healthy, degraded, down, listening, status_text, Sample, Event, Service,
  Tables, Monitor,
}
use homesentinel.LocalServices.Control.{is_controllable}

abbrev pub same_status : Status → Status → Bool
same_status a b = text_eq (status_text a) (status_text b)

-- The status of a configured service that listens, of its health check if it has one
abbrev pub checked : Service → Bool × (ℕ × Option Text) → Service
checked s (good, (elapsed, error)) = record s {
  response_time_ms = some elapsed;
  health_error = error;
  status = if good then healthy else degraded;
}

abbrev pub if_checked : Monitor → Service → Option Text → Service
if_checked m s none = record s { status = listening }
if_checked m s (some url) = checked s (m.health_checker url)

abbrev pub down_service : Monitor → Config → Service
unfolding is_controllable
down_service m config = record {
  id = config.id;
  name = config.name;
  port = config.port;
  status = down;
  pid = none;
  process = none;
  bind_address = none;
  response_time_ms = none;
  health_error = none;
  expected = true;
  controllable = is_controllable m config;
  history = [];
  last_changed = none;
}

-- An empty health URL is false.
abbrev pub url_of : Option Text → Option Text
url_of none = none
url_of (some []) = none
url_of (some (c ∷ s)) = some (c ∷ s)

abbrev pub with_listener : Monitor → Config → Option Listener → Service
with_listener m config none = down_service m config
with_listener m config (some l) =
    if_checked m
      (record (down_service m config) {
        pid = some l.pid;
        process = some l.process;
        bind_address = some l.bind_address;
      })
      (url_of config.health_url)

abbrev pub on_port : ℕ → Listener → Bool
on_port port l = l.port == port

unfoldable pub configured_services : Monitor → List Listener → List Config → List Service
configured_services m listeners [] = []
configured_services m listeners (config ∷ rest) =
    with_listener m config (find (on_port config.port) listeners)
    ∷ configured_services m listeners rest

-- `f"tcp-{port}-{pid}"`, with the decimal digits of a number as an argument
abbrev pub extra_service : (ℕ → Text) → Listener → Service
extra_service digits l = record {
  id = codes "tcp-" ++ (digits l.port ++ (codes "-" ++ digits l.pid));
  name = l.process;
  port = l.port;
  status = listening;
  pid = some l.pid;
  process = some l.process;
  bind_address = some l.bind_address;
  response_time_ms = none;
  health_error = none;
  expected = false;
  controllable = false;
  history = [];
  last_changed = none;
}

-- `is_primary`: the port is configured, and the listener is the first of it; `earlier` are those before it.
abbrev pub is_primary : List Config → List Listener → Listener → Bool
is_primary configs earlier l =
    any (λ config. config.port == l.port) configs && not (any (on_port l.port) earlier)

unfoldable pub extra_services :
    (ℕ → Text) → List Config → List Listener → List Listener → List Service
extra_services digits configs earlier [] = []
extra_services digits configs earlier (l ∷ rest) =
    let others = extra_services digits configs (l ∷ earlier) rest in
    if is_primary configs earlier l then others else extra_service digits l ∷ others

-- `services.sort(key=port)`
unfoldable pub insert_by_port : Service → List Service → List Service
insert_by_port s [] = s ∷ []
insert_by_port s (t ∷ ts) =
    let rest = insert_by_port s ts in if leb s.port t.port then s ∷ t ∷ ts else t ∷ rest

unfoldable pub sort_by_port : List Service → List Service
unfolding insert_by_port
sort_by_port [] = []
sort_by_port (s ∷ ss) = insert_by_port s (sort_by_port ss)

-- SELECT status … WHERE service_id = ? ORDER BY id DESC LIMIT 1
abbrev pub status_in : Option Sample → Option Status
status_in none = none
status_in (some row) = some row.status

unfoldable pub last_status : Text → List Sample → Option Status
last_status id samples = status_in (find (λ row. text_eq row.service_id id) samples)

abbrev pub has_status : Option Status → Status → Bool
has_status none s = false
has_status (some t) s = same_status t s

unfoldable pub add_event : Text → Service → Option Status → Tables → Tables
add_event now s old t = record t {
  events =
      (record {
        id = t.last_event + 1;
        service_id = s.id;
        event_type = codes "service_" ++ status_text s.status;
        old_status = old;
        new_status = s.status;
        detail = s.health_error;
        created_at = now;
      })
      ∷ t.events;
  last_event = t.last_event + 1;
}

unfoldable pub add_sample : Text → Service → Tables → Tables
add_sample now s t = record t {
  samples =
      (record {
        id = t.last_sample + 1;
        service_id = s.id;
        status = s.status;
        response_time_ms = s.response_time_ms;
        connection_count = 0;
        sampled_at = now;
      })
      ∷ t.samples;
  last_sample = t.last_sample + 1;
}

unfoldable pub record_service : Text → Service → Tables → Tables
unfolding last_status add_event add_sample
record_service now s t = add_sample now s (
    if has_status (last_status s.id t.samples) s.status
    then t
    else add_event now s (last_status s.id t.samples) t)

unfoldable pub record_services : Text → List Service → Tables → Tables
unfolding record_service
record_services now [] t = t
record_services now (s ∷ ss) t = record_services now ss (record_service now s t)

-- `max(1, int(retention))`
abbrev pub kept : Monitor → ℕ
kept m = if ltb m.retention 1 then 1 else m.retention

-- `_record`
unfoldable pub record_all : Monitor → List Service → Tables → Tables
unfolding record_services
record_all m services t =
    let r = record_services m.now services t in
    record r { samples = take (kept m) r.samples; events = take (kept m) r.events }

unfoldable pub reverse_onto : {A : Type 0} → List A → List A → List A
reverse_onto [] acc = acc
reverse_onto (x ∷ xs) acc = reverse_onto xs (x ∷ acc)

abbrev pub created : Option Event → Option Text
created none = none
created (some e) = some e.created_at

-- `_enrich_history`, on one service
unfoldable pub enrich_history : Tables → Service → Service
unfolding reverse_onto
enrich_history t s = record s {
  history = reverse_onto (take 30 (select (λ row. text_eq row.service_id s.id) t.samples)) [];
  last_changed = created (find (λ e. text_eq e.service_id s.id) t.events);
}

-- `min(max(limit, 1), bound)`
abbrev pub clamp : ℕ → ℕ → ℕ
clamp bound limit = if ltb limit 1 then 1 else if ltb bound limit then bound else limit

unfoldable pub get_events : ℕ → Tables → List Event
get_events limit t = take (clamp 1000 limit) t.events

unfoldable pub get_traffic : ℕ → Tables → List Sample
get_traffic limit t = take (clamp 5000 limit) t.samples

pub record Summary : Type 0 where
  pub total : ℕ
  pub healthy_count : ℕ
  pub degraded_count : ℕ
  pub down_count : ℕ
  pub listening_count : ℕ
  pub unexpected : ℕ
  pub conflicts : ℕ

-- The ports with several listeners, each counted at its first one
unfoldable pub count_conflicts : List Listener → List Listener → ℕ
count_conflicts earlier [] = 0
count_conflicts earlier (l ∷ rest) =
    let others = count_conflicts (l ∷ earlier) rest in
    if not (any (on_port l.port) earlier) && any (on_port l.port) rest then suc others else others

abbrev pub count_status : Status → List Service → ℕ
count_status status = count (λ s. same_status s.status status)

unfoldable pub summarize : List Listener → List Service → Summary
unfolding count_conflicts
summarize listeners services = record {
  total = length services;
  healthy_count = count_status healthy services;
  degraded_count = count_status degraded services;
  down_count = count_status down services;
  listening_count = count_status listening services;
  unexpected = count (λ s. not s.expected) services;
  conflicts = count_conflicts [] listeners;
}

unfoldable pub services_of : (ℕ → Text) → Monitor → List Listener → List Service
unfolding configured_services extra_services sort_by_port
services_of digits m listeners =
    sort_by_port
      (configured_services m listeners m.configs ++ extra_services digits m.configs [] listeners)

-- `snapshot`, of the listeners that `_listeners` found
unfoldable pub snapshot :
    (ℕ → Text) → Monitor → List Listener → Tables → (List Service × Summary) × Tables
unfolding services_of record_all enrich_history summarize
snapshot digits m listeners t =
    let services = services_of digits m listeners in
    let t1 = record_all m services t in
    ((map (enrich_history t1) services, summarize listeners (map (enrich_history t1) services)), t1)
