-- ===== src/Search.antt =====
-- backend/services/search_service.py: `DeviceSearchService`, over the tables of Db. Errors of SQLite
-- are not modelled.
pub mod Laws
use homesentinel.Prelude.{
  ℕ, Text, text_eq, is_empty, is_set, lower, Bool, true, false, not, ◌&&◌, ◌||◌, ◌==◌, Option, none,
  some, List, [], ◌∷◌, ◌++◌, map, select, update, find, order_desc, if◌then◌else◌, codes,
}
use homesentinel.Mac.{strip}
use homesentinel.Db.Schema.{
  Status, online, offline, unknown, Sighting, History, entries, Device, Store, has_id,
}
use homesentinel.Db.Devices.{parse_history, ip_differs, sighting_of}

unfoldable pub any_suffix : (Text → Bool) → Text → Bool
any_suffix p [] = p []
any_suffix p (c ∷ s) = p (c ∷ s) || any_suffix p s

-- The rest of a pattern on the rest of the text, after a character that must be the same
abbrev pub after_char : ℕ → (Text → Bool) → Text → Bool
after_char c p [] = false
after_char c p (d ∷ s) = (c == b'_' || c == d) && p s

-- `text LIKE pattern`, for texts in lower case
unfoldable pub like : Text → Text → Bool
unfolding any_suffix
like [] s = is_empty s
like (c ∷ p) s = if c == b'%' then any_suffix (like p) s else after_char c (like p) s

-- A column that is NULL is not like anything.
abbrev pub column_like : Text → Option Text → Bool
unfolding like
column_like pattern none = false
column_like pattern (some s) = like pattern (lower s)

unfoldable pub is_hit : Text → Device → Bool
unfolding like
is_hit query d =
    like (query ++ codes "%") (lower d.mac_address)
    || (column_like (codes "%" ++ (query ++ codes "%")) d.current_ip
        || (column_like (codes "%" ++ (query ++ codes "%")) d.hostname
            || (column_like (codes "%" ++ (query ++ codes "%")) d.friendly_name
                || column_like (codes "%" ++ (query ++ codes "%")) d.vendor_name)))

abbrev pub status_name : Status → Text
status_name online = codes "online"
status_name offline = codes "offline"
status_name unknown = codes "unknown"

-- `if status_filter: … AND status = ?`
abbrev pub passes : Option Text → Device → Bool
passes none d = true
passes (some f) d = is_empty f || text_eq (status_name d.status) f

-- The row of a device, with its history parsed
pub record Enriched : Type 0 where
  pub device : Device
  pub ip_history : List Sighting

-- `_enrich_device`
unfoldable pub enrich_device : Device → Enriched
unfolding parse_history
enrich_device d = record { device = d; ip_history = parse_history d.ip_history }

abbrev pub search_rows : Text → Option Text → Store → List Device
unfolding is_hit
search_rows query status_filter s =
    order_desc (λ d. d.last_seen) (select (λ d. is_hit query d && passes status_filter d) s.devices)

-- `search`; the five other searches call it.
unfoldable pub search : Text → Option Text → Store → List Enriched
unfolding is_hit enrich_device
search query status_filter s =
    if is_empty (strip query)
    then []
    else map enrich_device (search_rows (strip (lower query)) status_filter s)

-- The device after `update_ip_history`; `seen_at` and `stored` are the two texts of the moment.
unfoldable pub moved : Text → Text → Text → Device → Device
unfolding parse_history
moved new_ip seen_at stored d = record d {
  current_ip = some new_ip;
  ip_history = entries (
      parse_history d.ip_history
      ++ (if is_set d.current_ip then sighting_of d.current_ip seen_at else []));
  ip_history_updated_at = some stored;
  updated_at = stored;
}

abbrev pub is_move : Option Device → Text → Bool
is_move none new_ip = false
is_move (some d) new_ip = ip_differs d.current_ip new_ip && not (is_empty new_ip)

-- `update_ip_history`
unfoldable pub update_ip_history : Text → Text → Text → Text → Store → Bool × Store
unfolding moved
update_ip_history device_id new_ip seen_at stored s =
    if is_move (find (has_id device_id) s.devices) new_ip
    then (
      true,
      record s { devices = update (has_id device_id) (moved new_ip seen_at stored) s.devices },
    )
    else (false, s)

-- An entry of the answer; the last one may be marked as current.
pub record Entry : Type 0 where
  pub sighting : Sighting
  pub is_current : Bool

abbrev pub past : Sighting → Entry
past x = record { sighting = x; is_current = false }

abbrev pub current_entry : Option Text → Text → List Entry
current_entry none now = []
current_entry (some ip) now =
    if is_empty ip
    then []
    else record { sighting = record { ip = ip; seen_at = now }; is_current = true } ∷ []

abbrev pub history_of : Option Device → Text → List Entry
unfolding parse_history
history_of none now = []
history_of (some d) now = map past (parse_history d.ip_history) ++ current_entry d.current_ip now

-- `get_device_ip_history`
unfoldable pub get_device_ip_history : Text → Text → Store → List Entry
unfolding parse_history
get_device_ip_history device_id now s = history_of (find (has_id device_id) s.devices) now
