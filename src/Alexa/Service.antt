-- ===== src/Alexa/Service.antt =====
-- `get_devices` with its cache and its table, `get_device_with_state`, `get_all_devices_with_state`
-- and `get_echo_devices` without the web API.
use homesentinel.Prelude.{
  ℕ, ◌-◌, Text, text_eq, Bool, true, false, not, ◌&&◌, ltb, Option, none, some, List, [], ◌∷◌, find,
  update, Dict, put, if◌then◌else◌, Outcome, ok, raised,
}
use homesentinel.Deco.Values.{Object}
use homesentinel.Alexa.Devices.{
  Entity, Endpoint, Device, normalize_web_appliances, skill_device, parse_state,
}

-- A row of alexa_devices, by its endpoint_id
pub record Row : Type 0 where
  pub friendly_name : Text
  pub description : Text
  pub manufacturer : Text
  pub model : Text
  pub device_type : Text
  pub capabilities : List Text
  pub is_echo_device : Bool
  pub last_state : Option (Dict Object)
  pub state_updated_at : Option Text

-- The devices of the cache are those that the calls return, and are changed by them.
pub record Alexa : Type 0 where
  pub devices_cache : Option (List Device)
  pub cache_time : ℕ
  pub db : Option (Dict Row)

-- `_is_cache_valid`, in seconds: an empty list is a cache.
unfoldable pub is_cache_valid : ℕ → Alexa → Bool
is_cache_valid seconds a = elim a.devices_cache [
  | none ↦ false
  | some ds ↦ ltb (seconds - a.cache_time) 300
]

-- `clear_cache`
unfoldable pub clear_cache : Alexa → Alexa
clear_cache a = record a { devices_cache = none; cache_time = 0 }

-- `_save_device_to_db`: INSERT OR REPLACE, which leaves the columns of the state NULL
unfoldable pub save_device_to_db : Device → Dict Row → Dict Row
save_device_to_db d rows =
    put d.endpoint_id
      (record {
        friendly_name = d.friendly_name;
        description = d.description;
        manufacturer = d.manufacturer;
        model = d.model;
        device_type = d.device_type;
        capabilities = d.capabilities;
        is_echo_device = d.is_echo_device;
        last_state = none;
        state_updated_at = none;
      })
      rows

unfoldable pub save_all : List Device → Dict Row → Dict Row
unfolding save_device_to_db
save_all [] rows = rows
save_all (d ∷ ds) rows = save_all ds (save_device_to_db d rows)

abbrev pub saved : List Device → Option (Dict Row) → Option (Dict Row)
saved ds none = none
saved ds (some rows) = some (save_all ds rows)

-- The devices of the web API; an exception is logged.
abbrev pub from_web : Outcome (List Entity) → List Device
from_web (ok es) = normalize_web_appliances es
from_web (raised e) = []

unfoldable pub skill_devices : List Endpoint → List Device
unfolding skill_device
skill_devices [] = []
skill_devices (e ∷ es) = skill_device e ∷ skill_devices es

abbrev pub from_skill : Outcome (List Endpoint) → List Device
from_skill (ok es) = skill_devices es
from_skill (raised e) = []

abbrev pub or_skill : List Device → Outcome (List Endpoint) → List Device
or_skill [] skill = from_skill skill
or_skill (d ∷ ds) skill = d ∷ ds

abbrev pub cached : Option (List Device) → List Device
cached none = []
cached (some ds) = ds

abbrev pub refresh : ℕ → List Device → Alexa → List Device × Alexa
refresh seconds ds a =
    (ds, record a { devices_cache = some ds; cache_time = seconds; db = saved ds a.db })

-- `get_devices`, with what the web API and the skill would answer
unfoldable pub get_devices :
    Bool → ℕ → Outcome (List Entity) → Outcome (List Endpoint) → Alexa → List Device × Alexa
unfolding is_cache_valid skill_devices normalize_web_appliances save_all
get_devices force_refresh seconds web skill a =
    if not force_refresh && is_cache_valid seconds a
    then (cached a.devices_cache, a)
    else refresh seconds (or_skill (from_web web) skill) a

abbrev pub has_endpoint : Text → Device → Bool
has_endpoint endpoint_id d = text_eq d.endpoint_id endpoint_id

unfoldable pub with_state : Text → Dict Object → Device → Device
unfolding parse_state
with_state now state d = record d {
  last_state = some state;
  state_updated_at = some now;
  is_stale = false;
  parsed_state = parse_state state;
}

-- A change of the first device with an endpoint
unfoldable pub update_first : Text → (Device → Device) → List Device → List Device
update_first endpoint_id f [] = []
update_first endpoint_id f (d ∷ ds) =
    let rest = update_first endpoint_id f ds in
    if has_endpoint endpoint_id d then f d ∷ ds else d ∷ rest

-- `_save_device_state_to_db`
unfoldable pub save_state : Text → Dict Object → Text → Dict Row → Dict Row
save_state endpoint_id state now =
    update (λ e. text_eq e.0 endpoint_id)
      (λ e. (e.0, record (e.1) { last_state = some state; state_updated_at = some now }))

abbrev pub state_saved : Text → Dict Object → Text → Option (Dict Row) → Option (Dict Row)
state_saved endpoint_id state now none = none
state_saved endpoint_id state now (some rows) = some (save_state endpoint_id state now rows)

abbrev pub add_state :
    Text
    → Text
    → Option Device
    → Outcome (Dict Object)
    → List Device × Alexa
    → Outcome (Option Device) × Alexa
add_state endpoint_id now none answer (ds, a) = (ok none, a)
add_state endpoint_id now (some d) (raised e) (ds, a) = (raised e, a)
add_state endpoint_id now (some d) (ok state) (ds, a) = (
  ok (some (with_state now state d)),
  record a {
    devices_cache = some (update_first endpoint_id (with_state now state) ds);
    db = state_saved endpoint_id state now a.db;
  },
)

-- `get_device_with_state`; the device that it returns is the one in the cache.
unfoldable pub get_device_with_state :
    ℕ
    → Text
    → Outcome (List Entity)
    → Outcome (List Endpoint)
    → (Text → Outcome (Dict Object))
    → Text
    → Alexa
    → Outcome (Option Device) × Alexa
unfolding get_devices with_state update_first save_state
get_device_with_state seconds now web skill get_device_state endpoint_id a =
    let r = get_devices false seconds web skill a in
    add_state endpoint_id now (find (has_endpoint endpoint_id) r.0) (get_device_state endpoint_id) r

abbrev pub stated : Text → Outcome (Dict Object) → Device → Device
stated now (ok state) d = with_state now state d
stated now (raised e) d = record d { parsed_state = []; is_stale = true }

unfoldable pub state_all : Text → (Text → Outcome (Dict Object)) → List Device → List Device
unfolding with_state
state_all now get_device_state [] = []
state_all now get_device_state (d ∷ ds) =
    stated now (get_device_state d.endpoint_id) d ∷ state_all now get_device_state ds

-- `get_all_devices_with_state`, which changes the devices of the cache and not the table
unfoldable pub get_all_devices_with_state :
    ℕ
    → Text
    → Outcome (List Entity)
    → Outcome (List Endpoint)
    → (Text → Outcome (Dict Object))
    → Alexa
    → List Device × Alexa
unfolding get_devices state_all
get_all_devices_with_state seconds now web skill get_device_state a =
    let r = get_devices false seconds web skill a in
    (
      state_all now get_device_state r.0,
      record (r.1) { devices_cache = some (state_all now get_device_state r.0) },
    )
