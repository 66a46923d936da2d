-- ===== src/Alexa/Outage.antt =====
-- What an outage leaves in the cache, and a refresh in the table.
use mathlib.Core.Path.{subst}
use homesentinel.Prelude.{
  ℕ, ◌-◌, ◌≡◌, refl, ap, ◌∙◌, Text, text_eq, text_eq_iff, text_eq_refl, Bool, true, false, not,
  ◌&&◌, ltb, none, some, List, [], ◌∷◌, any, Dict, get, get-put, if◌then◌else◌, Outcome, raised,
  Failure, Bool-cases, inl, inr, arith,
}
use homesentinel.Alexa.Devices.{Entity, Endpoint, Device}
use homesentinel.Alexa.Service.{
  Row, Alexa, is_cache_valid, get_devices, save_device_to_db, save_all, saved, has_endpoint,
}

abbrev after_outage : ℕ → Alexa → Alexa
unfolding save_all
after_outage seconds a = record a {
  devices_cache = some [];
  cache_time = seconds;
  db = saved [] a.db;
}

outage_cached :
    (force : Bool) (seconds : ℕ) (e f : Failure) (a : Alexa)
    → (not force && is_cache_valid seconds a) ≡ false
    → get_devices force seconds (raised e) (raised f) a ≡ ([], after_outage seconds a)
unfolding get_devices
outage_cached force seconds e f a h = rw h refl

outage_kept :
    (seconds later : ℕ) (web : Outcome (List Entity)) (skill : Outcome (List Endpoint)) (a : Alexa)
    → ltb (later - seconds) 300 ≡ true
    → (get_devices false later web skill (after_outage seconds a)).0 ≡ []
unfolding get_devices is_cache_valid
outage_kept seconds later web skill a h = rw h refl

-- If the cache is not used and both the web API and the skill fail, there are no devices, without an
-- error, and for five minutes there are none whatever the two would answer by then, unless a refresh
-- is forced.
pub get_devices_outage :
    (force : Bool) (seconds later : ℕ) (e f : Failure) (web : Outcome (List Entity))
    (skill : Outcome (List Endpoint)) (a : Alexa)
    → (not force && is_cache_valid seconds a) ≡ false
    → ltb (later - seconds) 300 ≡ true
    → ((get_devices force seconds (raised e) (raised f) a).0 ≡ [])
      × ((get_devices false later web skill (get_devices force seconds (raised e) (raised f) a).1).0
          ≡ [])
get_devices_outage force seconds later e f web skill a h l = (
  ap (λ r. r.0) (outage_cached force seconds e f a h),
  ap (λ r. (get_devices false later web skill r.1).0) (outage_cached force seconds e f a h)
      ∙ outage_kept seconds later web skill a l,
)

-- The table has a row of the endpoint, without a state.
unfoldable pub IsForgotten : Text → Dict Row → Type 0
IsForgotten id rows = (row : Row) × ((get id rows ≡ some row) × (row.last_state ≡ none))

row_of : Device → Row
row_of d = record {
  friendly_name = d.friendly_name;
  description = d.description;
  manufacturer = d.manufacturer;
  model = d.model;
  device_type = d.device_type;
  capabilities = d.capabilities;
  is_echo_device = d.is_echo_device;
  last_state = none;
  state_updated_at = none;
}

save-get :
    (d : Device) (rows : Dict Row) (id : Text)
    → get id (save_device_to_db d rows)
      ≡ (if text_eq d.endpoint_id id then some (row_of d) else get id rows)
unfolding save_device_to_db row_of
save-get d rows id = get-put d.endpoint_id id (row_of d) rows

saved-IsForgotten :
    (d : Device) (rows : Dict Row) → IsForgotten d.endpoint_id (save_device_to_db d rows)
unfolding IsForgotten row_of
saved-IsForgotten d rows =
    (row_of d, (save-get d rows d.endpoint_id ∙ rw (text_eq_refl d.endpoint_id) refl, refl))

kept-IsForgotten :
    (d : Device) (rows : Dict Row) (id : Text)
    → IsForgotten id rows
    → IsForgotten id (save_device_to_db d rows)
unfolding IsForgotten row_of
kept-IsForgotten d rows id (row, (g, n)) = elim (Bool-cases (text_eq d.endpoint_id id)) [
  | inl e ↦ (row_of d, (save-get d rows id ∙ rw e refl, refl))
  | inr e ↦ (row, (save-get d rows id ∙ rw e g, n))
]

all_kept :
    (ds : List Device) (rows : Dict Row) (id : Text)
    → IsForgotten id rows
    → IsForgotten id (save_all ds rows)
unfolding save_all
all_kept [] rows id f = f
all_kept (d ∷ ds) rows id f =
    all_kept ds (save_device_to_db d rows) id (kept-IsForgotten d rows id f)

-- Saving the devices that a refresh found leaves the row of each of them without a state, also where
-- it had one.
pub save_all-IsForgotten :
    (ds : List Device) (rows : Dict Row) (id : Text)
    → any (has_endpoint id) ds ≡ true
    → IsForgotten id (save_all ds rows)
unfolding save_all any
save_all-IsForgotten [] rows id h = absurd (ground (arith, h))
save_all-IsForgotten (d ∷ ds) rows id h = elim (Bool-cases (has_endpoint id d)) [
  | inl e ↦ all_kept ds (save_device_to_db d rows) id (
      subst (λ k. IsForgotten k (save_device_to_db d rows)) ((text_eq_iff d.endpoint_id id).0 e)
        (saved-IsForgotten d rows))
  | inr e ↦ save_all-IsForgotten ds (save_device_to_db d rows) id (ground (arith, h, e))
]
