-- ===== src/Scenarios/Voice.antt =====
-- An outage of the Alexa API, and a table with a stored state, with the claims about them.
use homesentinel.Prelude.{
  ◌≡◌, refl, text_eq, false, none, some, [], ◌∷◌, any, codes, ok, raised, external_error, Failure,
}
use homesentinel.Alexa.Devices.{Entity, web_device}
use homesentinel.Alexa.Service.{Row, Alexa, is_cache_valid, get_devices, save_all}
use homesentinel.Alexa.Outage.{get_devices_outage, IsForgotten, save_all-IsForgotten}

abbrev empty_service : Alexa
empty_service = record { devices_cache = none; cache_time = 0; db = some [] }

abbrev lamp : Entity
lamp = record {
  id = some (codes "lamp");
  display_name = some (codes "Lamp");
  description = none;
  availability = some (codes "AVAILABLE");
  provider_type = some (codes "LIGHT");
  category_type = none;
  supported_operations = some (codes "turnOn") ∷ [];
}

abbrev timeout : Failure
timeout = external_error (codes "timeout")

get_devices_outage_example :
    ((get_devices false 1000 (raised timeout) (raised timeout) empty_service).0 ≡ [])
    × ((get_devices false 1200
          (ok (lamp ∷ []))
          (ok [])
          (get_devices false 1000 (raised timeout) (raised timeout) empty_service).1).0
        ≡ [])
unfolding is_cache_valid
get_devices_outage_example =
    get_devices_outage false 1000 1200 timeout timeout (ok (lamp ∷ [])) (ok []) empty_service refl
      refl

abbrev stored : Row
stored = record {
  friendly_name = codes "Lamp";
  description = [];
  manufacturer = [];
  model = codes "LIGHT";
  device_type = codes "light";
  capabilities = [];
  is_echo_device = false;
  last_state = some [];
  state_updated_at = some (codes "2026-10-14");
}

save_all-IsForgotten_example :
    IsForgotten (codes "lamp") (save_all (web_device lamp ∷ []) ((codes "lamp", stored) ∷ []))
unfolding any web_device text_eq
save_all-IsForgotten_example =
    save_all-IsForgotten (web_device lamp ∷ []) ((codes "lamp", stored) ∷ []) (codes "lamp") refl
