-- ===== src/Alexa/Devices.antt =====
-- `_normalize_web_appliances`, the two classifications, `_parse_state` and `send_command`.
use homesentinel.Prelude.{
  Text, text_eq, upper, Bool, true, false, not, ◌||◌, Option, none, some, List, [], ◌∷◌, ◌++◌, map,
  any, Dict, get, if◌then◌else◌, codes,
}
use homesentinel.Deco.Values.{pos, Value, number, text, structure, Object}

-- `d.get(key, default)`
abbrev pub or_text : Option Text → Text → Text
or_text none d = d
or_text (some s) d = s

-- An entity of the web API
pub record Entity : Type 0 where
  pub id : Option Text
  pub display_name : Option Text
  pub description : Option Text
  pub availability : Option Text
  pub provider_type : Option Text
  pub category_type : Option Text
  -- An operation that is no text is `none`.
  pub supported_operations : List (Option Text)

-- An endpoint of the skill's discovery, with the interfaces of its capabilities
pub record Endpoint : Type 0 where
  pub endpoint_id : Option Text
  pub friendly_name : Option Text
  pub description : Option Text
  pub manufacturer_name : Option Text
  pub model_name : Option Text
  pub model : Option Text
  pub interfaces : List (Option Text)
  pub display_categories : List Text

pub record Device : Type 0 where
  pub endpoint_id : Text
  pub friendly_name : Text
  pub description : Text
  pub manufacturer : Text
  pub model : Text
  pub device_type : Text
  pub capabilities : List Text
  pub is_echo_device : Bool
  pub display_categories : List Text
  pub last_state : Option (Dict Object)
  pub state_updated_at : Option Text
  pub is_stale : Bool
  pub parsed_state : Object

unfoldable pub appliance_types : Dict Text
appliance_types =
    (codes "LIGHT", codes "light")
    ∷ (codes "SMARTPLUG", codes "plug")
    ∷ (codes "SWITCH", codes "plug")
    ∷ (codes "THERMOSTAT", codes "thermostat")
    ∷ (codes "TEMPERATURE_SENSOR", codes "thermostat")
    ∷ (codes "SMARTLOCK", codes "lock")
    ∷ (codes "LOCK", codes "lock")
    ∷ (codes "CAMERA", codes "camera")
    ∷ (codes "DOORBELL", codes "camera")
    ∷ (codes "SPEAKER", codes "echo")
    ∷ (codes "ECHO", codes "echo")
    ∷ (codes "HUB", codes "hub")
    ∷ (codes "SCENE_TRIGGER", codes "scene")
    ∷ (codes "ACTIVITY_TRIGGER", codes "scene")
    ∷ (codes "FAN", codes "fan")
    ∷ (codes "CONTACT_SENSOR", codes "sensor")
    ∷ (codes "MOTION_SENSOR", codes "sensor")
    ∷ (codes "TV", codes "tv")
    ∷ (codes "WASHER", codes "washer")
    ∷ (codes "DRYER", codes "dryer")
    ∷ (codes "AIR_CONDITIONER", codes "climate")
    ∷ (codes "SECURITY_PANEL", codes "security")
    ∷ (codes "ALEXA_VOICE_ENABLED", codes "echo")
    ∷ (codes "OTHER", codes "other")
    ∷ []

-- `_classify_from_appliance_type`
unfoldable pub classify_from_appliance_type : Text → Text
unfolding appliance_types
classify_from_appliance_type app_type =
    or_text (get (upper app_type) appliance_types) (codes "other")

abbrev pub has_text : Text → List Text → Bool
has_text s = any (text_eq s)

-- `_classify_device`, by the interfaces and, before them, the display categories
abbrev pub classify_by_interface : List Text → Text
classify_by_interface interfaces =
    if has_text (codes "Alexa.ColorController") interfaces
      || has_text (codes "Alexa.BrightnessController") interfaces
    then codes "light"
    else if has_text (codes "Alexa.ThermostatController") interfaces
    then codes "thermostat"
    else if has_text (codes "Alexa.LockController") interfaces
    then codes "lock"
    else if has_text (codes "Alexa.PowerController") interfaces
    then codes "plug"
    else codes "other"

unfoldable pub classify_device : List Text → List Text → Text
classify_device interfaces display_categories =
    let categories = map upper display_categories in
    if has_text (codes "SPEAKER") categories || has_text (codes "ECHO") categories
    then codes "echo"
    else if has_text (codes "LIGHT") categories
    then codes "light"
    else if has_text (codes "SMARTPLUG") categories || has_text (codes "SWITCH") categories
    then codes "plug"
    else if has_text (codes "THERMOSTAT") categories
        || has_text (codes "TEMPERATURE_SENSOR") categories
    then codes "thermostat"
    else if has_text (codes "SMARTLOCK") categories || has_text (codes "LOCK") categories
    then codes "lock"
    else if has_text (codes "CAMERA") categories
    then codes "camera"
    else classify_by_interface interfaces

-- The operations that are texts
unfoldable pub texts_of : List (Option Text) → List Text
texts_of [] = []
texts_of (none ∷ xs) = texts_of xs
texts_of (some s ∷ xs) = s ∷ texts_of xs

abbrev pub voice_type : Text
voice_type = codes "ALEXA_VOICE_ENABLED"

abbrev pub raw_type : Entity → Text
raw_type e = or_text e.provider_type (codes "OTHER")

abbrev pub is_group : Entity → Bool
is_group e = text_eq (or_text e.category_type (codes "APPLIANCE")) (codes "GROUP")

abbrev pub is_scene : Entity → Bool
is_scene e =
    text_eq (or_text e.category_type (codes "APPLIANCE")) (codes "SCENE")
    || text_eq (raw_type e) (codes "SCENE_TRIGGER")

abbrev pub type_of : Entity → Text
type_of e =
    if text_eq (raw_type e) voice_type
    then codes "echo"
    else classify_from_appliance_type (raw_type e)

unfoldable pub web_device : Entity → Device
unfolding classify_from_appliance_type texts_of
web_device e = record {
  endpoint_id = or_text e.id [];
  friendly_name = or_text e.display_name (codes "Unknown");
  description = or_text e.description [];
  manufacturer = [];
  model = raw_type e;
  device_type = if is_scene e then codes "scene" else type_of e;
  capabilities = texts_of e.supported_operations;
  is_echo_device =
      text_eq (classify_from_appliance_type (raw_type e)) (codes "echo")
      || text_eq (raw_type e) voice_type;
  display_categories = raw_type e ∷ [];
  last_state = none;
  state_updated_at = none;
  is_stale = not (text_eq (or_text e.availability (codes "UNAVAILABLE")) (codes "AVAILABLE"));
  parsed_state = [];
}

-- `_normalize_web_appliances`: groups are no devices.
unfoldable pub normalize_web_appliances : List Entity → List Device
unfolding web_device
normalize_web_appliances [] = []
normalize_web_appliances (e ∷ es) =
    let rest = normalize_web_appliances es in if is_group e then rest else web_device e ∷ rest

-- `c.get("interface", "")`
unfoldable pub interfaces_of : List (Option Text) → List Text
interfaces_of [] = []
interfaces_of (i ∷ is) = or_text i [] ∷ interfaces_of is

-- A device of the skill's discovery
unfoldable pub skill_device : Endpoint → Device
unfolding classify_device interfaces_of
skill_device e =
    let device_type = classify_device (interfaces_of e.interfaces) e.display_categories in
    record {
      endpoint_id = or_text e.endpoint_id [];
      friendly_name = or_text e.friendly_name (codes "Unknown");
      description = or_text e.description [];
      manufacturer = or_text e.manufacturer_name [];
      model = or_text e.model_name (or_text e.model []);
      device_type = device_type;
      capabilities = interfaces_of e.interfaces;
      is_echo_device = text_eq device_type (codes "echo");
      display_categories = e.display_categories;
      last_state = none;
      state_updated_at = none;
      is_stale = true;
      parsed_state = [];
    }

-- A property of a state, under its name, with the default of its value; an empty one is left out.
abbrev pub parsed_as : Text → Value → Option Object → Object
parsed_as name d none = []
parsed_as name d (some []) = []
parsed_as name d (some (p ∷ ps)) =
    (name, elim (get (codes "value") (p ∷ ps)) [ none ↦ d | some v ↦ v ]) ∷ []

abbrev pub no_object : Value
no_object = structure (codes "{}") false

-- `_parse_state`
unfoldable pub parse_state : Dict Object → Object
parse_state state =
    parsed_as (codes "power") (text (codes "OFF"))
      (get (codes "Alexa.PowerController.powerState") state)
    ++ (parsed_as (codes "brightness") (number (pos 0))
          (get (codes "Alexa.BrightnessController.brightness") state)
        ++ (parsed_as (codes "color") no_object (get (codes "Alexa.ColorController.color") state)
            ++ (parsed_as (codes "color_temperature") (number (pos 0))
                  (get (codes "Alexa.ColorTemperatureController.colorTemperatureInKelvin") state)
                ++ (parsed_as (codes "temperature") no_object
                      (get (codes "Alexa.TemperatureSensor.temperature") state)
                    ++ (parsed_as (codes "target_temperature") no_object
                          (get (codes "Alexa.ThermostatController.targetSetpoint") state)
                        ++ (parsed_as (codes "thermostat_mode") (text (codes "OFF"))
                              (get (codes "Alexa.ThermostatController.thermostatMode") state)
                            ++ parsed_as (codes "lock_state") (text (codes "UNLOCKED"))
                                (get (codes "Alexa.LockController.lockState") state)))))))
