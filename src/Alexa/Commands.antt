-- ===== src/Alexa/Commands.antt =====
-- `send_command`: the request that a command becomes. Numbers that are no integers are left out,
-- so that the saturation and the brightness of a colour are given as values.
use homesentinel.Prelude.{
  Text, text_eq, Bool, true, false, none, some, get, if◌then◌else◌, Outcome, ok, raised,
  value_error, codes,
}
use homesentinel.Deco.Values.{pos, Value, number, text, Object}

pub data Request : Type 0 where
  send_power_command : Text → Bool → Request
  set_brightness : Text → Value → Request
  set_color : Text → Value → Value → Value → Request
  set_color_temperature : Text → Value → Request
  set_thermostat : Text → Value → Value → Request
  set_thermostat_mode : Text → Value → Request
  send_lock_command : Text → Bool → Request

abbrev pub param : Object → Text → Value → Value
param params key d = elim (get key params) [ none ↦ d | some v ↦ v ]

-- `send_command`; `one` is the number 1.0.
unfoldable pub send_command : Value → Text → Text → Object → Outcome Request
send_command one id command params =
    if text_eq command (codes "power_on")
    then ok (send_power_command id true)
    else if text_eq command (codes "power_off")
    then ok (send_power_command id false)
    else if text_eq command (codes "set_brightness")
    then ok (set_brightness id (param params (codes "brightness") (number (pos 100))))
    else if text_eq command (codes "set_color")
    then ok (
        set_color id (param params (codes "hue") (number (pos 0)))
          (param params (codes "saturation") one) (param params (codes "brightness") one))
    else if text_eq command (codes "set_color_temperature")
    then ok (set_color_temperature id (param params (codes "temperature") (number (pos 2700))))
    else if text_eq command (codes "set_thermostat")
    then ok (
        set_thermostat id (param params (codes "temperature") (number (pos 72)))
          (param params (codes "scale") (text (codes "FAHRENHEIT"))))
    else if text_eq command (codes "set_thermostat_mode")
    then ok (set_thermostat_mode id (param params (codes "mode") (text (codes "AUTO"))))
    else if text_eq command (codes "lock")
    then ok (send_lock_command id true)
    else if text_eq command (codes "unlock")
    then ok (send_lock_command id false)
    else raised value_error
