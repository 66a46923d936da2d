-- ===== src/Scanner/State.antt =====
-- The state that a scan reads and changes, and the effects that its parts share.
use homesentinel.Prelude.{
  ℕ, suc, Text, text_eq, is_set, Bool, ◌&&◌, not, Option, none, some, List, [], ◌∷◌, ◌++◌, any,
  Dict, if◌then◌else◌, codes, Action, Outcome, ok, Failure, runtime_error, return, raise, ◌>>=◌,
  ◌>>◌, attempt,
}
use homesentinel.Db.Schema.{Store, Device, Moment, isoformat}
use homesentinel.Db.Devices.{create_or_update, update_device_metadata, no_metadata}
use homesentinel.Events.{record_event, create_alert}
use homesentinel.Oui.{Oui, lookup_vendor, unknown_vendor}

-- A parsed URL: scheme, host and port.
pub record Endpoint : Type 0 where
  pub scheme : Text
  pub hostname : Text
  pub port : Option ℕ

-- The Deco client's addresses.
pub record Deco : Type 0 where
  pub local_endpoint : Endpoint
  pub active_endpoint : Endpoint
  pub use_cloud : Bool
  pub node_endpoints : Dict Text

-- `scan_results`
pub record Results : Type 0 where
  pub devices_found : ℕ
  pub devices_added : ℕ
  pub devices_updated : ℕ
  pub devices_offline : ℕ
  pub deco_online : ℕ
  pub dhcp_devices : ℕ
  pub warning : Bool
  pub error : Option Failure

-- The service, the database, and the local variables of `scan_and_update`. `drawn` counts the
-- random ids drawn so far, `saved_endpoint` is that of the stored Deco credentials, if there are any.
pub record World : Type 0 where
  pub store : Store
  pub oui : Oui
  pub drawn : ℕ
  pub deco : Option Deco
  pub saved_endpoint : Option Endpoint
  pub deco_master_mac : Option Text
  pub deco_node_macs : List Text
  pub online_macs : List Text
  pub results : Results

-- The standard library's `uuid5` of a MAC, the nth `uuid4`, base64 decoding, whether an event service
-- is set, and the moment of the scan.
pub record Env : Type 0 where
  pub uuid5 : Text → Text
  pub uuid4 : ℕ → Text
  pub decode_nickname : Text → Option Text
  pub has_event_service : Bool
  pub now : Moment

abbrev pub stamp : Env → Text
stamp env = isoformat env.now

-- An action on the database.
unfoldable pub on_store : {A : Type 0} → (Store → Outcome A × Store) → Action World A
on_store m w = ((m w.store).0, record w { store = (m w.store).1 })

abbrev pub count_result : (Results → Results) → Action World Unit
count_result f w = (ok tt, record w { results = f w.results })

-- `online_macs.add(mac)`
unfoldable pub add_mac : Text → List Text → List Text
add_mac mac macs = if any (text_eq mac) macs then macs else macs ++ mac ∷ []

abbrev pub see : Text → Action World Unit
see mac w = (ok tt, record w { online_macs = add_mac mac w.online_macs })

-- `device['device_id']` of a device that is not there is a TypeError.
abbrev pub require : Option Device → Action World Device
require none = raise runtime_error
require (some d) = return d

-- The alert that an event of this type raises
abbrev pub alert_for : Text → Option Text
alert_for kind =
    if text_eq kind (codes "new_device")
    then some (codes "new_device")
    else (if text_eq kind (codes "disconnected") then some (codes "device_offline") else none)

module _ (env : Env) where
  -- `create_or_update_device`
  unfoldable pub create_or_update_device : Text → Option Text → Action World (Option Device)
  unfolding on_store
  create_or_update_device mac ip = on_store (create_or_update (env.uuid5 mac) mac ip (stamp env))

  -- `update_device_metadata(device_id, friendly_name=name)`
  unfoldable pub set_friendly_name : Text → Text → Action World (Option Device)
  unfolding on_store
  set_friendly_name device_id name = on_store (
      update_device_metadata device_id (record no_metadata { friendly_name = some name })
        (stamp env))

  -- `update_device_metadata(device_id, vendor_name=vendor)`
  unfoldable pub set_vendor_name : Text → Text → Action World (Option Device)
  unfolding on_store
  set_vendor_name device_id vendor = on_store (
      update_device_metadata device_id (record no_metadata { vendor_name = some vendor })
        (stamp env))

  -- The vendor of a new device, from the OUI database.
  unfoldable pub populate_vendor : Text → Text → Action World Unit
  unfolding set_vendor_name
  populate_vendor device_id mac w =
      let (vendor, oui) = lookup_vendor mac w.oui in
      let w' = record w { oui = oui } in
      if is_set (some vendor) && not (text_eq vendor unknown_vendor)
      then (set_vendor_name device_id vendor >> return tt) w'
      else return tt w'

  -- `str(uuid.uuid4())`
  abbrev pub draw : Action World Text
  draw w = (ok (env.uuid4 w.drawn), record w { drawn = suc w.drawn })

  abbrev pub raise_alert : Text → Text → Option Text → Action World Unit
  raise_alert device_id event_id none = return tt
  raise_alert device_id event_id (some alert_type) = do
    alert_id ← draw
    on_store (create_alert alert_id device_id event_id alert_type env.now)
    return tt

  -- The body of the `try` of `_record_device_event`.
  unfoldable pub event_and_alert : Text → Text → Option Text → Action World Unit
  unfolding on_store
  event_and_alert device_id event_type description = do
    event_id ← draw
    on_store (record_event event_id device_id event_type description none env.now)
    raise_alert device_id event_id (alert_for event_type)

  -- `_record_device_event`: no exception leaves it.
  unfoldable pub record_device_event : Text → Text → Option Text → Action World Unit
  unfolding event_and_alert
  record_device_event device_id event_type description =
      if not env.has_event_service
      then return tt
      else attempt (event_and_alert device_id event_type description) (λ e. return tt)
