-- ===== src/Scanner/Transitions.antt =====
-- The state transitions at the end of `scan_and_update`.
use homesentinel.Prelude.{
  suc, Text, text_eq, is_set, any, Bool, true, false, not, some, List, [], ◌∷◌, ◌++◌, if◌then◌else◌,
  codes, Action, ◌>>◌, for_each,
}
use homesentinel.Db.Schema.{Device, online, offline}
use homesentinel.Db.Devices.{mark_offline, mark_online, list_by_status}
use homesentinel.Mac.{or_blank}
use homesentinel.Scanner.State.{
  World, Results, Env, on_store, stamp, count_result, record_device_event,
}
use homesentinel.Scanner.Persist.{when}

abbrev pub known_as : Device → Text
known_as d = if is_set d.friendly_name then or_blank d.friendly_name else d.mac_address

abbrev pub gone_offline : Results → Results
gone_offline r = record r { devices_offline = suc r.devices_offline }

abbrev pub is_seen : List Text → Device → Bool
is_seen macs d = any (text_eq d.mac_address) macs

abbrev pub is_nil : List Text → Bool
is_nil [] = true
is_nil (m ∷ ms) = false

module _ (env : Env) where
  unfoldable pub take_down : Device → Action World Unit
  unfolding on_store record_device_event
  take_down d = do
    on_store (mark_offline d.device_id (stamp env))
    count_result gone_offline
    record_device_event env d.device_id (codes "disconnected")
        (some (codes "Device went offline (was " ++ (known_as d ++ codes ")")))

  -- A device that was online: it goes offline unless it was seen.
  unfoldable pub leave : Device → Action World Unit
  unfolding take_down
  leave d w = when (not (is_seen w.online_macs d)) (take_down d) w

  unfoldable pub bring_up : Device → Action World Unit
  unfolding on_store record_device_event
  bring_up d = do
    on_store (mark_online d.device_id (stamp env))
    record_device_event env d.device_id (codes "connected")
        (some (codes "Device came online (was " ++ (known_as d ++ codes ")")))

  -- A device that was offline: it comes online if it was seen.
  unfoldable pub arrive : Device → Action World Unit
  unfolding bring_up
  arrive d w = when (is_seen w.online_macs d) (bring_up d) w

  unfoldable pub leave_all : Action World Unit
  unfolding leave for_each
  leave_all w = for_each (list_by_status online w.store) leave w

  unfoldable pub arrive_all : Action World Unit
  unfolding arrive for_each
  arrive_all w = for_each (list_by_status offline w.store) arrive w

  -- Without a single device seen, the transitions are skipped, with a warning.
  unfoldable pub transitions : Action World Unit
  unfolding leave_all arrive_all
  transitions w =
      if is_nil w.online_macs
      then count_result (λ r. record r { warning = true }) w
      else (leave_all >> arrive_all) w
