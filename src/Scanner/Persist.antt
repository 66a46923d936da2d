-- ===== src/Scanner/Persist.antt =====
-- Step 4 of `scan_and_update`: the merged devices go into the database.
use homesentinel.Prelude.{
  suc, Text, text_eq, is_set, is_empty, Bool, true, false, ◌&&◌, not, Option, none, some, [], ◌++◌,
  Dict, if◌then◌else◌, codes, Action, Outcome, return, ◌>>=◌, ◌>>◌, for_each,
}
use homesentinel.Db.Schema.{Device}
use homesentinel.Db.Devices.{get_by_mac}
use homesentinel.Mac.{or_blank}
use homesentinel.Scanner.Sources.{Merged, Source, arp, dhcp, chester}
use homesentinel.Scanner.State.{
  World, Results, Env, on_store, count_result, see, require, create_or_update_device,
  set_friendly_name, populate_vendor, record_device_event,
}

abbrev pub source_name : Source → Text
source_name arp = codes "arp"
source_name dhcp = codes "dhcp"
source_name chester = codes "chester"

-- `when c: m`
abbrev pub when : {S : Type 0} → Bool → (S → Outcome Unit × S) → S → Outcome Unit × S
when true m = m
when false m = return tt

abbrev pub added : Results → Results
added r = record r { devices_added = suc r.devices_added }

abbrev pub updated : Results → Results
updated r = record r { devices_updated = suc r.devices_updated }

-- `hostname and hostname != existing.get('hostname')`
abbrev pub hostname_new : Option Text → Option Text → Bool
hostname_new none old = false
hostname_new (some h) none = not (is_empty h)
hostname_new (some h) (some old) = not (is_empty h) && not (text_eq h old)

unfoldable pub describe_new : Merged → Text
describe_new m =
    codes "New device discovered ("
    ++ (source_name m.source
        ++ (codes "): "
            ++ (m.mac
                ++ ((if is_empty m.ip then [] else codes " (" ++ (m.ip ++ codes ")"))
                    ++ (if is_set m.hostname
                        then codes " [" ++ (or_blank m.hostname ++ codes "]")
                        else [])))))

module _ (env : Env) where
  -- A device that the database knows.
  unfoldable pub persist_existing : Merged → Device → Action World Unit
  unfolding create_or_update_device set_friendly_name
  persist_existing m existing = do
    create_or_update_device env m.mac (some m.ip)
    when (hostname_new m.hostname existing.hostname)
        (set_friendly_name env existing.device_id (or_blank m.hostname) >> return tt)
    count_result updated

  -- A device that it does not know.
  unfoldable pub persist_new : Merged → Action World Unit
  unfolding create_or_update_device set_friendly_name populate_vendor record_device_event
      describe_new
  persist_new m = do
    created ← create_or_update_device env m.mac (some m.ip)
    device ← require created
    when (is_set m.hostname)
        (set_friendly_name env device.device_id (or_blank m.hostname) >> return tt)
    populate_vendor env device.device_id m.mac
    count_result added
    record_device_event env device.device_id (codes "new_device") (some (describe_new m))

  abbrev pub persist_found : Merged → Option Device → Action World Unit
  persist_found m none = persist_new m
  persist_found m (some existing) = persist_existing m existing

  -- The body of the loop.
  unfoldable pub persist_one : Text × Merged → Action World Unit
  unfolding persist_existing persist_new on_store get_by_mac
  persist_one entry = do
    existing ← on_store (get_by_mac entry.1.mac)
    persist_found entry.1 existing
    see entry.1.mac

  unfoldable pub persist_all : Dict Merged → Action World Unit
  unfolding persist_one for_each
  persist_all merged = for_each merged persist_one
