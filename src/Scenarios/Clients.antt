-- ===== src/Scenarios/Clients.antt =====
-- The theorems about the correlation, on a client of the household and one that is not.
use Prim.Native.Nat.{◌+◌}
use homesentinel.Prelude.{◌≡◌, Text, false, none, some, List, [], ◌∷◌, All, length, codes}
use homesentinel.Db.Schema.{isoformat}
use homesentinel.Db.Integrity.{IsSound}
use homesentinel.Correlation.{
  Client, Link, correlate_by_mac, sync_network_friendly_names_from_alexa,
}
use homesentinel.Correlation.Names.{sync_network_friendly_names_from_alexa_counts}
use homesentinel.Correlation.Pairs.{correlate_by_mac-Matches, Matches}
use homesentinel.Scenarios.{household, household-IsSound, today}

abbrev client : Text → Client
client mac = record {
  mac = some mac;
  mac_alias = none;
  name = some (codes "Echo");
  name_alias = none;
  plain_name = none;
}

abbrev clients : List Client
clients = client (codes "AA-BB-CC-DD-EE-01") ∷ client (codes "AA-BB-CC-DD-EE-09") ∷ []

correlate_by_mac-Matches_example :
    All Matches (correlate_by_mac clients household.devices).merged_devices
correlate_by_mac-Matches_example = correlate_by_mac-Matches clients household.devices

abbrev links : List Link
links =
    record {
      network_device_id = some (codes "d1");
      alexa_name = some (codes " Kitchen Echo ");
      network_name = none;
    }
    ∷ record { network_device_id = none; alexa_name = some (codes "Lamp"); network_name = none }
    ∷ []

sync_network_friendly_names_from_alexa_counts_example :
    let (r, s') = sync_network_friendly_names_from_alexa false (isoformat today) links household in
    (r.updated + r.skipped_existing + r.skipped_missing + r.failed ≡ length links) × IsSound s'
sync_network_friendly_names_from_alexa_counts_example =
    sync_network_friendly_names_from_alexa_counts false (isoformat today) links household
      household-IsSound
