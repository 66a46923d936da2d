-- ===== src/Scenarios/Polling.antt =====
-- The theorems about the poller, on a turn at home and one away.
use homesentinel.Prelude.{true, false, none, []}
use homesentinel.Db.Schema.{isoformat}
use homesentinel.Poller.{Poller, Turn, answered, silent}
use homesentinel.Scenarios.{environment, before_deco_scan, quiet_network, today}

abbrev poller : Poller
poller = record {
  world = before_deco_scan;
  polling_interval = 60;
  is_running = true;
  has_task = true;
  last_scan_time = none;
  scan_count = 0;
  last_error = none;
  is_home = false;
  home_method = [];
  auto_scan_paused = false;
}

abbrev home_turn : Turn
home_turn = record {
  env = environment;
  inputs = quiet_network;
  ping = answered true;
  finished = isoformat today;
}

abbrev away_turn : Turn
away_turn = record home_turn { ping = silent }
