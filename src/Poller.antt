-- ===== src/Poller.antt =====
-- backend/services/polling_service.py: `check_home_network`, `BackgroundPoller` and
-- `PollingServiceManager`. A run of the loop of `_polling_loop` is a step; the waiting in between, the
-- task of asyncio and the publishing of results are not modelled. Intervals are natural numbers: the
-- code refuses the negative ones as it refuses zero.
pub mod Laws
use homesentinel.Prelude.{
  ℕ, suc, leb, Text, Bool, true, false, not, ◌&&◌, Option, none, some, List, [], ◌∷◌, if◌then◌else◌,
  codes, Action, Outcome, ok, raised, Failure, value_error, runtime_error,
}
use homesentinel.Scanner.State.{World, Env}
use homesentinel.Scanner.Scan.{Inputs, scan_and_update}

-- What `ping` gives: no answer, an answer without a readable latency, or one, and whether that is
-- below `HOME_LATENCY_MS`.
pub data Ping : Type 0 where
  silent unparseable : Ping
  answered : Bool → Ping

pub record HomeStatus : Type 0 where
  pub is_home : Bool
  pub method : Text

-- `check_home_network`, less its texts of detail
unfoldable pub check_home_network : Ping → HomeStatus
check_home_network silent = record { is_home = false; method = codes "none" }
check_home_network unparseable = record { is_home = false; method = codes "gateway" }
check_home_network (answered near) = record { is_home = near; method = codes "gateway" }

-- The poller, over the world of the device service.
pub record Poller : Type 0 where
  pub world : World
  pub polling_interval : ℕ
  pub is_running : Bool
  pub has_task : Bool
  pub last_scan_time : Option Text
  pub scan_count : ℕ
  pub last_error : Option Text
  pub is_home : Bool
  pub home_method : Text
  pub auto_scan_paused : Bool

-- `set_interval`
unfoldable pub set_polling_interval : ℕ → Action Poller Unit
set_polling_interval interval_seconds p =
    if leb interval_seconds 0
    then (raised value_error, p)
    else (ok tt, record p { polling_interval = interval_seconds })

-- `start`
unfoldable pub start_polling : Poller → Poller
start_polling p = if p.is_running then p else record p { is_running = true; has_task = true }

-- `stop`
unfoldable pub stop_polling : Poller → Poller
stop_polling p = record p { is_running = false }

-- What one turn of the loop meets.
pub record Turn : Type 0 where
  pub env : Env
  pub inputs : Inputs
  pub ping : Ping
  pub finished : Text

-- `_perform_scan`: `scan_and_update` does not raise.
unfoldable pub perform_scan : Turn → Poller → Poller
perform_scan t p = record p {
  world = scan_and_update t.env t.inputs p.world;
  last_scan_time = some t.finished;
  scan_count = suc p.scan_count;
  last_error = none;
}

abbrev pub scan_if : Bool → Bool → Turn → Poller → Poller
scan_if paused home t p = if paused then p else (if home then perform_scan t p else p)

-- One turn of `_polling_loop`
unfoldable pub polling_turn : Turn → Poller → Poller
unfolding perform_scan check_home_network
polling_turn t p =
    let status = check_home_network t.ping in
    if not p.is_running
    then p
    else scan_if p.auto_scan_paused status.is_home t
        (record p { is_home = status.is_home; home_method = status.method })

-- `PollingServiceManager`: `none` is a manager without a poller.
unfoldable pub manager_set_interval : ℕ → Action (Option Poller) Unit
unfolding set_polling_interval
manager_set_interval n none = (raised runtime_error, none)
manager_set_interval n (some p) = ((set_polling_interval n p).0, some (set_polling_interval n p).1)

unfoldable pub manager_start : Action (Option Poller) Unit
unfolding start_polling
manager_start none = (raised runtime_error, none)
manager_start (some p) = (ok tt, some (start_polling p))

unfoldable pub manager_stop : Action (Option Poller) Unit
unfolding stop_polling
manager_stop none = (ok tt, none)
manager_stop (some p) = (ok tt, some (stop_polling p))
