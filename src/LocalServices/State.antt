-- ===== src/LocalServices/State.antt =====
-- Configurations, listeners, services and the two tables of the monitor. A table has its newest
-- row first, with the id that AUTOINCREMENT gave it.
use homesentinel.Prelude.{ℕ, Text, Bool, Option, List, Dict, codes}

-- What stands under a key such as `restart_argv`: not a list, or a list in which `none` is a part
-- that is not a text.
pub data Argv : Type 0 where
  not_a_list : Argv
  parts : List (Option Text) → Argv

pub record Config : Type 0 where
  pub id : Text
  pub name : Text
  pub port : ℕ
  pub health_url : Option Text
  pub argvs : Dict Argv

pub record Listener : Type 0 where
  pub pid : ℕ
  pub process : Text
  pub bind_address : Text
  pub port : ℕ

pub data Status : Type 0 where
  healthy degraded down listening : Status

abbrev pub status_text : Status → Text
status_text healthy = codes "healthy"
status_text degraded = codes "degraded"
status_text down = codes "down"
status_text listening = codes "listening"

-- Times are in tenths of a millisecond, as `_check_health` rounds them.
pub record Sample : Type 0 where
  pub id : ℕ
  pub service_id : Text
  pub status : Status
  pub response_time_ms : Option ℕ
  pub connection_count : ℕ
  pub sampled_at : Text

pub record Event : Type 0 where
  pub id : ℕ
  pub service_id : Text
  pub event_type : Text
  pub old_status : Option Status
  pub new_status : Status
  pub detail : Option Text
  pub created_at : Text

pub record Service : Type 0 where
  pub id : Text
  pub name : Text
  pub port : ℕ
  pub status : Status
  pub pid : Option ℕ
  pub process : Option Text
  pub bind_address : Option Text
  pub response_time_ms : Option ℕ
  pub health_error : Option Text
  pub expected : Bool
  pub controllable : Bool
  pub history : List Sample
  pub last_changed : Option Text

pub record Tables : Type 0 where
  pub samples : List Sample
  pub events : List Event
  pub last_sample : ℕ
  pub last_event : ℕ

-- The monitor's configuration, the environment variable that enables controls, the health check,
-- and the clock's CURRENT_TIMESTAMP
pub record Monitor : Type 0 where
  pub configs : List Config
  pub controls_enabled : Text
  pub health_checker : Text → Bool × (ℕ × Option Text)
  pub retention : ℕ
  pub now : Text
