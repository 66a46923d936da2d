-- ===== src/Retention.antt =====
-- backend/services/retention_cleanup.py (`RetentionCleanupService`) and
-- backend/services/retention_scheduler.py (`RetentionScheduler`). `ago days` is the moment that
-- many days before now. APScheduler is a parameter: whether building and starting it raises.
pub mod Cutoff
pub mod Laws
pub mod Whole
use homesentinel.Prelude.{
  ℕ, Text, text_ltb, Bool, true, false, not, ◌&&◌, Option, none, some, List, delete, count, length,
  ◌+◌, if◌then◌else◌, Failure,
}
use homesentinel.Db.Schema.{Event, Alert, Store, Moment, isoformat}
use homesentinel.Db.Events.{purge_events, older}

pub record Cleanup : Type 0 where
  pub rows_deleted : ℕ
  pub cutoff_date : Text
  pub retention_days : ℕ

-- `days` or, for `None`, the service's own setting.
abbrev pub days_or : Option ℕ → ℕ → ℕ
days_or none own = own
days_or (some days) own = days

-- `cleanup_old_events`
unfoldable pub cleanup_old_events : ℕ → (ℕ → Moment) → Option ℕ → Store → Cleanup × Store
unfolding purge_events
cleanup_old_events own ago days s =
    let cutoff = isoformat (ago (days_or days own)) in
    (
      record {
        rows_deleted = count (older cutoff) s.events;
        cutoff_date = cutoff;
        retention_days = days_or days own;
      },
      purge_events (older cutoff) s,
    )

-- `dismissed_at < ?` is not true of NULL.
unfoldable pub dismissed_before : Text → Option Text → Bool
dismissed_before cutoff none = false
dismissed_before cutoff (some t) = text_ltb t cutoff

unfoldable pub stale_alert : Text → Alert → Bool
unfolding dismissed_before
stale_alert cutoff a = a.dismissed && dismissed_before cutoff a.dismissed_at

-- `cleanup_old_alerts`
unfoldable pub cleanup_old_alerts : ℕ → (ℕ → Moment) → Option ℕ → Store → Cleanup × Store
unfolding stale_alert
cleanup_old_alerts own ago days s =
    let cutoff = isoformat (ago (days_or days own)) in
    (
      record {
        rows_deleted = count (stale_alert cutoff) s.alerts;
        cutoff_date = cutoff;
        retention_days = days_or days own;
      },
      record s { alerts = delete (stale_alert cutoff) s.alerts },
    )

pub record CleanupAll : Type 0 where
  pub events : Cleanup
  pub alerts : Cleanup
  pub total_rows_deleted : ℕ
  pub retention_days : ℕ

-- `cleanup_all`: the events first, then the alerts.
unfoldable pub cleanup_all : ℕ → (ℕ → Moment) → Option ℕ → Store → CleanupAll × Store
unfolding cleanup_old_events cleanup_old_alerts
cleanup_all own ago days s =
    let d = days_or days own in
    let (events, s₁) = cleanup_old_events own ago (some d) s in
    let (alerts, s₂) = cleanup_old_alerts own ago (some d) s₁ in
    (
      record {
        events = events;
        alerts = alerts;
        total_rows_deleted = events.rows_deleted + alerts.rows_deleted;
        retention_days = d;
      },
      s₂,
    )

pub record RetentionStats : Type 0 where
  pub total_events : ℕ
  pub events_to_cleanup : ℕ
  pub active_alerts : ℕ
  pub dismissed_alerts : ℕ
  pub dismissed_alerts_to_cleanup : ℕ

-- `get_retention_stats`
unfoldable pub get_retention_stats : ℕ → (ℕ → Moment) → Store → RetentionStats
unfolding stale_alert
get_retention_stats own ago s =
    let cutoff = isoformat (ago own) in
    record {
      total_events = length s.events;
      events_to_cleanup = count (older cutoff) s.events;
      active_alerts = count (λ a. not a.dismissed) s.alerts;
      dismissed_alerts = count (λ a. a.dismissed) s.alerts;
      dismissed_alerts_to_cleanup = count (stale_alert cutoff) s.alerts;
    }

-- The scheduler's own state, over the database.
pub record Scheduler : Type 0 where
  pub store : Store
  pub retention_days : ℕ
  pub has_scheduler : Bool
  pub is_running : Bool
  pub last_cleanup : Option Text
  pub cleanup_stats : Option CleanupAll

-- `_cleanup_task`; `now` is the text of the moment.
unfoldable pub cleanup_task : (ℕ → Moment) → Text → Scheduler → Scheduler
unfolding cleanup_all
cleanup_task ago now r =
    let (result, store) = cleanup_all r.retention_days ago (some r.retention_days) r.store in
    record r { store = store; last_cleanup = some now; cleanup_stats = some result }

-- `start`; `builds` and `starts` say that making and starting the APScheduler scheduler do not raise.
unfoldable pub start : Bool → Bool → (ℕ → Moment) → Text → Scheduler → Bool × Scheduler
unfolding cleanup_task
start builds starts ago now r =
    if r.is_running
    then (false, r)
    else (if not builds
        then (false, record r { is_running = false })
        else (if starts
            then (true, cleanup_task ago now (record r { has_scheduler = true; is_running = true }))
            else (false, record r { has_scheduler = true; is_running = false })))

-- `stop`; `stops` says that the shutdown does not raise.
unfoldable pub stop : Bool → Scheduler → Bool × Scheduler
stop stops r =
    if not r.is_running
    then (false, r)
    else (if not r.has_scheduler
        then (false, r)
        else (if stops then (true, record r { is_running = false }) else (false, r)))
