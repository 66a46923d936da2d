-- ===== src/Retention/Laws.antt =====
-- What the retention cleanup removes, and what it leaves.
use homesentinel.Prelude.{
  ℕ, zero, suc, ◌+◌, count-delete_none, ◌≡◌, refl, ap, Text, text_eq, text_ltb, text_length, Bool,
  true, false, not, ◌&&◌, ◌||◌, Option, none, List, [], ◌∷◌, ◌++◌, All, All-map, delete, count,
  length, take, arith, length-delete, count-delete_self, count-delete, delete-delete, delete-cong,
  if◌then◌else◌,
}
use homesentinel.Db.Schema.{Event, Alert, Store, Moment, isoformat, current_timestamp}
use homesentinel.Db.Devices.{loses_event}
use homesentinel.Db.Events.{older}
use homesentinel.Db.Integrity.{IsSound}
use homesentinel.Db.Integrity.Events.{purge_events-IsSound, alerts_deleted}
use homesentinel.Retention.Cutoff.{current_timestamp-before-isoformat}
use homesentinel.Retention.{
  days_or, cleanup_old_events, cleanup_old_alerts, cleanup_all, stale_alert, get_retention_stats,
  Scheduler, cleanup_task, start, stop,
}

-- The event was stored by CURRENT_TIMESTAMP, with a date of ten characters.
abbrev pub IsStamped : Event → Type 0
IsStamped e = (t : Moment) × (e.timestamp ≡ current_timestamp t) × (text_length t.date ≡ 10)

pub take_date : (d s : Text) → text_length d ≡ 10 → take 10 (d ++ s) ≡ d
take_date d s h = go 10 d h
  where
    go : (n : ℕ) (d : Text) → text_length d ≡ n → take n (d ++ s) ≡ d
    go zero [] h = refl
    go zero (c ∷ d) h = absurd (omega arith)
    go (suc n) [] h = absurd (omega arith)
    go (suc n) (c ∷ d) h = ap (◌∷◌ c) (go n d (omega arith))

-- The date of a stored timestamp is on or before the cutoff's.
abbrev pub on_or_before : Text → Event → Bool
on_or_before date e = text_ltb (take 10 e.timestamp) date || text_eq (take 10 e.timestamp) date

pub older-IsStamped :
    (cutoff : Moment) (e : Event)
    → text_length cutoff.date ≡ 10
    → IsStamped e
    → older (isoformat cutoff) e ≡ on_or_before cutoff.date e
older-IsStamped cutoff e h (t, stamped, width) =
    rw (stamped, take_date t.date (b' ' ∷ t.clock) width)
      (current_timestamp-before-isoformat t cutoff (omega arith))

-- Where every event has a timestamp as CURRENT_TIMESTAMP writes it and dates have ten characters,
-- the cleanup of events removes exactly the events whose date is on or before the cutoff's date,
-- whatever their time of day.
pub cleanup_old_events_by_date :
    (own : ℕ) (ago : ℕ → Moment) (days : Option ℕ) (s : Store)
    → text_length (ago (days_or days own)).date ≡ 10
    → All IsStamped s.events
    → (cleanup_old_events own ago days s).1.events
      ≡ delete (on_or_before (ago (days_or days own)).date) s.events
unfolding cleanup_old_events
cleanup_old_events_by_date own ago days s h stamped =
    delete-cong _ _ s.events
      (All-map IsStamped _ s.events (λ e. older-IsStamped (ago (days_or days own)) e h) stamped)

-- The number that a cleanup with the default days reports is the number of events that went;
-- get_retention_stats foretells it, and foretells none afterwards.
pub cleanup_old_events_counts :
    (own : ℕ) (ago : ℕ → Moment) (s : Store)
    → let (r, s') = cleanup_old_events own ago none s in
      (length s'.events + r.rows_deleted ≡ length s.events)
      × (r.rows_deleted ≡ (get_retention_stats own ago s).events_to_cleanup)
      × ((get_retention_stats own ago s').events_to_cleanup ≡ 0)
unfolding cleanup_old_events get_retention_stats
cleanup_old_events_counts own ago s = (
  length-delete (older (isoformat (ago own))) s.events,
  refl,
  count-delete_self (older (isoformat (ago own))) s.events,
)

-- After the full cleanup an alert is gone exactly when its event went, dismissed or not, or when
-- it was dismissed before the cutoff; devices, groups and memberships are as they were.
pub cleanup_all_rows :
    (own : ℕ) (ago : ℕ → Moment) (days : Option ℕ) (s : Store)
    → let cutoff = isoformat (ago (days_or days own)) in
      let s' = (cleanup_all own ago days s).1 in
      (s'.events ≡ delete (older cutoff) s.events)
      × (s'.alerts
          ≡ delete (λ a. loses_event (older cutoff) s.events a || stale_alert cutoff a) s.alerts)
      × (s'.devices ≡ s.devices)
      × (s'.groups ≡ s.groups)
      × (s'.members ≡ s.members)
unfolding cleanup_all
cleanup_all_rows own ago days s = (
  refl,
  delete-delete (loses_event (older cutoff) s.events) (stale_alert cutoff) s.alerts,
  refl,
  refl,
  refl,
)
  where
    cutoff : Text
    cutoff = isoformat (ago (days_or days own))

-- An alert that nobody has dismissed survives the cleanup of alerts, however old it is.
pub cleanup_old_alerts_active :
    (own : ℕ) (ago : ℕ → Moment) (days : Option ℕ) (s : Store) (wanted : Alert → Bool)
    → count (λ a. not a.dismissed && wanted a) (cleanup_old_alerts own ago days s).1.alerts
      ≡ count (λ a. not a.dismissed && wanted a) s.alerts
unfolding cleanup_old_alerts
cleanup_old_alerts_active own ago days s wanted =
    count-delete (stale_alert (isoformat (ago (days_or days own)))) _ s.alerts (λ a h. kept a h)
  where
    kept :
        (a : Alert)
        → (not a.dismissed && wanted a) ≡ true
        → stale_alert (isoformat (ago (days_or days own))) a ≡ false
    kept a h = ground arith

-- A second full cleanup with the same cutoff finds nothing to delete.
pub cleanup_all_idem :
    (own : ℕ) (ago : ℕ → Moment) (days : Option ℕ) (s : Store)
    → (cleanup_all own ago days (cleanup_all own ago days s).1).0.total_rows_deleted ≡ 0
unfolding cleanup_all
cleanup_all_idem own ago days s = omega (arith, no_events, no_alerts)
  where
    cutoff : Text
    cutoff = isoformat (ago (days_or days own))

    left : List Alert
    left = delete (loses_event (older cutoff) s.events) s.alerts

    again : Alert → Bool
    again = loses_event (older cutoff) (delete (older cutoff) s.events)

    no_events : count (older cutoff) (delete (older cutoff) s.events) ≡ 0
    no_events = count-delete_self (older cutoff) s.events

    no_alerts : count (stale_alert cutoff) (delete again (delete (stale_alert cutoff) left)) ≡ 0
    no_alerts = rw (delete-delete (stale_alert cutoff) again left) (
        count-delete_none (λ a. stale_alert cutoff a || again a) (stale_alert cutoff) left
          (λ a h. rw h))

-- The full cleanup of a sound database leaves it sound.
pub cleanup_all-IsSound :
    (own : ℕ) (ago : ℕ → Moment) (days : Option ℕ) (s : Store)
    → IsSound s
    → IsSound (cleanup_all own ago days s).1
unfolding cleanup_all
cleanup_all-IsSound own ago days s v =
    alerts_deleted _ (stale_alert (isoformat (ago (days_or days own))))
      (purge_events-IsSound (older (isoformat (ago (days_or days own)))) s v)

-- A start succeeds exactly on a stopped scheduler whose backend comes up, and then cleans once,
-- and without success not at all; a stop succeeds exactly on a started one that has a backend
-- which goes down; and nothing but such a success changes whether it runs.
pub scheduler_lifecycle :
    (builds starts stops : Bool) (ago : ℕ → Moment) (now : Text) (r : Scheduler)
    → ((start builds starts ago now r).0 ≡ (not r.is_running && (builds && starts)))
      × ((start builds starts ago now r).1.is_running ≡ (r.is_running || (builds && starts)))
      × ((start builds starts ago now r).1.store ≡ (
          if (start builds starts ago now r).0
          then (cleanup_all r.retention_days ago none r.store).1
          else r.store))
      × ((stop stops r).0 ≡ (r.is_running && (r.has_scheduler && stops)))
      × ((stop stops r).1.is_running ≡ (r.is_running && not (stop stops r).0))
      × ((stop stops r).1.store ≡ r.store)
unfolding start stop cleanup_task
scheduler_lifecycle builds starts stops ago now r = ground arith
