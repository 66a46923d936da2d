-- ===== src/Scenarios/Database.antt =====
-- The theorems about the database, the events and their retention, on the household.
use homesentinel.Prelude.{
  ◌≡◌, raised, integrity_error, inr, refl, text_eq, none, some, List, [], ◌∷◌, any, codes, ok, true,
  false, not, ◌&&◌, ◌||◌, count, length, delete, ◌+◌, if◌then◌else◌,
}
use homesentinel.Db.Schema.{Store, has_id, isoformat, is_alert, event_type_allowed}
use homesentinel.Db.Integrity.{IsSound}
use homesentinel.Db.Events.{refuses_event}
use homesentinel.Db.Devices.{delete_device}
use homesentinel.Db.Links.{auto_link}
use homesentinel.Db.Integrity.Links.{auto_link-IsSound}
use homesentinel.Db.Integrity.Deletion.{refers_to, delete_device_effect}
use homesentinel.Db.History.{
  Call, deletes_device, sees_device, creates_event, creates_group, adds_member, apply, run,
  empty_store, apply-IsSound, run-empty-IsSound,
}
use homesentinel.Events.{
  record_event, Filter, matches, get_event_count, detect_new_device, dismiss_alert,
}
use homesentinel.Events.Laws.{record_event_seen, dismiss_alert_effect, recorded}
use homesentinel.Retention.{cleanup_old_events, cleanup_all, Scheduler, start, stop}
use homesentinel.Retention.Laws.{cleanup_old_events_by_date, scheduler_lifecycle, on_or_before}
use homesentinel.Retention.Whole.{goes, cleanup_all_by_date}
use homesentinel.Scenarios.{household, household-IsSound, today, cutoff_evening, long_ago, mac_one}

apply-IsSound_example : IsSound (apply (deletes_device (codes "d1")) household)
apply-IsSound_example = apply-IsSound (deletes_device (codes "d1")) household household-IsSound

-- An Alexa device is linked to the household's device.
abbrev linked_household : Store
unfolding auto_link
linked_household = (auto_link (codes "echo" ∷ []) (codes "echo") (codes "d1") [] household).1

linked_household-IsSound : IsSound linked_household
unfolding linked_household auto_link
linked_household-IsSound =
    auto_link-IsSound (codes "echo" ∷ []) (codes "echo") (codes "d1") [] household household-IsSound

delete_device_effect_example :
    let linked = any (refers_to (λ l. l.network_device_id) (codes "d1")) linked_household.links in
    let (r, s') = delete_device (codes "d1") linked_household in
    (r ≡ (
      if linked
      then raised integrity_error
      else ok (any (has_id (codes "d1")) linked_household.devices)))
    × (any (has_id (codes "d1")) s'.devices ≡ linked)
    × (any (refers_to (λ m. m.device_id) (codes "d1")) s'.members
        ≡ (linked && any (refers_to (λ m. m.device_id) (codes "d1")) linked_household.members))
    × (any (refers_to (λ e. e.device_id) (codes "d1")) s'.events
        ≡ (linked && any (refers_to (λ e. e.device_id) (codes "d1")) linked_household.events))
    × (any (refers_to (λ a. a.device_id) (codes "d1")) s'.alerts
        ≡ (linked && any (refers_to (λ a. a.device_id) (codes "d1")) linked_household.alerts))
    × (delete (has_id (codes "d1")) s'.devices
        ≡ delete (has_id (codes "d1")) linked_household.devices)
    × (delete (refers_to (λ m. m.device_id) (codes "d1")) s'.members
        ≡ delete (refers_to (λ m. m.device_id) (codes "d1")) linked_household.members)
    × (delete (refers_to (λ e. e.device_id) (codes "d1")) s'.events
        ≡ delete (refers_to (λ e. e.device_id) (codes "d1")) linked_household.events)
    × (s'.groups ≡ linked_household.groups)
    × (s'.links ≡ linked_household.links)
    × ((if linked then s' else linked_household) ≡ linked_household)
delete_device_effect_example =
    delete_device_effect (codes "d1") linked_household linked_household-IsSound

-- The second event has no device, and is refused.
abbrev calls : List Call
calls =
    sees_device (codes "d1") mac_one none (isoformat today)
    ∷ creates_event (codes "e1") (codes "d1") (codes "connected") none none today
    ∷ creates_event (codes "e2") (codes "d2") (codes "connected") none none today
    ∷ creates_group (codes "g1") (codes "Kitchen") (codes "#3498db") (isoformat today)
    ∷ adds_member (codes "g1") (codes "d1") (isoformat today)
    ∷ deletes_device (codes "d1")
    ∷ []

run-empty-IsSound_example : IsSound (run calls empty_store)
run-empty-IsSound_example = run-empty-IsSound calls

abbrev of_device : Filter
of_device = record {
  device_id = some (codes "d1");
  start_date = none;
  end_date = none;
  event_type = none;
}

record_event_seen_example :
    let (r, s') =
      record_event (codes "e2") (codes "d1") (codes "online") none none today household in
    (r ≡ ok (codes "e2"))
    × (detect_new_device (codes "d1") s'
        ≡ (not (text_eq (codes "d1") (codes "d1")) && detect_new_device (codes "d1") household))
    × (get_event_count of_device s'
        ≡ get_event_count of_device household
          + (if matches of_device
                (recorded (codes "e2") (codes "d1") (codes "online") none none today)
              then 1
              else 0))
unfolding refuses_event any text_eq event_type_allowed
record_event_seen_example =
    record_event_seen (codes "e2") (codes "d1") (codes "online") none none today household
      (codes "d1") of_device refl

dismiss_alert_effect_example :
    let (r, s') = dismiss_alert (codes "a1") today household in
    (r ≡ ok true)
    × (count (λ a. not a.dismissed && is_alert (codes "a1") a) s'.alerts ≡ 0)
    × (count (λ a. not a.dismissed && not (is_alert (codes "a1") a)) s'.alerts
        ≡ count (λ a. not a.dismissed && not (is_alert (codes "a1") a)) household.alerts)
    × (s'.events ≡ household.events)
    × (length s'.alerts ≡ length household.alerts)
dismiss_alert_effect_example = dismiss_alert_effect (codes "a1") today household

cleanup_old_events_by_date_example :
    (cleanup_old_events 90 long_ago none household).1.events
    ≡ delete (on_or_before (long_ago 90).date) household.events
cleanup_old_events_by_date_example =
    cleanup_old_events_by_date 90 long_ago none household refl ((cutoff_evening, refl, refl), tt)

cleanup_all_by_date_example :
    let date = (long_ago 90).date in
    let s' = (cleanup_all 90 long_ago none household).1 in
    (s'.events ≡ delete (on_or_before date) household.events)
    × (s'.alerts ≡ delete (goes date household.events) household.alerts)
    × (s'.devices ≡ household.devices)
    × (s'.groups ≡ household.groups)
    × (s'.members ≡ household.members)
    × (s'.links ≡ household.links)
cleanup_all_by_date_example =
    cleanup_all_by_date 90 long_ago none household refl household-IsSound
      ((cutoff_evening, refl, refl), tt) (inr refl, tt)

abbrev stopped : Scheduler
stopped = record {
  store = household;
  retention_days = 90;
  has_scheduler = false;
  is_running = false;
  last_cleanup = none;
  cleanup_stats = none;
}

scheduler_lifecycle_example :
    ((start true true long_ago (isoformat today) stopped).0
      ≡ (not stopped.is_running && (true && true)))
    × ((start true true long_ago (isoformat today) stopped).1.is_running
        ≡ (stopped.is_running || (true && true)))
    × ((start true true long_ago (isoformat today) stopped).1.store ≡ (
        if (start true true long_ago (isoformat today) stopped).0
        then (cleanup_all stopped.retention_days long_ago none stopped.store).1
        else stopped.store))
    × ((stop true stopped).0 ≡ (stopped.is_running && (stopped.has_scheduler && true)))
    × ((stop true stopped).1.is_running ≡ (stopped.is_running && not (stop true stopped).0))
    × ((stop true stopped).1.store ≡ stopped.store)
scheduler_lifecycle_example = scheduler_lifecycle true true true long_ago (isoformat today) stopped
