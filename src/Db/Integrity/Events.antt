-- ===== src/Db/Integrity/Events.antt =====
-- The statements on events and alerts keep the database sound.
use homesentinel.Prelude.{
  ◌≡◌, refl, Text, Bool, true, false, any, update, delete, Option, All-map, All-append, All-delete,
  All-update, Distinct-update, Distinct-delete, Distinct-insert, any-append, any-kept, ◌∷◌, [],
  arith, Bool-cases, inl, inr, ◌++◌,
}
use homesentinel.Db.Schema.{Store, Event, Alert, Moment, has_id, is_event, is_alert}
use homesentinel.Db.Events.{create_event, refuses_event, purge_events}
use homesentinel.Db.Alerts.{create_alert_row, refuses_alert, dismiss_rows, as_dismissed}
use homesentinel.Db.Integrity.Sound.{IsSound}

insert_event-IsSound :
    (s : Store) (e : Event)
    → IsSound s
    → any (is_event e.event_id) s.events ≡ false
    → any (has_id e.device_id) s.devices ≡ true
    → IsSound (record s { events = s.events ++ e ∷ [] })
insert_event-IsSound s e v fresh parent = record {
  device_ids = v.device_ids;
  device_macs = v.device_macs;
  group_ids = v.group_ids;
  member_keys = v.member_keys;
  link_keys = v.link_keys;
  link_devices = v.link_devices;
  group_names = v.group_names;
  event_ids = Distinct-insert (λ x. x.event_id) e s.events fresh v.event_ids;
  alert_ids = v.alert_ids;
  member_groups = v.member_groups;
  member_devices = v.member_devices;
  event_devices = All-append _ s.events (e ∷ []) v.event_devices (parent, tt);
  alert_devices = v.alert_devices;
  alert_events =
      All-map (λ a. any (is_event a.event_id) s.events ≡ true) _ s.alerts
        (λ a h. rw (any-append (is_event a.event_id) s.events (e ∷ []), h)) v.alert_events;
}

pub create_event-IsSound :
    (id device kind : Text) (description metadata : Option Text) (now : Moment) (s : Store)
    → IsSound s
    → IsSound (create_event id device kind description metadata now s).1
unfolding create_event
create_event-IsSound id device kind description metadata now s v =
    elim (Bool-cases (refuses_event id device kind s)) [
      | inl refused ↦ rw refused v
      | inr taken ↦ rw taken (insert_event-IsSound s _ v (ground arith) (ground arith))
    ]

insert_alert-IsSound :
    (s : Store) (a : Alert)
    → IsSound s
    → any (is_alert a.alert_id) s.alerts ≡ false
    → any (has_id a.device_id) s.devices ≡ true
    → any (is_event a.event_id) s.events ≡ true
    → IsSound (record s { alerts = s.alerts ++ a ∷ [] })
insert_alert-IsSound s a v fresh device event = record {
  device_ids = v.device_ids;
  device_macs = v.device_macs;
  group_ids = v.group_ids;
  member_keys = v.member_keys;
  link_keys = v.link_keys;
  link_devices = v.link_devices;
  group_names = v.group_names;
  event_ids = v.event_ids;
  alert_ids = Distinct-insert (λ x. x.alert_id) a s.alerts fresh v.alert_ids;
  member_groups = v.member_groups;
  member_devices = v.member_devices;
  event_devices = v.event_devices;
  alert_devices = All-append _ s.alerts (a ∷ []) v.alert_devices (device, tt);
  alert_events = All-append _ s.alerts (a ∷ []) v.alert_events (event, tt);
}

pub create_alert_row-IsSound :
    (id device event kind : Text) (now : Moment) (s : Store)
    → IsSound s
    → IsSound (create_alert_row id device event kind now s).1
unfolding create_alert_row
create_alert_row-IsSound id device event kind now s v =
    elim (Bool-cases (refuses_alert id device event kind s)) [
      | inl refused ↦ rw refused v
      | inr taken ↦
          rw taken (insert_alert-IsSound s _ v (ground arith) (ground arith) (ground arith))
    ]

-- New rows of alerts do, if each is an old row or the change of one that keeps its keys.
pub alerts_updated :
    (s : Store) (p : Alert → Bool) (f : Alert → Alert)
    → IsSound s
    → ((a : Alert) → (f a).alert_id ≡ a.alert_id)
    → ((a : Alert) → (f a).device_id ≡ a.device_id)
    → ((a : Alert) → (f a).event_id ≡ a.event_id)
    → IsSound (record s { alerts = update p f s.alerts })
alerts_updated s p f v ids devices events = record {
  device_ids = v.device_ids;
  device_macs = v.device_macs;
  group_ids = v.group_ids;
  member_keys = v.member_keys;
  link_keys = v.link_keys;
  link_devices = v.link_devices;
  group_names = v.group_names;
  event_ids = v.event_ids;
  alert_ids = Distinct-update (λ a. a.alert_id) p f s.alerts ids v.alert_ids;
  member_groups = v.member_groups;
  member_devices = v.member_devices;
  event_devices = v.event_devices;
  alert_devices = All-update _ p f s.alerts (λ a h. rw (devices a) h) v.alert_devices;
  alert_events = All-update _ p f s.alerts (λ a h. rw (events a) h) v.alert_events;
}

pub dismiss_rows-IsSound :
    (id : Text) (now : Moment) (s : Store) → IsSound s → IsSound (dismiss_rows id now s)
unfolding dismiss_rows
dismiss_rows-IsSound id now s v =
    alerts_updated s (is_alert id) (as_dismissed now) v (λ a. refl) (λ a. refl) (λ a. refl)

pub alerts_deleted :
    (s : Store) (p : Alert → Bool) → IsSound s → IsSound (record s { alerts = delete p s.alerts })
alerts_deleted s p v = record {
  device_ids = v.device_ids;
  device_macs = v.device_macs;
  group_ids = v.group_ids;
  member_keys = v.member_keys;
  link_keys = v.link_keys;
  link_devices = v.link_devices;
  group_names = v.group_names;
  event_ids = v.event_ids;
  alert_ids = Distinct-delete (λ a. a.alert_id) p s.alerts v.alert_ids;
  member_groups = v.member_groups;
  member_devices = v.member_devices;
  event_devices = v.event_devices;
  alert_devices = All-map _ _ _ (λ a h. h.0) (All-delete _ p s.alerts v.alert_devices);
  alert_events = All-map _ _ _ (λ a h. h.0) (All-delete _ p s.alerts v.alert_events);
}

-- Deleting events by any condition, with the cascade to their alerts, keeps the database sound.
pub purge_events-IsSound :
    (gone : Event → Bool) (s : Store) → IsSound s → IsSound (purge_events gone s)
unfolding purge_events
purge_events-IsSound gone s v = record {
  device_ids = v.device_ids;
  device_macs = v.device_macs;
  group_ids = v.group_ids;
  member_keys = v.member_keys;
  link_keys = v.link_keys;
  link_devices = v.link_devices;
  group_names = v.group_names;
  event_ids = Distinct-delete (λ e. e.event_id) gone s.events v.event_ids;
  alert_ids = Distinct-delete (λ a. a.alert_id) _ s.alerts v.alert_ids;
  member_groups = v.member_groups;
  member_devices = v.member_devices;
  event_devices = All-map _ _ _ (λ e h. h.0) (All-delete _ gone s.events v.event_devices);
  alert_devices = All-map _ _ _ (λ a h. h.0) (All-delete _ _ s.alerts v.alert_devices);
  alert_events =
      All-map _ _ _ (λ a h. any-kept (is_event a.event_id) gone s.events h.0 h.1)
        (All-delete _ _ s.alerts v.alert_events);
}
