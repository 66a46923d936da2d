-- ===== src/Scanner/Presence/Quiet.antt =====
-- Recording an event changes neither the devices nor who was seen, and never raises.
use homesentinel.Prelude.{
  ◌≡◌, refl, Text, Option, none, some, arith, Outcome, ok, raised, return, continue_with, ◌>>=◌,
}
use homesentinel.Db.Schema.{Store}
use homesentinel.Db.Events.{create_event}
use homesentinel.Db.Alerts.{create_alert_row}
use homesentinel.Events.{record_event, create_alert}
use homesentinel.Scanner.State.{
  World, Env, on_store, draw, raise_alert, event_and_alert, record_device_event, alert_for,
}

pub record Quiet {A : Type 0} (m : World → Outcome A × World) : Type 0 where
  pub devices_same : (w : World) → (m w).1.store.devices ≡ w.store.devices
  pub seen_same : (w : World) → (m w).1.online_macs ≡ w.online_macs

continue-devices :
    {A B : Type 0} (k : A → World → Outcome B × World) (r : Outcome A) (w : World)
    → ((a : A) → Quiet (k a))
    → (continue_with r w k).1.store.devices ≡ w.store.devices
continue-devices k (ok a) w h = (h a).devices_same w
continue-devices k (raised e) w h = refl

continue-seen :
    {A B : Type 0} (k : A → World → Outcome B × World) (r : Outcome A) (w : World)
    → ((a : A) → Quiet (k a))
    → (continue_with r w k).1.online_macs ≡ w.online_macs
continue-seen k (ok a) w h = (h a).seen_same w
continue-seen k (raised e) w h = refl

pub Quiet-bind :
    {A B : Type 0} {m : World → Outcome A × World} {k : A → World → Outcome B × World}
    → Quiet m
    → ((a : A) → Quiet (k a))
    → Quiet (m >>= k)
Quiet-bind {m} {k} hm hk = record {
  devices_same = λ w. rw (continue-devices k (m w).0 (m w).1 hk) (hm.devices_same w);
  seen_same = λ w. rw (continue-seen k (m w).0 (m w).1 hk) (hm.seen_same w);
}

Quiet-return : {A : Type 0} (a : A) → Quiet (return a)
Quiet-return a = record { devices_same = λ w. refl; seen_same = λ w. refl }

Quiet-on_store :
    {A : Type 0} (m : Store → Outcome A × Store)
    → ((s : Store) → (m s).1.devices ≡ s.devices)
    → Quiet (on_store m)
unfolding on_store
Quiet-on_store m h = record { devices_same = λ w. h w.store; seen_same = λ w. refl }

module _ (env : Env) where
  draw-Quiet : Quiet (draw env)
  draw-Quiet = record { devices_same = λ w. refl; seen_same = λ w. refl }

  record_event-Quiet :
      (id device kind : Text) (description : Option Text)
      → Quiet (on_store (record_event id device kind description none env.now))
  record_event-Quiet id device kind description =
      Quiet-on_store (record_event id device kind description none env.now)
        (λ s. unfold record_event create_event in ground arith)

  create_alert-Quiet :
      (id device event kind : Text) → Quiet (on_store (create_alert id device event kind env.now))
  create_alert-Quiet id device event kind =
      Quiet-on_store (create_alert id device event kind env.now)
        (λ s. unfold create_alert create_alert_row in ground arith)

  raise_alert-Quiet :
      (device event : Text) (kind : Option Text) → Quiet (raise_alert env device event kind)
  raise_alert-Quiet device event none = Quiet-return tt
  raise_alert-Quiet device event (some kind) =
      Quiet-bind draw-Quiet
        (λ id. Quiet-bind (create_alert-Quiet id device event kind) (λ u. Quiet-return tt))

  event_and_alert-Quiet :
      (device kind : Text) (description : Option Text)
      → Quiet (event_and_alert env device kind description)
  unfolding event_and_alert
  event_and_alert-Quiet device kind description = Quiet-bind draw-Quiet (λ id.
      Quiet-bind (record_event-Quiet id device kind description)
        (λ u. raise_alert-Quiet device id (alert_for kind)))

  module _ (device kind : Text) (description : Option Text) (w : World) where
    pub record_device_event-devices :
        (record_device_event env device kind description w).1.store.devices ≡ w.store.devices
    unfolding record_device_event
    record_device_event-devices =
        ground (arith, (event_and_alert-Quiet device kind description).devices_same w)

    pub record_device_event-seen :
        (record_device_event env device kind description w).1.online_macs ≡ w.online_macs
    unfolding record_device_event
    record_device_event-seen =
        ground (arith, (event_and_alert-Quiet device kind description).seen_same w)

    -- Whatever goes wrong with the event, the scan continues.
    pub record_device_event-ok : (record_device_event env device kind description w).0 ≡ ok tt
    unfolding record_device_event
    record_device_event-ok = ground arith
