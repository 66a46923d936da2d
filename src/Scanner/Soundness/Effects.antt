-- ===== src/Scanner/Soundness/Effects.antt =====
-- The effects of Scanner/State.antt keep the database sound.
use homesentinel.Prelude.{
  Text, Option, none, some, refl, is_set, not, ◌&&◌, text_eq, Outcome, ok, raised, return,
  Bool-cases, inl, inr, continue_with,
}
use homesentinel.Db.Schema.{Store}
use homesentinel.Db.Devices.{get_by_mac}
use homesentinel.Db.Events.{create_event}
use homesentinel.Db.Alerts.{create_alert_row}
use homesentinel.Db.Integrity.{IsSound}
use homesentinel.Db.Integrity.Devices.{create_or_update-IsSound, update_device_metadata-IsSound}
use homesentinel.Db.Integrity.Events.{create_event-IsSound, create_alert_row-IsSound}
use homesentinel.Events.{record_event, create_alert}
use homesentinel.Oui.{lookup_vendor, unknown_vendor}
use homesentinel.Scanner.State.{
  Env, on_store, create_or_update_device, set_friendly_name, set_vendor_name, populate_vendor,
  event_and_alert, record_device_event, stamp, alert_for, draw, raise_alert,
}
use homesentinel.Scanner.Soundness.Rules.{
  Keeps, Keeps-bind, Keeps-attempt, Keeps-for_each, Keeps-when, Keeps-on_store, Keeps-pure,
  Keeps-return, Keeps-count, Keeps-see, Keeps-require,
}

pub get_by_mac-Keeps : (mac : Text) → Keeps (on_store (get_by_mac mac))
unfolding get_by_mac
get_by_mac-Keeps mac = Keeps-on_store (get_by_mac mac) (λ s v. v)

module _ (env : Env) where
  pub create_or_update_device-Keeps :
      (mac : Text) (ip : Option Text) → Keeps (create_or_update_device env mac ip)
  unfolding create_or_update_device
  create_or_update_device-Keeps mac ip =
      Keeps-on_store _ (create_or_update-IsSound (env.uuid5 mac) mac ip (stamp env))

  pub set_friendly_name-Keeps : (id name : Text) → Keeps (set_friendly_name env id name)
  unfolding set_friendly_name
  set_friendly_name-Keeps id name =
      Keeps-on_store _ (update_device_metadata-IsSound id _ (stamp env))

  pub set_vendor_name-Keeps : (id vendor : Text) → Keeps (set_vendor_name env id vendor)
  unfolding set_vendor_name
  set_vendor_name-Keeps id name = Keeps-on_store _ (update_device_metadata-IsSound id _ (stamp env))

returned :
    {A B : Type 0} (r : Outcome A) (s : Store) (b : B)
    → IsSound s
    → IsSound (continue_with r s (λ a. return b)).1
returned (ok a) s b v = v
returned (raised e) s b v = v

module _ (env : Env) where
  draw-Keeps : Keeps (draw env)
  draw-Keeps = Keeps-pure (λ w. refl)

  record_event-Keeps :
      (id device kind : Text) (description : Option Text)
      → Keeps (on_store (record_event id device kind description none env.now))
  unfolding record_event
  record_event-Keeps id device kind description =
      Keeps-on_store (record_event id device kind description none env.now) (λ s v.
        returned (create_event id device kind description none env.now s).0
          (create_event id device kind description none env.now s).1 id
          (create_event-IsSound id device kind description none env.now s v))

  create_alert-Keeps :
      (id device event kind : Text) → Keeps (on_store (create_alert id device event kind env.now))
  unfolding create_alert
  create_alert-Keeps id device event kind =
      Keeps-on_store (create_alert id device event kind env.now) (λ s v.
        returned (create_alert_row id device event kind env.now s).0
          (create_alert_row id device event kind env.now s).1 id
          (create_alert_row-IsSound id device event kind env.now s v))

  raise_alert-Keeps :
      (device event : Text) (kind : Option Text) → Keeps (raise_alert env device event kind)
  raise_alert-Keeps device event none = Keeps-return tt
  raise_alert-Keeps device event (some kind) =
      Keeps-bind draw-Keeps
        (λ id. Keeps-bind (create_alert-Keeps id device event kind) (λ u. Keeps-return tt))

  event_and_alert-Keeps :
      (device kind : Text) (description : Option Text)
      → Keeps (event_and_alert env device kind description)
  unfolding event_and_alert
  event_and_alert-Keeps device kind description = Keeps-bind draw-Keeps (λ id.
      Keeps-bind (record_event-Keeps id device kind description)
        (λ u. raise_alert-Keeps device id (alert_for kind)))

  pub record_device_event-Keeps :
      (device kind : Text) (description : Option Text)
      → Keeps (record_device_event env device kind description)
  unfolding record_device_event
  record_device_event-Keeps device kind description =
      elim (Bool-cases (not env.has_event_service)) [
        | inl off ↦ rw off (Keeps-return tt)
        | inr on ↦
            rw on
              (Keeps-attempt (event_and_alert-Keeps device kind description) (λ e. Keeps-return tt))
      ]

  pub vendor-Keeps : (device mac : Text) → Keeps (populate_vendor env device mac)
  unfolding populate_vendor
  vendor-Keeps device mac = record {
    keeps = λ w v.
        elim (Bool-cases (
          is_set (some (lookup_vendor mac w.oui).0)
          && not (text_eq (lookup_vendor mac w.oui).0 unknown_vendor))) [
            | inl named ↦ rw named (
                (Keeps-bind (set_vendor_name-Keeps env device (lookup_vendor mac w.oui).0)
                    (λ u. Keeps-return tt)).keeps
                  (record w { oui = (lookup_vendor mac w.oui).1 }) v)
            | inr unnamed ↦ rw unnamed v
          ];
  }

pub ruleset basic = (
  Keeps-bind, Keeps-attempt, Keeps-for_each, Keeps-when, Keeps-return, Keeps-count, Keeps-see,
  Keeps-require, get_by_mac-Keeps, create_or_update_device-Keeps, set_friendly_name-Keeps,
  set_vendor_name-Keeps, record_device_event-Keeps, vendor-Keeps,
)
