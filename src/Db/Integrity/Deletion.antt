-- ===== src/Db/Integrity/Deletion.antt =====
-- What `NetworkDeviceRepository.delete` does to the rows of a device, and when it fails.
use homesentinel.Prelude.{
  ◌≡◌, refl, Text, text_eq, eq-of-text_eq, Bool, true, false, ◌&&◌, ◌||◌, any, delete,
  any-delete_self, All, List, [], ◌∷◌, arith, Bool-cases, inl, inr, ok, raised, integrity_error,
  if◌then◌else◌,
}
use homesentinel.Db.Schema.{Store, Device, has_id}
use homesentinel.Db.Devices.{delete_device}
use homesentinel.Db.Integrity.Sound.{IsSound}

abbrev pub refers_to {ℓ} : {A : Type ℓ} → (A → Text) → Text → A → Bool
refers_to key id a = text_eq (key a) id

-- Without the device there is no row that refers to it.
no_rows :
    {A : Type 0} (key : A → Text) (id : Text) (ds : List Device) (rows : List A)
    → All (λ a. any (has_id (key a)) ds ≡ true) rows
    → any (has_id id) ds ≡ false
    → any (refers_to key id) rows ≡ false
unfolding any
no_rows key id ds [] h none_there = refl
no_rows key id ds (a ∷ rows) h none_there = elim (Bool-cases (text_eq (key a) id)) [
  | inr e ↦ rw e (no_rows key id ds rows h.1 none_there)
  | inl e ↦
      let there : any (has_id id) ds ≡ true = rw (← eq-of-text_eq (key a) id e) h.0 in
      absurd (ground (arith, there, none_there))
]

-- The alerts that are left are not the device's.
any-weaker :
    {A : Type 0} (p q : A → Bool) (xs : List A) → any p (delete (λ a. p a || q a) xs) ≡ false
unfolding any delete
any-weaker p q [] = refl
any-weaker p q (x ∷ xs) = ground (arith, any-weaker p q xs)

delete_twice : {A : Type 0} (p : A → Bool) (xs : List A) → delete p (delete p xs) ≡ delete p xs
unfolding delete
delete_twice p [] = refl
delete_twice p (x ∷ xs) = ground (arith, delete_twice p xs)

-- In a sound database, deleting a device that an Alexa device is linked to raises an
-- IntegrityError and changes nothing. Otherwise the call says whether the device was there, and
-- afterwards neither it nor a membership, an event or an alert of it is. The rows of the other
-- devices, their memberships and their events, the groups and the links stay in any case.
pub delete_device_effect :
    (id : Text) (s : Store)
    → IsSound s
    → let linked = any (refers_to (λ l. l.network_device_id) id) s.links in
      let (r, s') = delete_device id s in
      (r ≡ (if linked then raised integrity_error else ok (any (has_id id) s.devices)))
      × (any (has_id id) s'.devices ≡ linked)
      × (any (refers_to (λ m. m.device_id) id) s'.members
          ≡ (linked && any (refers_to (λ m. m.device_id) id) s.members))
      × (any (refers_to (λ e. e.device_id) id) s'.events
          ≡ (linked && any (refers_to (λ e. e.device_id) id) s.events))
      × (any (refers_to (λ a. a.device_id) id) s'.alerts
          ≡ (linked && any (refers_to (λ a. a.device_id) id) s.alerts))
      × (delete (has_id id) s'.devices ≡ delete (has_id id) s.devices)
      × (delete (refers_to (λ m. m.device_id) id) s'.members
          ≡ delete (refers_to (λ m. m.device_id) id) s.members)
      × (delete (refers_to (λ e. e.device_id) id) s'.events
          ≡ delete (refers_to (λ e. e.device_id) id) s.events)
      × (s'.groups ≡ s.groups)
      × (s'.links ≡ s.links)
      × ((if linked then s' else s) ≡ s)
unfolding delete_device
delete_device_effect id s v = elim (Bool-cases (any (has_id id) s.devices)) [
  | inr unknown ↦
      rw
        (
          unknown,
          no_rows (λ l. l.network_device_id) id s.devices s.links v.link_devices unknown,
          no_rows (λ m. m.device_id) id s.devices s.members v.member_devices unknown,
          no_rows (λ e. e.device_id) id s.devices s.events v.event_devices unknown,
          no_rows (λ a. a.device_id) id s.devices s.alerts v.alert_devices unknown,
        )
        (refl, unknown, refl, refl, refl, refl, refl, refl, refl, refl, refl)
  | inl known ↦
      rw known (elim (Bool-cases (any (refers_to (λ l. l.network_device_id) id) s.links)) [
        | inl linked ↦ rw linked (refl, known, refl, refl, refl, refl, refl, refl, refl, refl, refl)
        | inr free ↦ rw free (
          refl,
          any-delete_self (has_id id) s.devices,
          any-delete_self (refers_to (λ m. m.device_id) id) s.members,
          any-delete_self (refers_to (λ e. e.device_id) id) s.events,
          any-weaker (refers_to (λ a. a.device_id) id) _ s.alerts,
          delete_twice (has_id id) s.devices,
          delete_twice (refers_to (λ m. m.device_id) id) s.members,
          delete_twice (refers_to (λ e. e.device_id) id) s.events,
          refl,
          refl,
          refl,
        )
      ])
]
