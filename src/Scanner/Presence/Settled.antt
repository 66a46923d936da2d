-- ===== src/Scanner/Presence/Settled.antt =====
-- The transitions at the end of a scan, as one update of the devices.
use homesentinel.Prelude.{
  ◌≡◌, refl, sym, ◌∙◌, map, Text, text_eq, Bool, true, false, not, ◌&&◌, List, [], ◌∷◌, arith, inl,
  inr, Bool-cases, if◌then◌else◌, Outcome, ok, ◌>>◌, for_each, any, All, update, update-update,
  update-none, update_chosen, Distinct, Distinct-update,
}
use homesentinel.Db.Schema.{Device, online, offline, unknown, status_eq, has_id}
use homesentinel.Db.Devices.{
  mark_offline, mark_online, list_by_status, as_offline, as_online, get_by_id,
}
use homesentinel.Db.Integrity.{IsSound}
use homesentinel.Scanner.State.{World, Env, on_store, stamp}
use homesentinel.Scanner.Persist.{when}
use homesentinel.Scanner.Transitions.{
  take_down, bring_up, leave, arrive, leave_all, arrive_all, transitions, is_seen, is_nil,
}
use homesentinel.Scanner.Presence.Quiet.{
  record_device_event-devices, record_device_event-seen, record_device_event-ok,
}

abbrev pub absent : List Text → Device → Bool
absent macs d = status_eq d.status online && not (is_seen macs d)

abbrev pub returned : List Text → Device → Bool
returned macs d = status_eq d.status offline && is_seen macs d

module _ (env : Env) where
  -- What a step does to the devices: `f` on the row of `d`, if `b`; and the loop goes on.
  record Steps (b : Bool) (f : Device → Device) (d : Device) (w : World) (r : Outcome Unit × World)
      : Type 0 where
    goes_on : r.0 ≡ ok tt
    rows : r.1.store.devices ≡ update (λ x. b && has_id d.device_id x) f w.store.devices
    seen : r.1.online_macs ≡ w.online_macs

  take_down-Steps :
      (d : Device) (w : World) → Steps true (as_offline (stamp env)) d w (take_down env d w)
  unfolding take_down on_store mark_offline get_by_id
  take_down-Steps d w = record {
    goes_on = record_device_event-ok env d.device_id _ _ _;
    rows = record_device_event-devices env d.device_id _ _ _;
    seen = record_device_event-seen env d.device_id _ _ _;
  }

  bring_up-Steps :
      (d : Device) (w : World) → Steps true (as_online (stamp env)) d w (bring_up env d w)
  unfolding bring_up on_store mark_online get_by_id
  bring_up-Steps d w = record {
    goes_on = record_device_event-ok env d.device_id _ _ _;
    rows = record_device_event-devices env d.device_id _ _ _;
    seen = record_device_event-seen env d.device_id _ _ _;
  }

  when-Steps :
      (b : Bool) (f : Device → Device) (d : Device) (w : World) (m : World → Outcome Unit × World)
      → Steps true f d w (m w)
      → Steps b f d w (when b m w)
  when-Steps true f d w m h = h
  when-Steps false f d w m h = record {
    goes_on = refl;
    rows = sym (update-none f w.store.devices);
    seen = refl;
  }

  -- A loop over devices that takes a step of this kind at each.
  loop :
      (f : Device → Device) (test : List Text → Device → Bool)
      (step : Device → World → Outcome Unit × World) (ds : List Device) (w : World)
      → ((x : Device) → f (f x) ≡ f x)
      → ((x : Device) → (f x).device_id ≡ x.device_id)
      → ((d : Device) (u : World) → Steps (test u.online_macs d) f d u (step d u))
      → ((for_each ds step w).0 ≡ ok tt)
        × (((for_each ds step w).1.store.devices
              ≡ update
                  (λ x. any (λ d. test w.online_macs d && text_eq x.device_id d.device_id) ds)
                  f
                  w.store.devices)
            × ((for_each ds step w).1.online_macs ≡ w.online_macs))
  unfolding for_each any
  loop f test step [] w twice same steps = (refl, (sym (update-none f w.store.devices), refl))
  loop f test step (d ∷ ds) w twice same steps =
      let here = steps d w in
      let (ok_rest, (rows_rest, seen_rest)) = loop f test step ds (step d w).1 twice same steps in
      rw here.goes_on (
        ok_rest,
        (
          ground (
            arith,
            rows_rest,
            here.rows,
            here.seen,
            update-update (λ x. test w.online_macs d && has_id d.device_id x)
                (λ x. any (λ d'. test w.online_macs d' && text_eq x.device_id d'.device_id) ds) f
                w.store.devices twice (λ x. rw (same x)),
          ),
          ground (arith, seen_rest, here.seen),
        ),
      )

  leave-Steps :
      (d : Device) (w : World)
      → Steps (not (is_seen w.online_macs d)) (as_offline (stamp env)) d w (leave env d w)
  unfolding leave
  leave-Steps d w =
      when-Steps (not (is_seen w.online_macs d)) (as_offline (stamp env)) d w (take_down env d)
        (take_down-Steps d w)

  arrive-Steps :
      (d : Device) (w : World)
      → Steps (is_seen w.online_macs d) (as_online (stamp env)) d w (arrive env d w)
  unfolding arrive
  arrive-Steps d w =
      when-Steps (is_seen w.online_macs d) (as_online (stamp env)) d w (bring_up env d)
        (bring_up-Steps d w)

  leave_all_lem :
      (w : World)
      → Distinct (λ d. d.device_id) w.store.devices
      → ((leave_all env w).0 ≡ ok tt)
        × (((leave_all env w).1.store.devices
              ≡ update (absent w.online_macs) (as_offline (stamp env)) w.store.devices)
            × ((leave_all env w).1.online_macs ≡ w.online_macs))
  unfolding leave_all list_by_status as_offline
  leave_all_lem w ids =
      let (fine, (rows, seen)) =
        loop (as_offline (stamp env)) (λ macs d. not (is_seen macs d)) (leave env)
          (list_by_status online w.store) w (λ d. refl) (λ d. refl) leave-Steps in
      (
        fine,
        (
          rows
              ∙ update_chosen (λ d. d.device_id) (λ d. d.last_seen) (λ d. status_eq d.status online)
                  (λ d. not (is_seen w.online_macs d)) (as_offline (stamp env)) w.store.devices ids,
          seen,
        ),
      )

  arrive_all_lem :
      (w : World)
      → Distinct (λ d. d.device_id) w.store.devices
      → ((arrive_all env w).0 ≡ ok tt)
        × (((arrive_all env w).1.store.devices
              ≡ update (returned w.online_macs) (as_online (stamp env)) w.store.devices)
            × ((arrive_all env w).1.online_macs ≡ w.online_macs))
  unfolding arrive_all list_by_status as_online
  arrive_all_lem w ids =
      let (fine, (rows, seen)) =
        loop (as_online (stamp env)) is_seen (arrive env) (list_by_status offline w.store) w
          (λ d. refl) (λ d. refl) arrive-Steps in
      (
        fine,
        (
          rows
              ∙ update_chosen (λ d. d.device_id) (λ d. d.last_seen)
                  (λ d. status_eq d.status offline) (is_seen w.online_macs) (as_online (stamp env))
                  w.store.devices ids,
          seen,
        ),
      )

-- What a scan at `now` that saw `macs` makes of a device.
unfoldable pub settle : List Text → Text → Device → Device
settle macs now d =
    if absent macs d then as_offline now d else (if returned macs d then as_online now d else d)

settle_all :
    (macs : List Text) (now : Text) (ds : List Device)
    → update (returned macs) (as_online now) (update (absent macs) (as_offline now) ds)
      ≡ map (settle macs now) ds
unfolding update settle as_online as_offline status_eq
settle_all macs now [] = refl
settle_all macs now (d ∷ ds) = ground (arith, settle_all macs now ds)

both-devices :
    (env : Env) (w : World)
    → Distinct (λ d. d.device_id) w.store.devices
    → ((leave_all env >> arrive_all env) w).1.store.devices
      ≡ map (settle w.online_macs (stamp env)) w.store.devices
both-devices env w ids =
    let (fine, (rows, seen)) = leave_all_lem env w ids in
    let ids' =
      Distinct-update (λ d. d.device_id) (absent w.online_macs) (as_offline (stamp env))
        w.store.devices (λ d. unfold as_offline in refl) ids in
    let (fine', (rows', seen')) = arrive_all_lem env (leave_all env w).1 (rw rows ids') in
    rw fine (rows' ∙ (rw seen (rw rows (settle_all w.online_macs (stamp env) w.store.devices))))

-- In a sound database, if any device was seen, the transitions take down each online device that
-- was not seen, bring up each offline device that was, and change no other row, whether or not the
-- events are recorded.
pub transitions-devices :
    (env : Env) (w : World)
    → IsSound w.store
    → is_nil w.online_macs ≡ false
    → (transitions env w).1.store.devices ≡ map (settle w.online_macs (stamp env)) w.store.devices
unfolding transitions
transitions-devices env w v seen = rw seen (both-devices env w v.device_ids)

settle_status :
    (macs : List Text) (now : Text) (ds : List Device)
    → All
        (λ d. status_eq d.status online ≡ (not (status_eq d.status unknown) && is_seen macs d))
        (map (settle macs now) ds)
unfolding settle as_online as_offline status_eq
settle_status macs now [] = tt
settle_status macs now (d ∷ ds) = (ground arith, settle_status macs now ds)

-- A device is online exactly when its MAC was seen, but for a device whose status is unknown, which
-- a scan does not bring up.
abbrev pub Present : World → Type 0
Present w =
    All
      (λ d.
        status_eq d.status online ≡ (not (status_eq d.status unknown) && is_seen w.online_macs d))
      w.store.devices

both-seen :
    (env : Env) (w : World)
    → Distinct (λ d. d.device_id) w.store.devices
    → ((leave_all env >> arrive_all env) w).1.online_macs ≡ w.online_macs
both-seen env w ids =
    let (fine, (rows, seen)) = leave_all_lem env w ids in
    let ids' =
      Distinct-update (λ d. d.device_id) (absent w.online_macs) (as_offline (stamp env))
        w.store.devices (λ d. unfold as_offline in refl) ids in
    let (fine', (rows', seen')) = arrive_all_lem env (leave_all env w).1 (rw rows ids') in
    rw fine (seen' ∙ seen)

transitions-seen :
    (env : Env) (w : World) → IsSound w.store → (transitions env w).1.online_macs ≡ w.online_macs
unfolding transitions
transitions-seen env w v = elim (Bool-cases (is_nil w.online_macs)) [
  | inl none_seen ↦ rw none_seen refl
  | inr seen ↦ rw seen (both-seen env w v.device_ids)
]

pub transitions-Present :
    (env : Env) (w : World)
    → IsSound w.store
    → is_nil (transitions env w).1.online_macs ≡ false
    → Present (transitions env w).1
transitions-Present env w v seen =
    let same = transitions-seen env w v in
    rw same (
      rw (transitions-devices env w v (rw (sym same) seen))
        (settle_status w.online_macs (stamp env) w.store.devices))
