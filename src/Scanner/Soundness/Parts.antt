-- ===== src/Scanner/Soundness/Parts.antt =====
-- The persisting of merged devices and `_sync_ips_and_reservations` keep the database sound.
use homesentinel.Prelude.{ℕ, Text, Bool, Option, none, some, [], ◌∷◌, Dict}
use homesentinel.Db.Schema.{Device}
use homesentinel.Db.Devices.{update_current_ip, set_static_ip_reservation, list_all}
use homesentinel.Db.Integrity.Devices.{set_static_ip_reservation-IsSound, update_current_ip-IsSound}
use homesentinel.Chester.{Neighbor, NetworkSnapshot}
use homesentinel.Scanner.Sources.{Merged}
use homesentinel.Scanner.State.{Env, on_store, stamp}
use homesentinel.Scanner.Persist.{
  persist_existing, persist_new, persist_found, persist_one, persist_all,
}
use homesentinel.Scanner.Router.{
  sync_ips_and_reservations, sync_ip, sync_reservation, clear_flag, correct_ip, mirror, clear_flags,
}
use homesentinel.Scanner.Soundness.Rules.{Keeps, Keeps-for_each, Keeps-on_store, Keeps-return}
use homesentinel.Scanner.Soundness.Effects.{basic}

module _ (env : Env) where
  persist_existing-Keeps : (m : Merged) (d : Device) → Keeps (persist_existing env m d)
  unfolding persist_existing
  persist_existing-Keeps m d = search basic depth 9

  persist_new-Keeps : (m : Merged) → Keeps (persist_new env m)
  unfolding persist_new
  persist_new-Keeps m = search basic depth 12

  persist_found-Keeps : (m : Merged) (d : Option Device) → Keeps (persist_found env m d)
  persist_found-Keeps m none = persist_new-Keeps m
  persist_found-Keeps m (some d) = persist_existing-Keeps m d

  persist_one-Keeps : (e : Text × Merged) → Keeps (persist_one env e)
  unfolding persist_one
  persist_one-Keeps e = search (basic, persist_found-Keeps) depth 9

  pub persist_all-Keeps : (merged : Dict Merged) → Keeps (persist_all env merged)
  unfolding persist_all
  persist_all-Keeps merged = Keeps-for_each merged persist_one-Keeps

  update_current_ip-Keeps : (id ip : Text) → Keeps (on_store (update_current_ip id ip (stamp env)))
  update_current_ip-Keeps id ip =
      Keeps-on_store (update_current_ip id ip (stamp env))
        (update_current_ip-IsSound id ip (stamp env))

  reservation-Keeps :
      (mac : Text) (enabled : Bool) (ip : Option Text)
      → Keeps (on_store (set_static_ip_reservation mac enabled ip (stamp env)))
  reservation-Keeps mac enabled ip =
      Keeps-on_store (set_static_ip_reservation mac enabled ip (stamp env))
        (set_static_ip_reservation-IsSound mac enabled ip (stamp env))

  correct_ip-Keeps : (ip : Text) (d : Option Device) → Keeps (correct_ip env ip d)
  correct_ip-Keeps ip none = Keeps-return tt
  correct_ip-Keeps ip (some d) = search (basic, update_current_ip-Keeps) depth 5

  sync_ip-Keeps : (present : Dict Neighbor) (hint : Text × Text) → Keeps (sync_ip env present hint)
  unfolding sync_ip
  sync_ip-Keeps present (mac, ip) = search (basic, correct_ip-Keeps) depth 5

  mirror-Keeps : (mac ip : Text) (d : Option Device) → Keeps (mirror env mac ip d)
  mirror-Keeps mac ip none = Keeps-return tt
  mirror-Keeps mac ip (some d) = search (basic, reservation-Keeps) depth 5

  sync_reservation-Keeps : (hint : Text × Text) → Keeps (sync_reservation env hint)
  unfolding sync_reservation
  sync_reservation-Keeps (mac, ip) = search (basic, mirror-Keeps) depth 5

  clear_flag-Keeps : (reserved : Dict Text) (d : Device) → Keeps (clear_flag env reserved d)
  unfolding clear_flag
  clear_flag-Keeps reserved d = search (basic, reservation-Keeps) depth 5

  clear_flags-Keeps : (reserved : Dict Text) → Keeps (clear_flags env reserved)
  clear_flags-Keeps [] = Keeps-return tt
  clear_flags-Keeps (r ∷ rs) = record {
    keeps = λ w v. (Keeps-for_each (list_all w.store) (clear_flag-Keeps (r ∷ rs))).keeps w v;
  }

  pub sync_ips_and_reservations-Keeps :
      (now : ℕ) (snapshot : NetworkSnapshot) → Keeps (sync_ips_and_reservations env now snapshot)
  unfolding sync_ips_and_reservations
  sync_ips_and_reservations-Keeps now snapshot =
      search (basic, sync_ip-Keeps, sync_reservation-Keeps, clear_flags-Keeps) depth 5
