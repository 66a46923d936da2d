-- ===== src/Scanner/Soundness/Whole.antt =====
-- The transitions and the whole of `scan_and_update` keep the database sound.
use homesentinel.Prelude.{
  ℕ, Text, Option, none, some, [], not, Outcome, Failure, Bool-cases, inl, inr, arith, refl,
}
use homesentinel.Db.Schema.{Device, online, offline}
use homesentinel.Db.Devices.{mark_online, mark_offline, list_by_status}
use homesentinel.Db.Polling.{update_last_scan}
use homesentinel.Db.Integrity.{IsSound}
use homesentinel.Db.Integrity.Devices.{mark_offline-IsSound, mark_online-IsSound}
use homesentinel.Db.History.{polling_replaced}
use homesentinel.Chester.{NetworkSnapshot}
use homesentinel.Scanner.State.{World, Env, on_store, stamp}
use homesentinel.Scanner.Router.{reconcile_deco_endpoint, update_deco_node_endpoints, reconcile_at}
use homesentinel.Scanner.Transitions.{
  take_down, bring_up, leave, arrive, leave_all, arrive_all, transitions, is_seen, is_nil,
}
use homesentinel.Scanner.Scan.{
  Inputs, scan_body, scan_and_update, merged_with, with_snapshot, do_to, if_deco, has_deco,
  note_error, empty_results, count_online,
}
use homesentinel.Scanner.Soundness.Rules.{
  Keeps, Keeps-bind, Keeps-attempt, Keeps-for_each, Keeps-when, Keeps-on_store, Keeps-pure,
  Keeps-return,
}
use homesentinel.Scanner.Soundness.Effects.{basic}
use homesentinel.Scanner.Soundness.Parts.{persist_all-Keeps, sync_ips_and_reservations-Keeps}
use homesentinel.Scanner.Soundness.Deco.{
  deco_supplement-Keeps, deco_nodes-Keeps, chester_check-Keeps,
}

module _ (env : Env) where
  mark_offline-Keeps : (id : Text) → Keeps (on_store (mark_offline id (stamp env)))
  mark_offline-Keeps id =
      Keeps-on_store (mark_offline id (stamp env)) (mark_offline-IsSound id (stamp env))

  mark_online-Keeps : (id : Text) → Keeps (on_store (mark_online id (stamp env)))
  mark_online-Keeps id =
      Keeps-on_store (mark_online id (stamp env)) (mark_online-IsSound id (stamp env))

  take_down-Keeps : (d : Device) → Keeps (take_down env d)
  unfolding take_down
  take_down-Keeps d = search (basic, mark_offline-Keeps) depth 9

  bring_up-Keeps : (d : Device) → Keeps (bring_up env d)
  unfolding bring_up
  bring_up-Keeps d = search (basic, mark_online-Keeps) depth 9

  leave-Keeps : (d : Device) → Keeps (leave env d)
  unfolding leave
  leave-Keeps d = record {
    keeps = λ w v. (Keeps-when (not (is_seen w.online_macs d)) (take_down-Keeps d)).keeps w v;
  }

  arrive-Keeps : (d : Device) → Keeps (arrive env d)
  unfolding arrive
  arrive-Keeps d = record {
    keeps = λ w v. (Keeps-when (is_seen w.online_macs d) (bring_up-Keeps d)).keeps w v;
  }

  leave_all-Keeps : Keeps (leave_all env)
  unfolding leave_all
  leave_all-Keeps = record {
    keeps = λ w v. (Keeps-for_each (list_by_status online w.store) leave-Keeps).keeps w v;
  }

  arrive_all-Keeps : Keeps (arrive_all env)
  unfolding arrive_all
  arrive_all-Keeps = record {
    keeps = λ w v. (Keeps-for_each (list_by_status offline w.store) arrive-Keeps).keeps w v;
  }

  pub transitions-Keeps : Keeps (transitions env)
  unfolding transitions
  transitions-Keeps = record {
    keeps = λ w v. elim (Bool-cases (is_nil w.online_macs)) [
      | inl empty ↦ rw empty v
      | inr seen ↦ rw seen ((Keeps-bind leave_all-Keeps (λ u. arrive_all-Keeps)).keeps w v)
    ];
  }

  pub with_snapshot-Keeps :
      (s : Option NetworkSnapshot) {f : NetworkSnapshot → World → Outcome Unit × World}
      → ((s : NetworkSnapshot) → Keeps (f s))
      → Keeps (with_snapshot f s)
  with_snapshot-Keeps none h = Keeps-return tt
  with_snapshot-Keeps (some s) h = h s

  pub if_deco-Keeps : {m : World → Outcome Unit × World} → Keeps m → Keeps (if_deco m)
  if_deco-Keeps {m} h = record { keeps = λ w v. (Keeps-when (has_deco w) h).keeps w v }

  pub reconcile-Keeps :
      (now : ℕ) (s : NetworkSnapshot) → Keeps (do_to (reconcile_deco_endpoint now s))
  unfolding reconcile_deco_endpoint reconcile_at
  reconcile-Keeps now s = Keeps-pure (λ w. ground arith)

  pub nodes-Keeps :
      (now : ℕ) (s : NetworkSnapshot) → Keeps (do_to (update_deco_node_endpoints now s))
  unfolding update_deco_node_endpoints
  nodes-Keeps now s = Keeps-pure (λ w. refl)

  pub merged_with-Keeps : (i : Inputs) (s : Option NetworkSnapshot) → Keeps (merged_with i s)
  merged_with-Keeps i none = Keeps-pure (λ w. refl)
  merged_with-Keeps i (some s) = Keeps-pure (λ w. refl)

  pub update_last_scan-Keeps : Keeps (on_store (update_last_scan (stamp env)))
  unfolding update_last_scan
  update_last_scan-Keeps =
      Keeps-on_store (update_last_scan (stamp env)) (λ s v. polling_replaced s _ v)

  pub count_online-Keeps : Keeps count_online
  unfolding count_online
  count_online-Keeps = Keeps-pure (λ w. refl)

  scan_body-Keeps : (i : Inputs) → Keeps (scan_body env i)
  unfolding scan_body
  scan_body-Keeps i =
      search
        (
          basic, merged_with-Keeps, with_snapshot-Keeps, reconcile-Keeps, nodes-Keeps,
          persist_all-Keeps, sync_ips_and_reservations-Keeps, if_deco-Keeps, deco_supplement-Keeps,
          deco_nodes-Keeps, chester_check-Keeps, count_online-Keeps, transitions-Keeps,
          update_last_scan-Keeps,
        )
        depth 20

note_error-Keeps : (env : Env) (i : Inputs) (e : Failure) → Keeps (note_error env i e)
note_error-Keeps env i e = Keeps-pure (λ w. refl)

-- A scan of a sound database, whatever the network, the router and the Deco answer and wherever it
-- fails, leaves the database sound: every key distinct and every reference intact.
pub scan_and_update-IsSound :
    (env : Env) (i : Inputs) (w : World) → IsSound w.store → IsSound (scan_and_update env i w).store
unfolding scan_and_update
scan_and_update-IsSound env i w v =
    (Keeps-attempt (scan_body-Keeps env i) (note_error-Keeps env i)).keeps
      (record w { online_macs = []; results = empty_results }) v
