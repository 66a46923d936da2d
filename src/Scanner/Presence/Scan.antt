-- ===== src/Scanner/Presence/Scan.antt =====
-- The presence that a whole scan leaves behind.
use homesentinel.Prelude.{
  ◌≡◌, refl, false, none, [], arith, Outcome, ok, raised, return, ◌>>=◌, ◌>>◌, continue_with,
  handle, Action,
}
use homesentinel.Db.Integrity.{IsSound}
use homesentinel.Db.Polling.{update_last_scan}
use homesentinel.Scanner.State.{World, Env, on_store, stamp}
use homesentinel.Scanner.Transitions.{transitions, is_nil}
use homesentinel.Scanner.Scan.{Inputs, scan_body, scan_and_update, note_error, empty_results}
use homesentinel.Scanner.Presence.Settled.{Present, transitions-Present}
use homesentinel.Scanner.Soundness.Rules.{Keeps}
use homesentinel.Scanner.Soundness.Effects.{basic}
use homesentinel.Scanner.Soundness.Parts.{persist_all-Keeps, sync_ips_and_reservations-Keeps}
use homesentinel.Scanner.Soundness.Deco.{
  deco_supplement-Keeps, deco_nodes-Keeps, chester_check-Keeps,
}
use homesentinel.Scanner.Soundness.Whole.{
  merged_with-Keeps, with_snapshot-Keeps, reconcile-Keeps, nodes-Keeps, if_deco-Keeps,
  count_online-Keeps,
}

-- Where the action succeeds, and something was seen, presence is right afterwards.
record Ends (m : World → Outcome Unit × World) : Type 0 where
  ends :
      (w : World)
      → IsSound w.store
      → (m w).0 ≡ ok tt
      → is_nil (m w).1.online_macs ≡ false
      → Present (m w).1

continue-Ends :
    {A : Type 0} (k : A → World → Outcome Unit × World) (r : Outcome A) (w : World)
    → ((a : A) → Ends (k a))
    → IsSound w.store
    → (continue_with r w k).0 ≡ ok tt
    → is_nil (continue_with r w k).1.online_macs ≡ false
    → Present (continue_with r w k).1
continue-Ends k (ok a) w hk v h = (hk a).ends w v h
continue-Ends k (raised e) w hk v h = ground arith

Ends-bind :
    {A : Type 0} {m : World → Outcome A × World} {k : A → World → Outcome Unit × World}
    → Keeps m
    → ((a : A) → Ends (k a))
    → Ends (m >>= k)
Ends-bind {m} {k} hm hk = record { ends = λ w v. continue-Ends k (m w).0 (m w).1 hk (hm.keeps w v) }

abbrev stamp_scan : Env → Action World Unit
stamp_scan env = on_store (update_last_scan (stamp env)) >> return tt

after :
    (env : Env) (r : Outcome Unit) (w : World)
    → (is_nil w.online_macs ≡ false → Present w)
    → is_nil (continue_with r w (λ u. stamp_scan env)).1.online_macs ≡ false
    → (continue_with r w (λ u. stamp_scan env)).0 ≡ ok tt
    → Present (continue_with r w (λ u. stamp_scan env)).1
unfolding on_store update_last_scan
after env (ok u) w h seen fine = h seen
after env (raised e) w h seen fine = ground arith

last-Ends : (env : Env) → Ends (transitions env >> stamp_scan env)
last-Ends env = record {
  ends = λ w v fine seen.
      after env (transitions env w).0 (transitions env w).1 (transitions-Present env w v) seen fine;
}

scan_body-Ends : (env : Env) (i : Inputs) → Ends (scan_body env i)
unfolding scan_body
scan_body-Ends env i =
    search
      (
        basic, last-Ends, Ends-bind, merged_with-Keeps, with_snapshot-Keeps, reconcile-Keeps,
        nodes-Keeps, persist_all-Keeps, sync_ips_and_reservations-Keeps, if_deco-Keeps,
        deco_supplement-Keeps, deco_nodes-Keeps, chester_check-Keeps, count_online-Keeps,
      )
      depth 20

finish :
    (env : Env) (i : Inputs) (r : Outcome Unit) (w : World)
    → (r ≡ ok tt → is_nil w.online_macs ≡ false → Present w)
    → (handle r w (note_error env i)).1.results.error ≡ none
    → is_nil (handle r w (note_error env i)).1.online_macs ≡ false
    → Present (handle r w (note_error env i)).1
finish env i (ok tt) w h fine = h refl
finish env i (raised e) w h fine = ground arith

-- After a scan of a sound database that reports no error and saw something, a device is online
-- exactly when its MAC is in the set that the scan collected, but for a device whose status is
-- unknown.
pub scan_and_update-Present :
    (env : Env) (i : Inputs) (w : World)
    → IsSound w.store
    → (scan_and_update env i w).results.error ≡ none
    → is_nil (scan_and_update env i w).online_macs ≡ false
    → Present (scan_and_update env i w)
unfolding scan_and_update
scan_and_update-Present env i w v =
    let start = record w { online_macs = []; results = empty_results } in
    finish env i (scan_body env i start).0 (scan_body env i start).1
      ((scan_body-Ends env i).ends start v)
