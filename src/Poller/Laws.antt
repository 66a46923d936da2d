-- ===== src/Poller/Laws.antt =====
-- When the poller scans, and that its scans keep the database sound.
use homesentinel.Prelude.{
  ℕ, ◌≡◌, refl, leb, Bool, true, false, not, List, [], ◌∷◌, count, arith, ◌∙◌, ◌||◌, Bool-cases,
  inl, inr,
}
use homesentinel.Db.Integrity.{IsSound}
use homesentinel.Scanner.Soundness.{scan_and_update-IsSound}
use homesentinel.Poller.{
  check_home_network, Poller, set_polling_interval, start_polling, stop_polling, Turn, perform_scan,
  polling_turn,
}

-- Turn after turn
unfoldable pub turns : List Turn → Poller → Poller
turns [] p = p
turns (t ∷ ts) p = turns ts (polling_turn t p)

abbrev pub at_home : Turn → Bool
at_home t = (check_home_network t.ping).is_home

turn-IsSound :
    (t : Turn) (p : Poller) → IsSound p.world.store → IsSound (polling_turn t p).world.store
unfolding polling_turn perform_scan
turn-IsSound t p v = ground (arith, v, scan_and_update-IsSound t.env t.inputs p.world v)

-- However long a poller over a sound database runs, and whatever its scans meet, the database
-- stays sound.
pub turns-IsSound :
    (ts : List Turn) (p : Poller) → IsSound p.world.store → IsSound (turns ts p).world.store
unfolding turns
turns-IsSound [] p v = v
turns-IsSound (t ∷ ts) p v = turns-IsSound ts (polling_turn t p) (turn-IsSound t p v)

away_lem :
    (t : Turn) (p : Poller)
    → (p.auto_scan_paused || not (at_home t)) ≡ true
    → (polling_turn t p).world ≡ p.world
unfolding polling_turn perform_scan
away_lem t p h = ground (arith, h)

-- Turns that find the poller away from home leave the database and the rest of the world as they
-- are.
pub turns_away : (ts : List Turn) (p : Poller) → count at_home ts ≡ 0 → (turns ts p).world ≡ p.world
unfolding turns count
turns_away [] p h = refl
turns_away (t ∷ ts) p h = elim (Bool-cases (at_home t)) [
  | inl home ↦ ground (arith, h, home)
  | inr away ↦
      turns_away ts (polling_turn t p) (ground (arith, h, away))
      ∙ away_lem t p (ground (arith, away))
]

-- What can happen to a poller.
pub data Request : Type 0 where
  sets_interval : ℕ → Request
  starts stops : Request
  turns_once : Turn → Request

unfoldable pub serve : List Request → Poller → Poller
serve [] p = p
serve (sets_interval n ∷ rs) p = serve rs (set_polling_interval n p).1
serve (starts ∷ rs) p = serve rs (start_polling p)
serve (stops ∷ rs) p = serve rs (stop_polling p)
serve (turns_once t ∷ rs) p = serve rs (polling_turn t p)

-- The interval is positive, and a running poller has a task.
pub record IsReady (p : Poller) : Type 0 where
  pub waits : leb p.polling_interval 0 ≡ false
  pub has_task : p.is_running ≡ true → p.has_task ≡ true

turn-IsReady : (t : Turn) (p : Poller) → IsReady p → IsReady (polling_turn t p)
unfolding polling_turn perform_scan
turn-IsReady t p r = record {
  waits = ground (arith, r.waits);
  has_task = λ h. ground (arith, h, r.has_task);
}

interval-IsReady : (n : ℕ) (p : Poller) → IsReady p → IsReady (set_polling_interval n p).1
unfolding set_polling_interval
interval-IsReady n p r = elim (Bool-cases (leb n 0)) [
  | inl refused ↦ rw refused r
  | inr fine ↦ rw fine (record { waits = fine; has_task = r.has_task })
]

start-IsReady : (p : Poller) → IsReady p → IsReady (start_polling p)
unfolding start_polling
start-IsReady p r = record {
  waits = ground (arith, r.waits);
  has_task = λ h. ground (arith, h, r.has_task);
}

-- Of a poller with a positive interval, and with a task if it runs, this stays true whatever is
-- asked of it in whatever order.
pub serve-IsReady : (rs : List Request) (p : Poller) → IsReady p → IsReady (serve rs p)
unfolding serve stop_polling
serve-IsReady [] p r = r
serve-IsReady (sets_interval n ∷ rs) p r =
    serve-IsReady rs (set_polling_interval n p).1 (interval-IsReady n p r)
serve-IsReady (starts ∷ rs) p r = serve-IsReady rs (start_polling p) (start-IsReady p r)
serve-IsReady (stops ∷ rs) p r =
    serve-IsReady rs (stop_polling p)
      (record { waits = r.waits; has_task = λ h. ground (arith, h) })
serve-IsReady (turns_once t ∷ rs) p r = serve-IsReady rs (polling_turn t p) (turn-IsReady t p r)
