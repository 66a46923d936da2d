-- ===== src/Sse/Delivery.antt =====
-- What `publish_event` delivers, to whom, and whom it drops.
use homesentinel.Prelude.{
  ℕ, ◌≡◌, refl, ap, ◌∙◌, Bool, false, ◌&&◌, not, ==_iff, List, [], ◌∷◌, ◌++◌, any, select, arith,
  if◌then◌else◌, Bool-cases, inl, inr,
}
use homesentinel.Sse.{Message, Hub, set_queue, has_room, put_all, remove, remove_all, publish_event}
use homesentinel.Sse.Steps.{is_in}

-- No number occurs twice.
unfoldable pub IsDistinct : List ℕ → Type 0
IsDistinct [] = Unit
IsDistinct (q ∷ qs) = (is_in q qs ≡ false) × IsDistinct qs

remove_other :
    (dead : List ℕ) (q : ℕ) (rs : List ℕ)
    → is_in q dead ≡ false
    → remove_all dead (q ∷ rs) ≡ q ∷ remove_all dead rs
unfolding remove_all any remove
remove_other [] q rs h = refl
remove_other (d ∷ dead) q rs h =
    ground (arith, h, ==_iff q d, ==_iff d q, remove_other dead q (remove d rs) (ground (arith, h)))

is_in-select :
    (p : ℕ → Bool) (q : ℕ) (qs : List ℕ) → is_in q qs ≡ false → is_in q (select p qs) ≡ false
unfolding any select
is_in-select p q [] h = refl
is_in-select p q (r ∷ qs) h = ground (arith, h, is_in-select p q qs)

remove_head : (q : ℕ) (qs : List ℕ) → remove q (q ∷ qs) ≡ qs
unfolding remove
remove_head q qs = ground arith

-- Removing the numbers that do not meet a condition leaves those that do.
remove_all-select :
    (p : ℕ → Bool) (qs : List ℕ)
    → IsDistinct qs
    → remove_all (select (λ q. not (p q)) qs) qs ≡ select p qs
unfolding IsDistinct select remove_all
remove_all-select p [] d = refl
remove_all-select p (q ∷ qs) d = elim (Bool-cases (p q)) [
  | inl e ↦ rw e (
      remove_other (select (λ r. not (p r)) qs) q qs (is_in-select (λ r. not (p r)) q qs d.0)
      ∙ ap (λ t. q ∷ t) (remove_all-select p qs d.1))
  | inr e ↦
      rw e (
        ap (remove_all (select (λ r. not (p r)) qs)) (remove_head q qs)
        ∙ remove_all-select p qs d.1)
]

module _ {D : Type 0} where
  put_all_lem :
      (m : Message D) (q : ℕ) (qs : List ℕ) (queues : ℕ → List (Message D))
      → IsDistinct qs
      → (put_all m qs queues).1 q
        ≡ (if is_in q qs && has_room queues q then queues q ++ (m ∷ []) else queues q)
  unfolding put_all any IsDistinct
  put_all_lem m q [] queues d = refl
  put_all_lem m q (r ∷ qs) queues d = ground (
    arith,
    d,
    put_all_lem m q qs queues d.1,
    put_all_lem m q qs (set_queue r (queues r ++ (m ∷ [])) queues) d.1,
    ==_iff r q,
  )

  select_set :
      (r : ℕ) (ms : List (Message D)) (qs : List ℕ) (queues : ℕ → List (Message D))
      → is_in r qs ≡ false
      → select (λ q. not (has_room (set_queue r ms queues) q)) qs
        ≡ select (λ q. not (has_room queues q)) qs
  unfolding select any
  select_set r ms [] queues h = refl
  select_set r ms (q ∷ qs) queues h =
      ground (arith, h, ==_iff r q, ==_iff q r, select_set r ms qs queues)

  put_all-dead :
      (m : Message D) (qs : List ℕ) (queues : ℕ → List (Message D))
      → IsDistinct qs
      → (put_all m qs queues).0 ≡ select (λ q. not (has_room queues q)) qs
  unfolding put_all select IsDistinct
  put_all-dead m [] queues d = refl
  put_all-dead m (r ∷ qs) queues d = ground (
    arith,
    put_all-dead m qs queues d.1,
    put_all-dead m qs (set_queue r (queues r ++ (m ∷ [])) queues) d.1,
    select_set r (queues r ++ (m ∷ [])) qs queues d.0,
  )

  -- If no queue subscribes twice, publishing puts the message at the end of the queue of each
  -- subscriber with room for it and of no other queue, and keeps as subscribers just those.
  pub publish_event_lem :
      (m : Message D) (h : Hub D)
      → IsDistinct h.subscribers
      → ((publish_event m h).subscribers ≡ select (has_room h.queues) h.subscribers)
        × ((q : ℕ)
            → (publish_event m h).queues q ≡ (
                if is_in q h.subscribers && has_room h.queues q
                then h.queues q ++ (m ∷ [])
                else h.queues q))
  unfolding publish_event
  publish_event_lem m h d = (
    ap (λ dead. remove_all dead h.subscribers) (put_all-dead m h.subscribers h.queues d)
        ∙ remove_all-select (has_room h.queues) h.subscribers d,
    λ q. put_all_lem m q h.subscribers h.queues d,
  )
