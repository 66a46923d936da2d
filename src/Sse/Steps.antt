-- ===== src/Sse/Steps.antt =====
-- What the calls of the module can do to the hub: queues stay bounded, and one that was removed
-- gets no further message.
use homesentinel.Prelude.{
  ℕ, ◌≤◌, ◌<◌, ◌≡◌, refl, ap, ◌∙◌, Bool, false, ◌==◌, List, [], ◌∷◌, ◌++◌, any, any-append, length,
  length-append, arith, Bool-cases, inl, inr,
}
use homesentinel.Sse.{
  Message, Hub, set_queue, has_room, put_all, remove, remove_all, publish_event, sse_events,
  tail_of, receive, disconnect,
}

-- One call, or one turn of a stream's generator
pub data Step {D : Type 0} : Hub D → Hub D → Type 0 where
  publishes : (m : Message D) (h : Hub D) → Step h (publish_event m h)
  connects : (h : Hub D) → Step h (sse_events h)
  receives : (q : ℕ) (h : Hub D) → Step h (receive q h)
  disconnects : (q : ℕ) (h : Hub D) → Step h (disconnect q h)

pub data Reaches {D : Type 0} : Hub D → Hub D → Type 0 where
  stays : (h : Hub D) → Reaches h h
  then_step : {h i j : Hub D} → Reaches h i → Step i j → Reaches h j

abbrev pub is_in : ℕ → List ℕ → Bool
is_in q = any (λ r. r == q)

-- Removing adds no subscriber.
pub is_in-remove : (q r : ℕ) (rs : List ℕ) → is_in q rs ≡ false → is_in q (remove r rs) ≡ false
unfolding any remove
is_in-remove q r [] h = refl
is_in-remove q r (s ∷ rs) h = ground (arith, h, is_in-remove q r rs)

is_in-remove_all :
    (q : ℕ) (dead rs : List ℕ) → is_in q rs ≡ false → is_in q (remove_all dead rs) ≡ false
unfolding remove_all
is_in-remove_all q [] rs h = h
is_in-remove_all q (d ∷ dead) rs h = is_in-remove_all q dead (remove d rs) (is_in-remove q d rs h)

module _ {D : Type 0} where
  -- Messages go to subscribers only.
  put_all-other :
      (m : Message D) (q : ℕ) (qs : List ℕ) (queues : ℕ → List (Message D))
      → is_in q qs ≡ false
      → (put_all m qs queues).1 q ≡ queues q
  unfolding put_all any
  put_all-other m q [] queues h = refl
  put_all-other m q (r ∷ qs) queues h = ground (
    arith,
    h,
    put_all-other m q qs queues,
    put_all-other m q qs (set_queue r (queues r ++ (m ∷ [])) queues),
  )

  put_all_bounded :
      (m : Message D) (qs : List ℕ) (queues : ℕ → List (Message D))
      → ((q : ℕ) → length (queues q) ≤ 100)
      → (q : ℕ) → length ((put_all m qs queues).1 q) ≤ 100
  unfolding put_all
  put_all_bounded m [] queues h q = h q
  put_all_bounded m (r ∷ qs) queues h q = elim (Bool-cases (has_room queues r)) [
    | inl e ↦ rw e (
        put_all_bounded m qs (set_queue r (queues r ++ (m ∷ [])) queues)
          (λ s. ground (arith, h s, e, length-append (queues r) (m ∷ []))) q)
    | inr e ↦ rw e (put_all_bounded m qs queues h q)
  ]

  unfoldable pub IsBounded : Hub D → Type 0
  IsBounded h = (q : ℕ) → length (h.queues q) ≤ 100

  Step-IsBounded : {h i : Hub D} → Step h i → IsBounded h → IsBounded i
  unfolding IsBounded publish_event sse_events receive disconnect
  Step-IsBounded (publishes m h) b = put_all_bounded m h.subscribers h.queues b
  Step-IsBounded (connects h) b = λ q. ground (arith, b q)
  Step-IsBounded (receives r h) b = λ q. ground (arith, b q, b r)
  Step-IsBounded (disconnects r h) b = b

  -- A queue that was made, has left the subscribers and holds at most n messages
  unfoldable pub IsSilent : ℕ → ℕ → Hub D → Type 0
  IsSilent q n h = (is_in q h.subscribers ≡ false) × ((q < h.made) × (length (h.queues q) ≤ n))

  tail_shorter : (ms : List (Message D)) (n : ℕ) → length ms ≤ n → length (tail_of ms) ≤ n
  tail_shorter [] n h = h
  tail_shorter (m ∷ ms) n h = omega arith

  publish-IsSilent :
      (m : Message D) (q n : ℕ) (h : Hub D) → IsSilent q n h → IsSilent q n (publish_event m h)
  unfolding IsSilent publish_event
  publish-IsSilent m q n h (out, (old, few)) = (
    is_in-remove_all q (put_all m h.subscribers h.queues).0 h.subscribers out,
    (old, omega (arith, few, ap length (put_all-other m q h.subscribers h.queues out))),
  )

  connect-IsSilent : (q n : ℕ) (h : Hub D) → IsSilent q n h → IsSilent q n (sse_events h)
  unfolding IsSilent sse_events any
  connect-IsSilent q n h (out, (old, few)) = (
    any-append (λ r. r == q) h.subscribers (h.made ∷ []) ∙ ground (arith, out, old),
    (omega arith, ground (arith, old, few)),
  )

  Step-IsSilent : {h i : Hub D} (q n : ℕ) → Step h i → IsSilent q n h → IsSilent q n i
  unfolding IsSilent receive disconnect
  Step-IsSilent q n (publishes m h) s = publish-IsSilent m q n h s
  Step-IsSilent q n (connects h) s = connect-IsSilent q n h s
  Step-IsSilent q n (receives r h) (out, (old, few)) =
      (out, (old, ground (arith, few, tail_shorter (h.queues q) n few)))
  Step-IsSilent q n (disconnects r h) (out, (old, few)) =
      (ground (arith, out, is_in-remove q r h.subscribers out), (old, few))

  -- Whatever calls and turns follow, no queue holds more than 100 messages if none does at first.
  pub reaches-IsBounded : {h i : Hub D} → Reaches h i → IsBounded h → IsBounded i
  reaches-IsBounded (stays h) b = b
  reaches-IsBounded (then_step r s) b = Step-IsBounded s (reaches-IsBounded r b)

  -- Whatever calls and turns follow, a queue that was made and has left the subscribers never
  -- subscribes again and never holds more messages than it did: its stream, if it is still open,
  -- gets no further event.
  pub reaches-IsSilent : {h i : Hub D} (q n : ℕ) → Reaches h i → IsSilent q n h → IsSilent q n i
  reaches-IsSilent q n (stays h) s = s
  reaches-IsSilent q n (then_step r t) s = Step-IsSilent q n t (reaches-IsSilent q n r s)
