-- ===== src/Sse.antt =====
-- backend/routes/sse.py: the subscribers' queues, `publish_event`, `sse_events` and the steps of
-- `_event_generator`. A queue is known by a number; the text of an event on the wire, the
-- keepalive and the timestamps of the generator are not modelled.
pub mod Steps
pub mod Delivery
pub mod Proper
use homesentinel.Prelude.{
  ℕ, zero, suc, ◌+◌, Text, Bool, true, false, ◌==◌, ltb, Option, none, some, List, [], ◌∷◌, ◌++◌,
  any, length, if◌then◌else◌,
}

-- The data of a message is of any type.
pub record Message (D : Type 0) : Type 0 where
  pub type : Text
  pub timestamp : ℕ
  pub payload : D

-- The queues that were ever made have the numbers below `made`; a queue may be in use by its
-- stream when it is no longer among the subscribers.
pub record Hub (D : Type 0) : Type 0 where
  pub subscribers : List ℕ
  pub queues : ℕ → List (Message D)
  pub made : ℕ

module _ {D : Type 0} where
  abbrev pub set_queue : ℕ → List (Message D) → (ℕ → List (Message D)) → ℕ → List (Message D)
  set_queue q ms queues r = if q == r then ms else queues r

  -- `put_nowait` does not raise `QueueFull`.
  abbrev pub has_room : (ℕ → List (Message D)) → ℕ → Bool
  has_room queues q = ltb (length (queues q)) 100

  abbrev pub add_dead : ℕ → List ℕ × (ℕ → List (Message D)) → List ℕ × (ℕ → List (Message D))
  add_dead q (dead, queues) = (q ∷ dead, queues)

  -- The first loop of `publish_event`: the queues that are full, and the store
  unfoldable pub put_all :
      Message D → List ℕ → (ℕ → List (Message D)) → List ℕ × (ℕ → List (Message D))
  put_all m [] queues = ([], queues)
  put_all m (q ∷ qs) queues =
      let delivered = put_all m qs (set_queue q (queues q ++ (m ∷ [])) queues) in
      let passed = put_all m qs queues in if has_room queues q then delivered else add_dead q passed

-- `_subscribers.remove(q)`
unfoldable pub remove : ℕ → List ℕ → List ℕ
remove q [] = []
remove q (r ∷ rs) = let rest = remove q rs in if r == q then rs else r ∷ rest

-- The second loop
unfoldable pub remove_all : List ℕ → List ℕ → List ℕ
unfolding remove
remove_all [] subscribers = subscribers
remove_all (q ∷ dead) subscribers = remove_all dead (remove q subscribers)

module _ {D : Type 0} where
  -- `publish_event`
  unfoldable pub publish_event : Message D → Hub D → Hub D
  unfolding put_all remove_all
  publish_event m h =
      let r = put_all m h.subscribers h.queues in
      record h { subscribers = remove_all r.0 h.subscribers; queues = r.1 }

  -- `sse_events`: a new queue subscribes.
  unfoldable pub sse_events : Hub D → Hub D
  sse_events h = record {
    subscribers = h.subscribers ++ (h.made ∷ []);
    queues = set_queue h.made [] h.queues;
    made = h.made + 1;
  }

  abbrev pub tail_of : List (Message D) → List (Message D)
  tail_of [] = []
  tail_of (m ∷ ms) = ms

  -- `queue.get()` in the generator; on an empty queue it times out.
  unfoldable pub receive : ℕ → Hub D → Hub D
  receive q h = record h { queues = set_queue q (tail_of (h.queues q)) h.queues }

  -- The `finally` of the generator
  unfoldable pub disconnect : ℕ → Hub D → Hub D
  unfolding remove
  disconnect q h = record h {
    subscribers = if any (λ r. r == q) h.subscribers then remove q h.subscribers else h.subscribers;
  }
