-- ===== src/Sse/Proper.antt =====
-- No queue subscribes twice, whatever happens.
use homesentinel.Prelude.{
  ℕ, ◌+◌, ◌<◌, ◌≡◌, refl, false, ◌==◌, List, [], ◌∷◌, ◌++◌, any, any-append, arith, Bool-cases, inl,
  inr, ◌∙◌,
}
use homesentinel.Sse.{
  Hub, put_all, remove, remove_all, publish_event, sse_events, receive, disconnect,
}
use homesentinel.Sse.Steps.{
  Step, publishes, connects, receives, disconnects, Reaches, stays, then_step, is_in, is_in-remove,
}
use homesentinel.Sse.Delivery.{IsDistinct}

remove-IsDistinct : (q : ℕ) (qs : List ℕ) → IsDistinct qs → IsDistinct (remove q qs)
unfolding IsDistinct remove
remove-IsDistinct q [] d = tt
remove-IsDistinct q (r ∷ qs) d = elim (Bool-cases (r == q)) [
  | inl e ↦ rw e d.1
  | inr e ↦ rw e (is_in-remove r q qs d.0, remove-IsDistinct q qs d.1)
]

remove_all-IsDistinct : (dead qs : List ℕ) → IsDistinct qs → IsDistinct (remove_all dead qs)
unfolding remove_all
remove_all-IsDistinct [] qs d = d
remove_all-IsDistinct (q ∷ dead) qs d =
    remove_all-IsDistinct dead (remove q qs) (remove-IsDistinct q qs d)

-- A number from `made` on is not among the subscribers.
IsFresh : ℕ → List ℕ → Type 0
IsFresh made qs = (q : ℕ) → made < q + 1 → is_in q qs ≡ false

remove_all-other :
    (q : ℕ) (dead qs : List ℕ) → is_in q qs ≡ false → is_in q (remove_all dead qs) ≡ false
unfolding remove_all
remove_all-other q [] qs h = h
remove_all-other q (d ∷ dead) qs h = remove_all-other q dead (remove d qs) (is_in-remove q d qs h)

append-IsDistinct :
    (q : ℕ) (qs : List ℕ) → is_in q qs ≡ false → IsDistinct qs → IsDistinct (qs ++ (q ∷ []))
unfolding IsDistinct any
append-IsDistinct q [] h d = (refl, tt)
append-IsDistinct q (r ∷ qs) h d = (
  any-append (λ s. s == r) qs (q ∷ []) ∙ ground (arith, h, d.0),
  append-IsDistinct q qs (ground (arith, h)) d.1,
)

module _ {D : Type 0} where
  -- The subscribers are distinct queues that were made.
  unfoldable pub IsProper : Hub D → Type 0
  unfolding IsDistinct IsFresh
  IsProper h = IsDistinct h.subscribers × IsFresh h.made h.subscribers

  Step-IsProper : {h i : Hub D} → Step h i → IsProper h → IsProper i
  unfolding IsProper IsFresh publish_event sse_events receive disconnect any
  Step-IsProper (publishes m h) (d, f) = (
    remove_all-IsDistinct (put_all m h.subscribers h.queues).0 h.subscribers d,
    λ q l. remove_all-other q (put_all m h.subscribers h.queues).0 h.subscribers (f q l),
  )
  Step-IsProper (connects h) (d, f) = (
    append-IsDistinct h.made h.subscribers (f h.made (omega arith)) d,
    λ q l.
        any-append (λ r. r == q) h.subscribers (h.made ∷ [])
        ∙ ground (arith, l, f q (omega (arith, l))),
  )
  Step-IsProper (receives r h) p = p
  Step-IsProper (disconnects r h) (d, f) = elim (Bool-cases (is_in r h.subscribers)) [
    | inl e ↦
        rw e (remove-IsDistinct r h.subscribers d, λ q l. is_in-remove q r h.subscribers (f q l))
    | inr e ↦ rw e (d, f)
  ]

  -- Whatever calls and turns follow a hub whose subscribers are distinct queues that were made, such
  -- as one without subscribers, they stay so: no queue ever subscribes twice.
  pub reaches-IsProper : {h i : Hub D} → Reaches h i → IsProper h → IsProper i
  reaches-IsProper (stays h) p = p
  reaches-IsProper (then_step r s) p = Step-IsProper s (reaches-IsProper r p)
