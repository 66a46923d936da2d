-- ===== src/LocalServices/Record.antt =====
-- What `_record` keeps: as many rows as the retention, and an event only for a changed status.
use mathlib.Core.Path.{subst}
use homesentinel.Prelude.{
  ℕ, zero, suc, ◌+◌, ◌-◌, ◌≤◌, ◌≡◌, refl, sym, ap, ◌∙◌, Text, text_eq, text_eq_refl, text_eq_iff,
  true, some, List, [], ◌∷◌, ◌++◌, Bool-cases, inl, inr, All-map, append_assoc, All-append, any,
  any-append, find, take, length, length-append, length-take, take_all, All, arith,
}
use homesentinel.LocalServices.State.{Status, Sample, Service, Tables, Monitor}
use homesentinel.LocalServices.Snapshot.{
  same_status, last_status, add_event, add_sample, record_service, record_services, record_all,
  kept,
}

same_status_refl : (s : Status) → same_status s s ≡ true
same_status_refl s = text_eq_refl _

-- A service whose last sample has its status gives no event.
record_service_quiet :
    (now : Text) (s : Service) (t : Tables)
    → last_status s.id t.samples ≡ some s.status
    → record_service now s t ≡ add_sample now s t
unfolding record_service
record_service_quiet now s t h = rw (h, same_status_refl s.status) refl

IsUnchanged : List Service → List Sample → Type 0
IsUnchanged ss samples = All (λ s. last_status s.id samples ≡ some s.status) ss

-- Sampling a status again changes no last status.
add_sample-last_status :
    (now : Text) (s : Service) (t : Tables) (id : Text)
    → last_status s.id t.samples ≡ some s.status
    → last_status id (add_sample now s t).samples ≡ last_status id t.samples
unfolding add_sample last_status find
add_sample-last_status now s t id h = ground (arith, h, text_eq_iff s.id id)

add_sample-events : (now : Text) (s : Service) (t : Tables) → (add_sample now s t).events ≡ t.events
unfolding add_sample
add_sample-events now s t = refl

add_sample-IsUnchanged :
    (now : Text) (s : Service) (t : Tables) (ss : List Service)
    → last_status s.id t.samples ≡ some s.status
    → IsUnchanged ss t.samples
    → IsUnchanged ss (add_sample now s t).samples
unfolding IsUnchanged
add_sample-IsUnchanged now s t [] h u = tt
add_sample-IsUnchanged now s t (r ∷ ss) h u =
    (add_sample-last_status now s t r.id h ∙ u.0, add_sample-IsUnchanged now s t ss h u.1)

record_services_quiet :
    (now : Text) (ss : List Service) (t : Tables)
    → IsUnchanged ss t.samples
    → (record_services now ss t).events ≡ t.events
unfolding record_services IsUnchanged
record_services_quiet now [] t u = refl
record_services_quiet now (s ∷ ss) t u =
    ap (λ t'. (record_services now ss t').events) (record_service_quiet now s t u.0)
    ∙ (record_services_quiet now ss (add_sample now s t) (add_sample-IsUnchanged now s t ss u.0 u.1)
        ∙ add_sample-events now s t)

-- The newest samples are one of each service; `f` gives the status that belongs to an id.
pub record Added (f : Text → Status) (ss : List Service) (before after : List Sample) : Type 0 where
  pub rows : List Sample
  pub front : after ≡ rows ++ before
  pub as_many : length rows ≡ length ss
  pub statuses : All (λ row. row.status ≡ f row.service_id) rows
  pub ids :
      (id : Text) → any (λ row. text_eq row.service_id id) rows ≡ any (λ s. text_eq s.id id) ss

sample_of : Text → Service → Tables → Sample
sample_of now s t = record {
  id = t.last_sample + 1;
  service_id = s.id;
  status = s.status;
  response_time_ms = s.response_time_ms;
  connection_count = 0;
  sampled_at = now;
}

record_service-samples :
    (now : Text) (s : Service) (t : Tables)
    → (record_service now s t).samples ≡ sample_of now s t ∷ t.samples
unfolding record_service add_sample add_event sample_of
record_service-samples now s t = ground arith

record_services-Added :
    (f : Text → Status) (now : Text) (ss : List Service) (t : Tables)
    → All (λ s. s.status ≡ f s.id) ss
    → Added f ss t.samples (record_services now ss t).samples
unfolding record_services any sample_of
record_services-Added f now [] t h = record {
  rows = [];
  front = refl;
  as_many = refl;
  statuses = tt;
  ids = λ id. refl;
}
record_services-Added f now (s ∷ ss) t h =
    let rest = record_services-Added f now ss (record_service now s t) h.1 in
    let row = sample_of now s t in
    record {
      rows = rest.rows ++ (row ∷ []);
      front =
          rest.front
          ∙ ap (λ xs. rest.rows ++ xs) (record_service-samples now s t)
          ∙ sym (append_assoc rest.rows (row ∷ []) t.samples);
      as_many = omega (arith, length-append rest.rows (row ∷ []), rest.as_many);
      statuses =
          All-append (λ r. r.status ≡ f r.service_id) rest.rows (row ∷ []) rest.statuses (h.0, tt);
      ids = λ id.
          any-append (λ r. text_eq r.service_id id) rest.rows (row ∷ [])
          ∙ ground (arith, rest.ids id);
    }

-- The last status of an id that is among the rows is the one that belongs to it.
find_status :
    (f : Text → Status) (id : Text) (rows old : List Sample)
    → All (λ row. row.status ≡ f row.service_id) rows
    → any (λ row. text_eq row.service_id id) rows ≡ true
    → last_status id (rows ++ old) ≡ some (f id)
unfolding last_status find any
find_status f id [] old h a = absurd (ground (arith, a))
find_status f id (row ∷ rows) old h a = elim (Bool-cases (text_eq row.service_id id)) [
  | inl e ↦ rw (e, h.0, (text_eq_iff row.service_id id).0 e) refl
  | inr e ↦ rw e (find_status f id rows old h.1 (ground (arith, a, e)))
]

any_id : (s : Service) (ss : List Service) → any (λ r. text_eq r.id s.id) (s ∷ ss) ≡ true
unfolding any
any_id s ss = ground (arith, text_eq_refl s.id)

-- Every service of a list whose ids are all among the rows
All-found :
    (f : Text → Status) (ss : List Service) (rows old : List Sample)
    → All (λ row. row.status ≡ f row.service_id) rows
    → All (λ s. s.status ≡ f s.id) ss
    → All (λ s. any (λ row. text_eq row.service_id s.id) rows ≡ true) ss
    → IsUnchanged ss (rows ++ old)
unfolding IsUnchanged
All-found f [] rows old h g k = tt
All-found f (s ∷ ss) rows old h g k =
    (find_status f s.id rows old h k.0 ∙ ap some (sym g.0), All-found f ss rows old h g.1 k.1)

among : (ss : List Service) → All (λ s. any (λ r. text_eq r.id s.id) ss ≡ true) ss
unfolding any
among [] = tt
among (s ∷ ss) = (
  any_id s ss,
  All-map (λ r. any (λ q. text_eq q.id r.id) ss ≡ true)
      (λ r. any (λ q. text_eq q.id r.id) (s ∷ ss) ≡ true) ss (λ r h. ground (arith, h)) (among ss),
)

take_front :
    {A : Type 0} (n : ℕ) (xs ys : List A)
    → length xs ≤ n
    → take n (xs ++ ys) ≡ xs ++ take (n - length xs) ys
take_front n [] ys h = ap (λ k. take k ys) (omega arith)
take_front zero (x ∷ xs) ys h = absurd (omega arith)
take_front (suc n) (x ∷ xs) ys h =
    ap (λ zs. x ∷ zs) (take_front n xs ys (omega arith) ∙ ap (λ k. xs ++ take k ys) (omega arith))

module _ (m : Monitor) where
  record_all-samples :
      (ss : List Service) (t : Tables)
      → (record_all m ss t).samples ≡ take (kept m) (record_services m.now ss t).samples
  unfolding record_all
  record_all-samples ss t = refl

  record_all-IsUnchanged :
      (f : Text → Status) (ss : List Service) (t : Tables)
      → All (λ s. s.status ≡ f s.id) ss
      → length ss ≤ kept m
      → IsUnchanged ss (record_all m ss t).samples
  record_all-IsUnchanged f ss t h l =
      let a = record_services-Added f m.now ss t h in
      subst (λ xs. IsUnchanged ss xs)
        (sym (
          record_all-samples ss t
          ∙ ap (λ xs. take (kept m) xs) a.front
          ∙ take_front (kept m) a.rows t.samples (omega (arith, a.as_many))))
        (All-found f ss a.rows (take (kept m - length a.rows) t.samples) a.statuses h (
          All-map (λ s. any (λ r. text_eq r.id s.id) ss ≡ true)
            (λ s. any (λ row. text_eq row.service_id s.id) a.rows ≡ true) ss (λ s e. a.ids s.id ∙ e)
            (among ss)))

  -- Both tables have at most as many rows as the retention, which counts as 1 if it is 0.
  pub length-record_all :
      (ss : List Service) (t : Tables)
      → (length (record_all m ss t).samples ≤ kept m) × (length (record_all m ss t).events ≤ kept m)
  unfolding record_all
  length-record_all ss t = (
    length-take (kept m) (record_services m.now ss t).samples,
    length-take (kept m) (record_services m.now ss t).events,
  )

  -- Recording the same services again, at any time, logs no event, if services with one id have one
  -- status and there are at most as many services as the retention.
  pub record_all_again :
      (f : Text → Status) (now : Text) (ss : List Service) (t : Tables)
      → All (λ s. s.status ≡ f s.id) ss
      → length ss ≤ kept m
      → (record_all (record m { now = now }) ss (record_all m ss t)).events
        ≡ (record_all m ss t).events
  unfolding record_all
  record_all_again f now ss t h l =
      ap (λ es. take (kept m) es)
        (record_services_quiet now ss (record_all m ss t) (record_all-IsUnchanged f ss t h l))
      ∙ take_all (kept m) (record_all m ss t).events (length-record_all ss t).1
