-- ===== src/Retention/Whole.antt =====
-- The full cleanup, by the dates of the rows.
use homesentinel.Prelude.{
  ℕ, ◌≡◌, refl, ◌∙◌, Text, text_eq, text_ltb, text_length, Bool, true, false, not, ◌&&◌, ◌||◌,
  Option, none, some, List, [], All, All-map, Distinct, delete, any, take, arith, delete-cong,
  Bool-cases, inl, inr, eq-of-text_eq, ◌⊎◌, ◌∷◌,
}
use homesentinel.Db.Schema.{Event, Alert, Store, Moment, isoformat, current_timestamp, is_event}
use homesentinel.Db.Devices.{loses_event}
use homesentinel.Db.Events.{older}
use homesentinel.Db.Integrity.{IsSound}
use homesentinel.Retention.Cutoff.{current_timestamp-before-isoformat}
use homesentinel.Retention.{days_or, cleanup_all, stale_alert, dismissed_before}
use homesentinel.Retention.Laws.{
  IsStamped, on_or_before, older-IsStamped, take_date, cleanup_all_rows,
}

-- The alert was not dismissed, or at a moment that CURRENT_TIMESTAMP wrote.
abbrev pub IsDatedAlert : Alert → Type 0
IsDatedAlert a =
    ((t : Moment) × (a.dismissed_at ≡ some (current_timestamp t)) × (text_length t.date ≡ 10))
    ⊎ (a.dismissed_at ≡ none)

-- The date of a moment that is there is on or before another.
abbrev pub was_by : Text → Option Text → Bool
was_by date none = false
was_by date (some t) = text_ltb (take 10 t) date || text_eq (take 10 t) date

-- An event of the alert stays: it is there, and its date is after the cutoff's.
abbrev pub keeps_event : Text → List Event → Alert → Bool
keeps_event date es a = any (λ e. is_event a.event_id e && not (on_or_before date e)) es

-- The alert goes with its event, or as one that was dismissed on or before the date.
abbrev pub goes : Text → List Event → Alert → Bool
goes date es a = not (keeps_event date es a) || (a.dismissed && was_by date a.dismissed_at)

stale-goes :
    (cutoff : Moment) (a : Alert)
    → text_length cutoff.date ≡ 10
    → IsDatedAlert a
    → stale_alert (isoformat cutoff) a ≡ (a.dismissed && was_by cutoff.date a.dismissed_at)
unfolding stale_alert dismissed_before
stale-goes cutoff a h (inr never) = rw never refl
stale-goes cutoff a h (inl (t, stamped, width)) =
    rw
      (
        stamped,
        take_date t.date (b' ' ∷ t.clock) width,
        current_timestamp-before-isoformat t cutoff (omega (arith, h, width)),
      )
      refl

-- Where at most one row has the key, it is not lost exactly when it is kept.
absent_loses :
    (gone : Event → Bool) (k : Text) (es : List Event)
    → any (is_event k) es ≡ false
    → any (λ e. is_event k e && gone e) es ≡ false
unfolding any
absent_loses gone k [] h = refl
absent_loses gone k (e ∷ es) h = ground (arith, h, absent_loses gone k es)

lost_or_kept :
    (gone : Event → Bool) (k : Text) (es : List Event)
    → Distinct (λ e. e.event_id) es
    → any (is_event k) es ≡ true
    → any (λ e. is_event k e && gone e) es ≡ not (any (λ e. is_event k e && not (gone e)) es)
unfolding any
lost_or_kept gone k [] d h = absurd (ground (arith, h))
lost_or_kept gone k (e ∷ es) d h = elim (Bool-cases (is_event k e)) [
  | inr other ↦ rw other (lost_or_kept gone k es d.1 (ground (arith, h, other)))
  | inl own ↦
      let alone : any (is_event k) es ≡ false = rw (← eq-of-text_eq e.event_id k own) d.0 in
      rw (own, absent_loses gone k es alone, absent_loses (λ e. not (gone e)) k es alone)
        (ground arith)
]

kept_by_date :
    (cutoff : Moment) (k : Text) (es : List Event)
    → text_length cutoff.date ≡ 10
    → All IsStamped es
    → any (λ e. is_event k e && not (older (isoformat cutoff) e)) es
      ≡ any (λ e. is_event k e && not (on_or_before cutoff.date e)) es
unfolding any
kept_by_date cutoff k [] h stamped = refl
kept_by_date cutoff k (e ∷ es) h stamped =
    rw (older-IsStamped cutoff e h stamped.0, kept_by_date cutoff k es h stamped.1) refl

goes_lem :
    (cutoff : Moment) (s : Store) (a : Alert)
    → text_length cutoff.date ≡ 10
    → IsSound s
    → All IsStamped s.events
    → any (is_event a.event_id) s.events ≡ true
    → IsDatedAlert a
    → (loses_event (older (isoformat cutoff)) s.events a || stale_alert (isoformat cutoff) a)
      ≡ goes cutoff.date s.events a
unfolding loses_event
goes_lem cutoff s a h v stamped there dated =
    rw
      (
        lost_or_kept (older (isoformat cutoff)) a.event_id s.events v.event_ids there,
        kept_by_date cutoff a.event_id s.events h stamped,
        stale-goes cutoff a h dated,
      )
      refl

All-both :
    {P Q R : Alert → Type 0} (alerts : List Alert)
    → ((a : Alert) → P a → Q a → R a)
    → All P alerts
    → All Q alerts
    → All R alerts
All-both [] f h k = tt
All-both (a ∷ alerts) f h k = (f a h.0 k.0, All-both alerts f h.1 k.1)

-- In a sound database whose events, and whose dismissed alerts, have timestamps as
-- CURRENT_TIMESTAMP writes them, with dates of ten characters, the full cleanup removes exactly the
-- events whose date is on or before the cutoff's, and exactly the alerts whose event goes, dismissed
-- or not, or that were dismissed on a date on or before the cutoff's. An alert that is not dismissed
-- stays with its event. Devices, groups, memberships and links are as they were.
pub cleanup_all_by_date :
    (own : ℕ) (ago : ℕ → Moment) (days : Option ℕ) (s : Store)
    → text_length (ago (days_or days own)).date ≡ 10
    → IsSound s
    → All IsStamped s.events
    → All IsDatedAlert s.alerts
    → let date = (ago (days_or days own)).date in
      let s' = (cleanup_all own ago days s).1 in
      (s'.events ≡ delete (on_or_before date) s.events)
      × (s'.alerts ≡ delete (goes date s.events) s.alerts)
      × (s'.devices ≡ s.devices)
      × (s'.groups ≡ s.groups)
      × (s'.members ≡ s.members)
      × (s'.links ≡ s.links)
unfolding cleanup_all
cleanup_all_by_date own ago days s h v stamped dated = (
  delete-cong _ _ s.events (All-map IsStamped _ s.events (λ e. older-IsStamped cutoff e h) stamped),
  (cleanup_all_rows own ago days s).1
      ∙ delete-cong _ _ s.alerts (
          All-both s.alerts (λ a there. goes_lem cutoff s a h v stamped there) v.alert_events
            dated),
  refl,
  refl,
  refl,
  refl,
)
  where
    cutoff : Moment
    cutoff = ago (days_or days own)
