-- ===== src/Events/Windows.antt =====
-- When the presence history of a device raises.
use homesentinel.Prelude.{
  ℕ, zero, suc, ◌≡◌, refl, ◌∙◌, Text, Bool, true, false, ◌&&◌, ◌||◌, Option, none, some, List, [],
  ◌∷◌, any, if◌then◌else◌, Outcome, ok, raised, and_then, arith, inl, inr, Option-cases,
}
use homesentinel.Db.Schema.{Store, Event}
use homesentinel.Events.Presence.{
  is_up, is_down, scan_day, day_of, events_on, build_history, presence_events, get_presence_history,
}

abbrev is_some : {A : Type 0} → Option A → Bool
is_some none = false
is_some (some a) = true

abbrev pub is_raised : {A : Type 0} → Outcome A → Bool
is_raised (ok a) = false
is_raised (raised e) = true

module _ (parse : Text → Option ℕ) where
  -- An event that opens or closes a window
  abbrev counts : Event → Bool
  counts e = is_some (parse e.timestamp) && (is_up e || is_down e)

  -- The last event that counts is one of coming online.
  unfoldable pub ends_up : List Event → Bool
  ends_up [] = false
  ends_up (e ∷ es) = let rest = ends_up es in if any counts es then rest else counts e && is_up e

  scan_day-ends_up :
      (es : List Event) (last : Option ℕ)
      → is_some (scan_day parse es last).1 ≡ (if any counts es then ends_up es else is_some last)
  unfolding scan_day ends_up any
  scan_day-ends_up [] last = refl
  scan_day-ends_up (e ∷ es) none = elim (Option-cases (parse e.timestamp)) [
    | inl h ↦ rw h (ground (arith, h, scan_day-ends_up es none))
    | inr (t, h) ↦ rw h (ground (arith, h, scan_day-ends_up es none, scan_day-ends_up es (some t)))
  ]
  scan_day-ends_up (e ∷ es) (some s) = elim (Option-cases (parse e.timestamp)) [
    | inl h ↦ rw h (ground (arith, h, scan_day-ends_up es (some s)))
    | inr (t, h) ↦ rw h (
        ground (
          arith,
          h,
          scan_day-ends_up es none,
          scan_day-ends_up es (some s),
          scan_day-ends_up es (some t),
        ))
  ]

  module _ (hour_of : Text → Option ℕ) where
    -- One of the days before today, or today, ends with the device online.
    unfoldable pub some_day_ends_up : (ℕ → Text) → ℕ → List Event → Bool
    unfolding ends_up
    some_day_ends_up days_ago zero es = false
    some_day_ends_up days_ago (suc d) es =
        ends_up (events_on parse hour_of (days_ago d) es) || some_day_ends_up days_ago d es

    day_raises :
        (date : Text) (es : List Event) (r : List (ℕ × ℕ) × Option ℕ)
        → is_raised (day_of parse hour_of date es r) ≡ is_some (r.1)
    day_raises date es (windows, none) = refl
    day_raises date es (windows, some start) = refl

    raised_either :
        {A B C : Type 0} (o : Outcome A) (p : Outcome B) (f : A → B → C)
        → is_raised (and_then o (λ a. and_then p (λ b. ok (f a b)))) ≡ (is_raised o || is_raised p)
    raised_either (ok a) (ok b) f = refl
    raised_either (ok a) (raised e) f = refl
    raised_either (raised e) p f = refl

    no_start : (b c : Bool) → (if b then c else false) ≡ (b && c)
    no_start true c = refl
    no_start false c = refl

    ends_up-any : (es : List Event) → (if any counts es then ends_up es else false) ≡ ends_up es
    unfolding any ends_up
    ends_up-any [] = refl
    ends_up-any (e ∷ es) = ground (arith, ends_up-any es)

    day-ends_up :
        (date : Text) (es : List Event)
        → is_raised (day_of parse hour_of date es (scan_day parse es none)) ≡ ends_up es
    day-ends_up date es =
        day_raises date es (scan_day parse es none) ∙ scan_day-ends_up es none ∙ ends_up-any es

    build_history_raises :
        (days_ago : ℕ → Text) (d : ℕ) (es : List Event)
        → is_raised (build_history parse hour_of days_ago d es) ≡ some_day_ends_up days_ago d es
    unfolding build_history some_day_ends_up
    build_history_raises days_ago zero es = refl
    build_history_raises days_ago (suc d) es =
        raised_either
          (day_of parse hour_of (days_ago d) (events_on parse hour_of (days_ago d) es)
            (scan_day parse (events_on parse hour_of (days_ago d) es) none))
          (build_history parse hour_of days_ago d es) (λ day history. day ∷ history)
        ∙ ground (
          arith,
          build_history_raises days_ago d es,
          day-ends_up (days_ago d) (events_on parse hour_of (days_ago d) es),
        )

    -- The history of a device raises exactly when, on one of the days asked for, the last event with a
    -- readable timestamp of coming or going says that the device came online: one such day, such as
    -- today while the device is online, and there is no history at all.
    pub get_presence_history_raises :
        (days_ago : ℕ → Text) (cutoff device_id : Text) (days : ℕ) (s : Store)
        → is_raised (get_presence_history parse hour_of days_ago cutoff device_id days s)
          ≡ some_day_ends_up days_ago days (presence_events device_id cutoff s)
    unfolding get_presence_history
    get_presence_history_raises days_ago cutoff device_id days s =
        build_history_raises days_ago days (presence_events device_id cutoff s)
