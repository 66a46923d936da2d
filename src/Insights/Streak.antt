-- ===== src/Insights/Streak.antt =====
-- `NetworkHealthService._compute_uptime_streak`. A timestamp's date is its first ten characters;
-- `days_ago n` is the date n days before today.
use homesentinel.Prelude.{
  ℕ, zero, suc, ◌+◌, ◌*◌, ◌≤◌, ◌<◌, ◌≡◌, refl, ap, ◌∙◌, Text, text_eq, text_ltb, Bool, true, false,
  not, ◌&&◌, ◌||◌, ltb, leb, List, count, length, take, codes, arith, if◌then◌else◌, ◌⊎◌, inl, inr,
  Bool-cases,
}
use homesentinel.Db.Schema.{Store, Event}

-- The offline events of a year, from `datetime('now', '-365 days')`
abbrev pub is_recent_offline : Text → Event → Bool
is_recent_offline since e =
    (text_eq e.event_type (codes "offline") || text_eq e.event_type (codes "disconnected"))
    && not (text_ltb e.timestamp since)

-- The row of a day in GROUP BY DATE(timestamp)
unfoldable pub offline_count : Text → Text → List Event → ℕ
offline_count since date es =
    count (λ e. is_recent_offline since e && text_eq (take 10 e.timestamp) date) es

-- `cnt >= max(1, total_devices * 0.1)`, in tenths
unfoldable pub is_bad_day : ℕ → Text → List Event → Text → Bool
unfolding offline_count
is_bad_day total since es date =
    leb 1 (offline_count since date es) && leb total (10 * offline_count since date es)

-- The loop over `range(first, first + n)`
unfoldable pub count_good_days : (ℕ → Bool) → ℕ → ℕ → ℕ
count_good_days is_bad first zero = 0
count_good_days is_bad first (suc n) =
    let rest = count_good_days is_bad (first + 1) n in if is_bad first then 0 else suc rest

-- `_compute_uptime_streak`
unfoldable pub compute_uptime_streak : (ℕ → Text) → Text → Store → ℕ
unfolding is_bad_day count_good_days
compute_uptime_streak days_ago since s =
    if ltb 0 (length s.devices)
    then count_good_days (λ n. is_bad_day (length s.devices) since s.events (days_ago n)) 0 365
    else 0

-- A streak of k days from a first one, of at most n: they are good, and it is over at the end.
pub record IsStreak (is_bad : ℕ → Bool) (first n k : ℕ) : Type 0 where
  pub at_most : k ≤ n
  pub good : (d : ℕ) → d < k → is_bad (first + d) ≡ false
  pub over : (k ≡ n) ⊎ (is_bad (first + k) ≡ true)

some_devices : (n : ℕ) → 0 < n → ltb 0 n ≡ true
some_devices n h = ground arith

IsStreak-none : (is_bad : ℕ → Bool) (first n : ℕ) → is_bad first ≡ true → IsStreak is_bad first n 0
IsStreak-none is_bad first n h = record {
  at_most = omega arith;
  good = λ d l. absurd (omega arith);
  over = inr (ap is_bad (omega arith) ∙ h);
}

good_suc :
    (is_bad : ℕ → Bool) (first k : ℕ)
    → is_bad first ≡ false
    → ((d : ℕ) → d < k → is_bad ((first + 1) + d) ≡ false)
    → (d : ℕ) → d < suc k
    → is_bad (first + d) ≡ false
good_suc is_bad first k h good zero l = ap is_bad (omega arith) ∙ h
good_suc is_bad first k h good (suc d) l = ap is_bad (omega arith) ∙ good d (omega arith)

IsStreak-longer :
    (is_bad : ℕ → Bool) (first n k : ℕ)
    → is_bad first ≡ false
    → IsStreak is_bad (first + 1) n k
    → IsStreak is_bad first (suc n) (suc k)
IsStreak-longer is_bad first n k h s = record {
  at_most = omega (arith, s.at_most);
  good = good_suc is_bad first k h s.good;
  over = elim s.over [ inl e ↦ inl (omega (arith, e)) | inr e ↦ inr (ap is_bad (omega arith) ∙ e) ];
}

count_good_days_lem :
    (is_bad : ℕ → Bool) (first n : ℕ) → IsStreak is_bad first n (count_good_days is_bad first n)
unfolding count_good_days
count_good_days_lem is_bad first zero = record {
  at_most = omega arith;
  good = λ d h. absurd (omega arith);
  over = inl refl;
}
count_good_days_lem is_bad first (suc n) = elim (Bool-cases (is_bad first)) [
  | inl e ↦ rw e (IsStreak-none is_bad first (suc n) e)
  | inr e ↦ rw e (
      IsStreak-longer is_bad first n (count_good_days is_bad (first + 1) n) e
        (count_good_days_lem is_bad (first + 1) n))
]

-- If there are devices, the streak is at most 365 days, none of them is a bad day, and a shorter
-- streak ends at a bad day.
pub compute_uptime_streak_lem :
    (days_ago : ℕ → Text) (since : Text) (s : Store)
    → 0 < length s.devices
    → IsStreak
        (λ n. is_bad_day (length s.devices) since s.events (days_ago n))
        0
        365
        (compute_uptime_streak days_ago since s)
unfolding compute_uptime_streak
compute_uptime_streak_lem days_ago since s h =
    rw (some_devices (length s.devices) h)
      (count_good_days_lem (λ n. is_bad_day (length s.devices) since s.events (days_ago n)) 0 365)
