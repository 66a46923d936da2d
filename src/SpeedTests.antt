-- ===== src/SpeedTests.antt =====
-- backend/services/speedtest_service.py: the table of results and its queries, and the insights. A
-- result's numbers are of any type, and the change between two results is a function of them; the
-- measuring and the statistics, which are floating-point, are left out.
pub mod Errors
use homesentinel.Prelude.{
  ℕ, Text, text_eq, text_ltb, Bool, true, false, not, ◌&&◌, ◌||◌, Option, none, some, List, [], ◌∷◌,
  ◌++◌, any, select, delete, take, drop, order_desc, if◌then◌else◌, Outcome, ok, raised,
  integrity_error,
}

pub record SpeedTest (R : Type 0) : Type 0 where
  pub test_id : Text
  pub numbers : R
  pub error : Option Text
  pub timestamp : Text

pub record Insight (D : Type 0) : Type 0 where
  pub insight_id : Text
  pub insight_type : Text
  pub content : D
  pub created_at : Text
  pub expires_at : Option Text

-- The latest result, the one before, and the change between them
pub record Change (R C : Type 0) : Type 0 where
  pub latest : Option (SpeedTest R)
  pub previous : Option (SpeedTest R)
  pub change : Option C

module _ {R : Type 0} where
  -- `error IS NULL`
  abbrev pub is_good : SpeedTest R → Bool
  is_good t = elim t.error [ none ↦ true | some e ↦ false ]

  -- `_store_result`: the id is a key.
  unfoldable pub store_result : SpeedTest R → List (SpeedTest R) → Outcome Unit × List (SpeedTest R)
  store_result t tests =
      if any (λ u. text_eq u.test_id t.test_id) tests
      then (raised integrity_error, tests)
      else (ok tt, tests ++ (t ∷ []))

  -- `_store_error_result`, with the numbers of a failed test
  unfoldable pub store_error_result :
      R → Text → Text → Text → List (SpeedTest R) → Outcome Unit × List (SpeedTest R)
  unfolding store_result
  store_error_result zeros test_id error now tests =
      store_result
        (record { test_id = test_id; numbers = zeros; error = some error; timestamp = now }) tests

  abbrev pub newest_first : List (SpeedTest R) → List (SpeedTest R)
  newest_first tests = order_desc (λ t. t.timestamp) (select is_good tests)

  abbrev pub first : List (SpeedTest R) → Option (SpeedTest R)
  first [] = none
  first (t ∷ ts) = some t

  -- `get_latest`, `get_previous` and `get_all_history`
  unfoldable pub get_latest : List (SpeedTest R) → Option (SpeedTest R)
  get_latest tests = first (newest_first tests)

  unfoldable pub get_previous : List (SpeedTest R) → Option (SpeedTest R)
  get_previous tests = first (drop 1 (newest_first tests))

  unfoldable pub get_all_history : ℕ → List (SpeedTest R) → List (SpeedTest R)
  get_all_history limit tests = take limit (newest_first tests)

  -- ORDER BY timestamp ASC
  unfoldable pub insert_oldest : SpeedTest R → List (SpeedTest R) → List (SpeedTest R)
  insert_oldest t [] = t ∷ []
  insert_oldest t (u ∷ us) =
      let rest = insert_oldest t us in
      if text_ltb u.timestamp t.timestamp then u ∷ rest else t ∷ u ∷ us

  unfoldable pub oldest_first : List (SpeedTest R) → List (SpeedTest R)
  unfolding insert_oldest
  oldest_first [] = []
  oldest_first (t ∷ ts) = insert_oldest t (oldest_first ts)

  -- `get_history`, from a cutoff on
  unfoldable pub get_history : Text → List (SpeedTest R) → List (SpeedTest R)
  unfolding oldest_first
  get_history cutoff tests =
      oldest_first (select (λ t. not (text_ltb t.timestamp cutoff) && is_good t) tests)

  abbrev pub changed :
      {C : Type 0} → (R → R → C) → Option (SpeedTest R) → Option (SpeedTest R) → Change R C
  changed pct none previous = record { latest = none; previous = none; change = none }
  changed pct (some l) none = record { latest = some l; previous = none; change = none }
  changed pct (some l) (some p) = record {
    latest = some l;
    previous = some p;
    change = some (pct p.numbers l.numbers);
  }

  -- `get_latest_with_change`
  unfoldable pub get_latest_with_change :
      {C : Type 0} → (R → R → C) → List (SpeedTest R) → Change R C
  unfolding get_latest get_previous
  get_latest_with_change pct tests = changed pct (get_latest tests) (get_previous tests)

module _ {D : Type 0} where
  -- `store_insight`: INSERT OR REPLACE, by the id
  unfoldable pub store_insight : Insight D → List (Insight D) → List (Insight D)
  store_insight i insights = delete (λ j. text_eq j.insight_id i.insight_id) insights ++ (i ∷ [])

  -- `expires_at IS NULL OR expires_at > now`
  abbrev pub is_valid : Text → Insight D → Bool
  is_valid now i = elim i.expires_at [ none ↦ true | some e ↦ text_ltb now e ]

  -- `created_at` is the latest of the valid insights of the type; the insight itself may have expired.
  abbrev pub is_latest : Text → List (Insight D) → Insight D → Bool
  is_latest now all i =
      any
        (λ j.
          text_eq j.insight_type i.insight_type
          && (is_valid now j && text_eq j.created_at i.created_at))
        all
      && not (
          any
            (λ j.
              text_eq j.insight_type i.insight_type
              && (is_valid now j && text_ltb i.created_at j.created_at))
            all)

  -- `get_insights`
  unfoldable pub get_insights : Text → ℕ → List (Insight D) → List (Insight D)
  get_insights now limit insights =
      take limit (order_desc (λ i. i.created_at) (select (is_latest now insights) insights))
