-- ===== src/SpeedTests/Errors.antt =====
-- A failed speed test shows in no query.
use homesentinel.Prelude.{
  ℕ, ◌≡◌, refl, ap, Text, text_eq, text_ltb, Bool, true, false, not, ◌&&◌, some, List, [], ◌∷◌,
  ◌++◌, any, select, order_desc, take, drop, arith, Bool-cases, inl, inr,
}
use homesentinel.SpeedTests.{
  SpeedTest, is_good, store_result, store_error_result, first, get_latest, get_previous,
  get_all_history, oldest_first, get_history, changed, get_latest_with_change,
}

module _ {R : Type 0} where
  select_without :
      (p : SpeedTest R → Bool) (ts : List (SpeedTest R)) (t : SpeedTest R)
      → p t ≡ false
      → select p (ts ++ (t ∷ [])) ≡ select p ts
  unfolding select
  select_without p [] t h = ground (arith, h)
  select_without p (u ∷ ts) t h = ground (arith, h, select_without p ts t h)

  -- The same good results, for any further condition
  SameGood : List (SpeedTest R) → List (SpeedTest R) → Type 0
  SameGood xs ys =
      (p : SpeedTest R → Bool)
      → select (λ t. p t && is_good t) xs ≡ select (λ t. p t && is_good t) ys

  store_error-SameGood :
      (zeros : R) (test_id error now : Text) (ts : List (SpeedTest R))
      → SameGood (store_error_result zeros test_id error now ts).1 ts
  unfolding store_error_result store_result SameGood
  store_error-SameGood zeros test_id error now ts p =
      elim (Bool-cases (any (λ u. text_eq u.test_id test_id) ts)) [
        | inl e ↦ rw e refl
        | inr e ↦ rw e (
            select_without (λ t. p t && is_good t) ts
              (record { test_id = test_id; numbers = zeros; error = some error; timestamp = now })
              (ground arith))
      ]

  -- Storing a failed test, also one whose id is taken, changes no answer of the queries: not the
  -- latest results and their change, nor the history from any cutoff, nor the whole history.
  pub store_error_result_hidden :
      {C : Type 0} (pct : R → R → C) (zeros : R) (test_id error now cutoff : Text) (limit : ℕ)
      (ts : List (SpeedTest R))
      → (get_latest_with_change pct (store_error_result zeros test_id error now ts).1
          ≡ get_latest_with_change pct ts)
        × ((get_history cutoff (store_error_result zeros test_id error now ts).1
              ≡ get_history cutoff ts)
            × (get_all_history limit (store_error_result zeros test_id error now ts).1
                ≡ get_all_history limit ts))
  unfolding SameGood get_latest_with_change get_latest get_previous get_history get_all_history
  store_error_result_hidden pct zeros test_id error now cutoff limit ts =
      let good = store_error-SameGood zeros test_id error now ts (λ t. true) in
      (
        ap
            (λ gs.
              changed pct (first (order_desc (λ t. t.timestamp) gs))
                (first (drop 1 (order_desc (λ t. t.timestamp) gs))))
            good,
        (
          ap oldest_first (
              store_error-SameGood zeros test_id error now ts
                (λ t. not (text_ltb t.timestamp cutoff))),
          ap (λ gs. take limit (order_desc (λ t. t.timestamp) gs)) good,
        ),
      )
