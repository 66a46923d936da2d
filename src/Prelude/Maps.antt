-- ===== src/Prelude/Maps.antt =====
-- The keys of a dict are distinct, and stay so.
use mathlib.Core.Path.{◌≡◌, refl}
use mathlib.Core.Bool.{true, false, ◌||◌}
use mathlib.Core.Option.{none}
use mathlib.Core.List.{[], ◌∷◌}
use native.Mathlib.Omega.{arith}
use homesentinel.Prelude.Texts.{Text, text_eq, text_eq_iff, text_eq_refl, text_eq_comm}
use homesentinel.Prelude.Tables.{any, All}
use homesentinel.Prelude.Dicts.{Dict, get, put, has}
use homesentinel.Prelude.Keys.{Distinct, All-map}

module _ {V : Type 0} where
  abbrev pub DistinctKeys : Dict V → Type 0
  DistinctKeys m = Distinct (λ e. e.0) m

  any-put :
      (k j : Text) (v : V) (m : Dict V)
      → any (λ e. text_eq e.0 j) (put k v m) ≡ (text_eq k j || any (λ e. text_eq e.0 j) m)
  unfolding any put
  any-put k j v [] = refl
  any-put k j v (e ∷ m) = ground (arith, any-put k j v m, text_eq_iff e.0 k)

  pub put-DistinctKeys : (k : Text) (v : V) (m : Dict V) → DistinctKeys m → DistinctKeys (put k v m)
  unfolding put any
  put-DistinctKeys k v [] d = (refl, tt)
  put-DistinctKeys k v (e ∷ m) d =
      ground (arith, put-DistinctKeys k v m d.1, any-put k e.0 v m, text_eq_comm e.0 k, d)

  pub get-none : (k : Text) (m : Dict V) → any (λ e. text_eq e.0 k) m ≡ false → get k m ≡ none
  unfolding get any
  get-none k [] h = refl
  get-none k (e ∷ m) h = ground (arith, get-none k m, h)

  -- Every key is in the dict.
  pub All-has : (m : Dict V) → All (λ e. has e.0 m ≡ true) m
  unfolding get
  All-has [] = tt
  All-has (e ∷ m) = (
    ground (arith, text_eq_refl e.0),
    All-map (λ j. has j.0 m ≡ true) (λ j. has j.0 (e ∷ m) ≡ true) m (λ j h. ground (arith, h))
        (All-has m),
  )
