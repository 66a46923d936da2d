-- ===== src/Prelude/Dicts.antt =====
-- A Python dict with text keys: an association list that keeps the order of insertion.
use mathlib.Core.Path.{◌≡◌, refl}
use mathlib.Core.Bool.{Bool, true, false}
use mathlib.Core.Option.{Option, none, some}
use mathlib.Core.List.{List, [], ◌∷◌}
use native.Mathlib.Omega.{arith}
use homesentinel.Prelude.Tests.{if◌then◌else◌}
use homesentinel.Prelude.Texts.{Text, text_eq, text_eq_iff}

abbrev pub Dict : Type 0 → Type 0
Dict V = List (Text × V)

module _ {V : Type 0} where
  unfoldable pub get : Text → Dict V → Option V
  get k [] = none
  get k ((j, v) ∷ m) = let rest = get k m in if text_eq j k then some v else rest

  -- `d[k] = v`: a known key keeps its place.
  unfoldable pub put : Text → V → Dict V → Dict V
  put k v [] = (k, v) ∷ []
  put k v ((j, w) ∷ m) = let rest = put k v m in if text_eq j k then (j, v) ∷ m else (j, w) ∷ rest

  pub get-put :
      (k j : Text) (v : V) (m : Dict V)
      → get j (put k v m) ≡ (if text_eq k j then some v else get j m)
  unfolding get put
  get-put k j v [] = refl
  get-put k j v ((i, w) ∷ m) =
      ground (arith, text_eq_iff k j, text_eq_iff i k, text_eq_iff i j, get-put k j v m)

  -- `k in d`
  abbrev pub has : Text → Dict V → Bool
  has k m = elim (get k m) [ none ↦ false | some v ↦ true ]

  pub has-put :
      (k j : Text) (v : V) (m : Dict V)
      → has j (put k v m) ≡ (if text_eq k j then true else has j m)
  has-put k j v m = ground (arith, get-put k j v m)
