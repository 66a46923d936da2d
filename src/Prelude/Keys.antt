-- ===== src/Prelude/Keys.antt =====
-- What the constraints of a schema say of tables, and how the statements keep it.
use mathlib.Core.Path.{◌≡◌, refl}
use mathlib.Core.Bool.{Bool, true, false, ◌&&◌}
use mathlib.Core.List.{List, [], ◌∷◌, ◌++◌}
use native.Mathlib.Omega.{arith}
use homesentinel.Prelude.Texts.{Text, text_eq, text_eq_comm}
use homesentinel.Prelude.Tables.{All, any, delete, update, any-append, any-update}

module _ {ℓ} {A : Type ℓ} where
  -- PRIMARY KEY, UNIQUE: no two rows share the key.
  abbrev pub Distinct : (A → Text) → List A → Type 0
  Distinct key [] = Unit
  Distinct key (x ∷ xs) = (any (λ y. text_eq (key y) (key x)) xs ≡ false) × Distinct key xs

  pub any-delete-false :
      (p q : A → Bool) (xs : List A) → any q xs ≡ false → any q (delete p xs) ≡ false
  unfolding any delete
  any-delete-false p q [] h = refl
  any-delete-false p q (x ∷ xs) h = ground (arith, any-delete-false p q xs)

  pub any-delete_self : (p : A → Bool) (xs : List A) → any p (delete p xs) ≡ false
  unfolding any delete
  any-delete_self p [] = refl
  any-delete_self p (x ∷ xs) = ground (arith, any-delete_self p xs)

  pub any-false : (q : A → Bool) (xs : List A) → ((x : A) → q x ≡ false) → any q xs ≡ false
  unfolding any
  any-false q [] h = refl
  any-false q (x ∷ xs) h = ground (arith, any-false q xs h, h x)

  -- A row that the deletion does not reach is still there.
  pub any-kept :
      (q gone : A → Bool) (xs : List A)
      → any q xs ≡ true
      → any (λ x. q x && gone x) xs ≡ false
      → any q (delete gone xs) ≡ true
  unfolding any delete
  any-kept q gone [] h k = h
  any-kept q gone (x ∷ xs) h k = ground (arith, any-kept q gone xs)

  pub Distinct-delete :
      (key : A → Text) (p : A → Bool) (xs : List A) → Distinct key xs → Distinct key (delete p xs)
  unfolding delete
  Distinct-delete key p [] d = tt
  Distinct-delete key p (x ∷ xs) d = ground (
    arith,
    Distinct-delete key p xs d.1,
    any-delete-false p (λ y. text_eq (key y) (key x)) xs d.0,
  )

  pub Distinct-update :
      (key : A → Text) (p : A → Bool) (f : A → A) (xs : List A)
      → ((x : A) → key (f x) ≡ key x)
      → Distinct key xs
      → Distinct key (update p f xs)
  unfolding update
  Distinct-update key p f [] same d = tt
  Distinct-update key p f (x ∷ xs) same d = ground (
    arith,
    Distinct-update key p f xs same d.1,
    any-update p (λ y. text_eq (key y) (key x)) f xs (λ y. rw (same y)),
    any-update p (λ y. text_eq (key y) (key (f x))) f xs (λ y. rw (same y)),
    same x,
  )

  pub Distinct-insert :
      (key : A → Text) (r : A) (xs : List A)
      → any (λ y. text_eq (key y) (key r)) xs ≡ false
      → Distinct key xs
      → Distinct key (xs ++ r ∷ [])
  unfolding any
  Distinct-insert key r [] h d = (refl, tt)
  Distinct-insert key r (x ∷ xs) h d = ground (
    arith,
    Distinct-insert key r xs,
    any-append (λ y. text_eq (key y) (key x)) xs (r ∷ []),
    text_eq_comm (key x) (key r),
  )

  -- PRIMARY KEY of two columns: no two rows agree in both.
  abbrev pub DistinctPairs : (A → Text) → (A → Text) → List A → Type 0
  DistinctPairs left right [] = Unit
  DistinctPairs left right (x ∷ xs) =
      (any (λ y. text_eq (left y) (left x) && text_eq (right y) (right x)) xs ≡ false)
      × DistinctPairs left right xs

  pub DistinctPairs-delete :
      (left right : A → Text) (p : A → Bool) (xs : List A)
      → DistinctPairs left right xs
      → DistinctPairs left right (delete p xs)
  unfolding delete
  DistinctPairs-delete left right p [] d = tt
  DistinctPairs-delete left right p (x ∷ xs) d = ground (
    arith,
    DistinctPairs-delete left right p xs d.1,
    any-delete-false p (λ y. text_eq (left y) (left x) && text_eq (right y) (right x)) xs d.0,
  )

  pub DistinctPairs-insert :
      (left right : A → Text) (r : A) (xs : List A)
      → any (λ y. text_eq (left y) (left r) && text_eq (right y) (right r)) xs ≡ false
      → DistinctPairs left right xs
      → DistinctPairs left right (xs ++ r ∷ [])
  unfolding any
  DistinctPairs-insert left right r [] h d = (refl, tt)
  DistinctPairs-insert left right r (x ∷ xs) h d = ground (
    arith,
    DistinctPairs-insert left right r xs,
    any-append (λ y. text_eq (left y) (left x) && text_eq (right y) (right x)) xs (r ∷ []),
    text_eq_comm (left x) (left r),
    text_eq_comm (right x) (right r),
  )

  module _ {κ} (P : A → Type κ) where
    pub All-append : (xs ys : List A) → All P xs → All P ys → All P (xs ++ ys)
    All-append [] ys hx hy = hy
    All-append (x ∷ xs) ys hx hy = (hx.0, All-append xs ys hx.1 hy)

    pub All-map {ν} : (Q : A → Type ν) (xs : List A) → ((x : A) → P x → Q x) → All P xs → All Q xs
    All-map Q [] f h = tt
    All-map Q (x ∷ xs) f h = (f x h.0, All-map Q xs f h.1)

    pub All-update :
        (p : A → Bool) (f : A → A) (xs : List A)
        → ((x : A) → P x → P (f x))
        → All P xs
        → All P (update p f xs)
    unfolding update
    All-update p f [] keep h = tt
    All-update p f (x ∷ xs) keep h = ground (arith, All-update p f xs keep h.1, keep x h.0)

    -- The rows that a deletion leaves meet what all rows met, and not its condition.
    pub All-delete :
        (p : A → Bool) (xs : List A) → All P xs → All (λ x. P x × (p x ≡ false)) (delete p xs)
    unfolding delete
    All-delete p [] h = tt
    All-delete p (x ∷ xs) h = ground (arith, All-delete p xs h.1)
