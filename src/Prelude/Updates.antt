-- ===== src/Prelude/Updates.antt =====
-- Updates of tables whose rows have distinct keys.
use mathlib.Core.Path.{◌≡◌, refl}
use mathlib.Core.Bool.{Bool, false, ◌&&◌, ◌||◌}
use mathlib.Core.List.{List, [], ◌∷◌}
use native.Mathlib.Omega.{arith}
use homesentinel.Prelude.Texts.{Text, text_eq, text_eq_refl, text_eq_comm}
use homesentinel.Prelude.Tables.{any, All, select, update, insert_desc, order_desc}
use homesentinel.Prelude.Keys.{Distinct, All-map}

module _ {A : Type 0} where
  any-insert_desc :
      (p : A → Bool) (key : A → Text) (x : A) (xs : List A)
      → any p (insert_desc key x xs) ≡ (p x || any p xs)
  unfolding any insert_desc
  any-insert_desc p key x [] = refl
  any-insert_desc p key x (y ∷ ys) = ground (arith, any-insert_desc p key x ys)

  pub any-order_desc :
      (p : A → Bool) (key : A → Text) (xs : List A) → any p (order_desc key xs) ≡ any p xs
  unfolding any order_desc
  any-order_desc p key [] = refl
  any-order_desc p key (x ∷ xs) =
      ground (arith, any-order_desc p key xs, any-insert_desc p key x (order_desc key xs))

  pub any-select : (p q : A → Bool) (xs : List A) → any p (select q xs) ≡ any (λ x. q x && p x) xs
  unfolding any select
  any-select p q [] = refl
  any-select p q (x ∷ xs) = ground (arith, any-select p q xs)

  pub any-cong : (p q : A → Bool) (xs : List A) → ((x : A) → p x ≡ q x) → any p xs ≡ any q xs
  unfolding any
  any-cong p q [] h = refl
  any-cong p q (x ∷ xs) h = ground (arith, any-cong p q xs h, h x)

  -- Two updates to the same values are one.
  pub update-update :
      (p q : A → Bool) (f : A → A) (xs : List A)
      → ((x : A) → f (f x) ≡ f x)
      → ((x : A) → q (f x) ≡ q x)
      → update q f (update p f xs) ≡ update (λ x. p x || q x) f xs
  unfolding update
  update-update p q f [] same keeps = refl
  update-update p q f (x ∷ xs) same keeps =
      ground (arith, update-update p q f xs same keeps, same x, keeps x)

  pub update-none : (f : A → A) (xs : List A) → update (λ x. false) f xs ≡ xs
  unfolding update
  update-none f [] = refl
  update-none f (x ∷ xs) = ground (arith, update-none f xs)

  pub update-cong :
      (p q : A → Bool) (f : A → A) (xs : List A)
      → All (λ x. p x ≡ q x) xs
      → update p f xs ≡ update q f xs
  unfolding update
  update-cong p q f [] h = refl
  update-cong p q f (x ∷ xs) h = ground (arith, update-cong p q f xs h.1, h.0)

  pub All-not_any : (p : A → Bool) (xs : List A) → any p xs ≡ false → All (λ x. p x ≡ false) xs
  unfolding any
  All-not_any p [] h = tt
  All-not_any p (x ∷ xs) h = ground (arith, h, All-not_any p xs)

  pub All-and : (P Q : A → Type 0) (xs : List A) → All P xs → All Q xs → All (λ x. P x × Q x) xs
  All-and P Q [] hp hq = tt
  All-and P Q (x ∷ xs) hp hq = ((hp.0, hq.0), All-and P Q xs hp.1 hq.1)

  any_of_others :
      (key : A → Text) (g : A → Bool) (x : A) (xs : List A)
      → any (λ y. text_eq (key y) (key x)) xs ≡ false
      → any (λ y. g y && text_eq (key x) (key y)) xs ≡ false
  unfolding any
  any_of_others key g x [] h = refl
  any_of_others key g x (y ∷ ys) h =
      ground (arith, any_of_others key g x ys, h, text_eq_comm (key x) (key y))

  -- With distinct keys, the row that shares the key of a row is that row.
  pub any_with_key :
      (key : A → Text) (g : A → Bool) (xs : List A)
      → Distinct key xs
      → All (λ x. any (λ y. g y && text_eq (key x) (key y)) xs ≡ g x) xs
  unfolding any
  any_with_key key g [] d = tt
  any_with_key key g (x ∷ xs) d = (
    ground (arith, any_of_others key g x xs d.0, text_eq_refl (key x)),
    All-map
        (λ y.
          (text_eq (key y) (key x) ≡ false) × (any (λ z. g z && text_eq (key y) (key z)) xs ≡ g y))
        (λ y. any (λ z. g z && text_eq (key y) (key z)) (x ∷ xs) ≡ g y) xs
        (λ y h. ground (arith, h))
        (All-and _ _ xs (All-not_any (λ y. text_eq (key y) (key x)) xs d.0)
          (any_with_key key g xs d.1)),
  )

  -- So an update of the rows with the keys of chosen rows is an update of the chosen rows.
  pub update_chosen :
      (key order : A → Text) (chosen also : A → Bool) (f : A → A) (xs : List A)
      → Distinct key xs
      → update
          (λ x. any (λ y. also y && text_eq (key x) (key y)) (order_desc order (select chosen xs)))
          f
          xs
        ≡ update (λ x. chosen x && also x) f xs
  update_chosen key order chosen also f xs d = update-cong _ _ f xs (
      All-map
        (λ x. any (λ y. (chosen y && also y) && text_eq (key x) (key y)) xs ≡ (chosen x && also x))
        _ xs (λ x h. chosen_at x h) (any_with_key key (λ y. chosen y && also y) xs d))
    where
      chosen_at :
          (x : A)
          → any (λ y. (chosen y && also y) && text_eq (key x) (key y)) xs ≡ (chosen x && also x)
          → any (λ y. also y && text_eq (key x) (key y)) (order_desc order (select chosen xs))
            ≡ (chosen x && also x)
      chosen_at x h = ground (
        arith,
        h,
        any-order_desc (λ y. also y && text_eq (key x) (key y)) order (select chosen xs),
        any-select (λ y. also y && text_eq (key x) (key y)) chosen xs,
        any-cong (λ y. chosen y && (also y && text_eq (key x) (key y)))
            (λ y. (chosen y && also y) && text_eq (key x) (key y)) xs (λ y. ground arith),
      )
