-- ===== src/Prelude/Sorting.antt =====
-- ORDER BY … DESC and LIMIT/OFFSET: the rows that come back, their number and their order.
use Prim.Native.Nat.{ℕ, zero, suc, ◌-◌, min}
use mathlib.Core.Path.{◌≡◌, refl, ◌∙◌}
use mathlib.Core.Bool.{Bool, true, false, ◌||◌}
use mathlib.Core.List.{List, [], ◌∷◌}
use native.Mathlib.Omega.{arith}
use homesentinel.Prelude.Texts.{Text, text_ltb}
use homesentinel.Prelude.Tables.{
  All, count, length, take, drop, select, delete, insert_desc, order_desc,
}

module _ {ℓ} {A : Type ℓ} where
  count-insert_desc :
      (key : A → Text) (p : A → Bool) (x : A) (xs : List A)
      → count p (insert_desc key x xs) ≡ count p (x ∷ xs)
  unfolding count insert_desc
  count-insert_desc key p x [] = refl
  count-insert_desc key p x (y ∷ ys) = ground (arith, count-insert_desc key p x ys)

  -- Sorting keeps the number of rows that meet any condition.
  pub count-order_desc :
      (key : A → Text) (p : A → Bool) (xs : List A) → count p (order_desc key xs) ≡ count p xs
  unfolding order_desc count
  count-order_desc key p [] = refl
  count-order_desc key p (x ∷ xs) =
      count-insert_desc key p x (order_desc key xs) ∙ ground (arith, count-order_desc key p xs)

  length-insert_desc :
      (key : A → Text) (x : A) (xs : List A) → length (insert_desc key x xs) ≡ suc (length xs)
  unfolding insert_desc
  length-insert_desc key x [] = refl
  length-insert_desc key x (y ∷ ys) = ground (arith, length-insert_desc key x ys)

  pub length-order_desc : (key : A → Text) (xs : List A) → length (order_desc key xs) ≡ length xs
  unfolding order_desc
  length-order_desc key [] = refl
  length-order_desc key (x ∷ xs) =
      omega (arith, length-insert_desc key x (order_desc key xs), length-order_desc key xs)

  -- Each row's key is at least that of every row after it.
  abbrev pub IsDescending : (A → Text) → List A → Type 0
  IsDescending key [] = Unit
  IsDescending key (x ∷ xs) = All (λ y. text_ltb (key x) (key y) ≡ false) xs × IsDescending key xs

  module _ {κ} (P : A → Type κ) where
    All-insert_desc :
        (key : A → Text) (x : A) (xs : List A) → P x → All P xs → All P (insert_desc key x xs)
    unfolding insert_desc
    All-insert_desc key x [] h k = (h, tt)
    All-insert_desc key x (y ∷ ys) h k = ground (arith, All-insert_desc key x ys h k.1)

    pub All-order_desc : (key : A → Text) (xs : List A) → All P xs → All P (order_desc key xs)
    unfolding order_desc
    All-order_desc key [] h = tt
    All-order_desc key (x ∷ xs) h =
        All-insert_desc key x (order_desc key xs) h.0 (All-order_desc key xs h.1)

    pub All-take : (n : ℕ) (xs : List A) → All P xs → All P (take n xs)
    All-take zero xs h = tt
    All-take (suc n) [] h = tt
    All-take (suc n) (x ∷ xs) h = (h.0, All-take n xs h.1)

    pub All-drop : (n : ℕ) (xs : List A) → All P xs → All P (drop n xs)
    All-drop zero xs h = h
    All-drop (suc n) [] h = tt
    All-drop (suc n) (x ∷ xs) h = All-drop n xs h.1

  pub All-select : (p : A → Bool) (xs : List A) → All (λ x. p x ≡ true) (select p xs)
  unfolding select
  All-select p [] = tt
  All-select p (x ∷ xs) = ground (arith, All-select p xs)

  pub length-take-drop :
      (limit offset : ℕ) (xs : List A)
      → length (take limit (drop offset xs)) ≡ min limit (length xs - offset)
  length-take-drop zero offset xs = omega arith
  length-take-drop (suc l) zero [] = omega arith
  length-take-drop (suc l) (suc o) [] = omega arith
  length-take-drop (suc l) zero (x ∷ xs) = omega (arith, length-take-drop l zero xs)
  length-take-drop (suc l) (suc o) (x ∷ xs) = omega (arith, length-take-drop (suc l) o xs)

  pub delete-delete :
      (p q : A → Bool) (xs : List A) → delete q (delete p xs) ≡ delete (λ x. p x || q x) xs
  unfolding delete
  delete-delete p q [] = refl
  delete-delete p q (x ∷ xs) = ground (arith, delete-delete p q xs)

  pub delete-cong :
      (p q : A → Bool) (xs : List A) → All (λ x. p x ≡ q x) xs → delete p xs ≡ delete q xs
  unfolding delete
  delete-cong p q [] h = refl
  delete-cong p q (x ∷ xs) h = ground (arith, delete-cong p q xs h.1)

  pub count-delete :
      (p q : A → Bool) (xs : List A)
      → ((x : A) → q x ≡ true → p x ≡ false)
      → count q (delete p xs) ≡ count q xs
  unfolding delete count
  count-delete p q [] h = refl
  count-delete p q (x ∷ xs) h = ground (arith, count-delete p q xs h, h x)

  pub count-delete_none :
      (p q : A → Bool) (xs : List A)
      → ((x : A) → q x ≡ true → p x ≡ true)
      → count q (delete p xs) ≡ 0
  unfolding delete count
  count-delete_none p q [] h = refl
  count-delete_none p q (x ∷ xs) h = ground (arith, count-delete_none p q xs h, h x)

  pub delete_of_count : (p : A → Bool) (xs : List A) → count p xs ≡ 0 → delete p xs ≡ xs
  unfolding delete count
  delete_of_count p [] h = refl
  delete_of_count p (x ∷ xs) h = ground (arith, delete_of_count p xs)
