-- ===== src/Prelude/Texts.antt =====
-- Texts as lists of code points: equality, order (SQLite's BINARY collation), case, characters.
use Prim.Native.Nat.{ℕ, suc, ◌+◌, ◌-◌}
use Prim.Native.Char.{code}
use Prim.Native.String.{String}
use mathlib.Core.Path.{◌≡◌, refl}
use mathlib.Core.Logic.{◌↔◌}
use mathlib.Core.Bool.{Bool, true, false, ◌&&◌, ◌||◌}
use mathlib.Core.Option.{Option, none, some}
use mathlib.Core.List.{List, [], ◌∷◌, ◌++◌, map}
use native.Mathlib.Omega.{arith}
use homesentinel.Prelude.Tests.{ltb, leb, ◌==◌, if◌then◌else◌}

abbrev pub Text : Type 0
Text = List ℕ

-- The code points of a literal.
abbrev pub codes : String → Text
codes String.[] = []
codes (String.◌∷◌ c s) = code c ∷ codes s

unfoldable pub text_eq : Text → Text → Bool
text_eq [] [] = true
text_eq [] (y ∷ ys) = false
text_eq (x ∷ xs) [] = false
text_eq (x ∷ xs) (y ∷ ys) = x == y && text_eq xs ys

pub eq-of-text_eq : (s t : Text) → text_eq s t ≡ true → s ≡ t
unfolding text_eq
eq-of-text_eq [] [] h = refl
eq-of-text_eq [] (y ∷ ys) h = ground arith
eq-of-text_eq (x ∷ xs) [] h = ground arith
eq-of-text_eq (x ∷ xs) (y ∷ ys) h = ground (arith, eq-of-text_eq xs ys)

pub text_eq_refl : (s : Text) → text_eq s s ≡ true
unfolding text_eq
text_eq_refl [] = refl
text_eq_refl (x ∷ xs) = ground (arith, text_eq_refl xs)

pub text_eq_iff : (s t : Text) → (text_eq s t ≡ true) ↔ (s ≡ t)
text_eq_iff s t = (eq-of-text_eq s t, λ e. rw e (text_eq_refl t))

pub text_eq_comm : (s t : Text) → text_eq s t ≡ text_eq t s
text_eq_comm s t = ground (arith, text_eq_iff s t, text_eq_iff t s)

-- Strictly before, code point by code point; a proper prefix comes first.
unfoldable pub text_ltb : Text → Text → Bool
text_ltb xs [] = false
text_ltb [] (y ∷ ys) = true
text_ltb (x ∷ xs) (y ∷ ys) = ltb x y || (x == y && text_ltb xs ys)

pub text_ltb_irrefl : (s : Text) → text_ltb s s ≡ false
unfolding text_ltb
text_ltb_irrefl [] = refl
text_ltb_irrefl (x ∷ xs) = ground (arith, text_ltb_irrefl xs)

pub text_ltb_trans :
    (s t u : Text) → text_ltb s t ≡ true → text_ltb t u ≡ true → text_ltb s u ≡ true
unfolding text_ltb
text_ltb_trans s t [] h k = ground arith
text_ltb_trans [] t (z ∷ zs) h k = refl
text_ltb_trans (x ∷ xs) [] (z ∷ zs) h k = ground arith
text_ltb_trans (x ∷ xs) (y ∷ ys) (z ∷ zs) h k = ground (arith, text_ltb_trans xs ys zs)

abbrev pub text_length : Text → ℕ
text_length [] = 0
text_length (c ∷ s) = suc (text_length s)

-- The order of two texts that begin with fields of one width is that of the fields, then of the rest.
pub text_ltb-append :
    (d e s t : Text)
    → text_length d ≡ text_length e
    → text_ltb (d ++ s) (e ++ t) ≡ (text_ltb d e || (text_eq d e && text_ltb s t))
unfolding text_ltb text_eq
text_ltb-append [] [] s t h = refl
text_ltb-append [] (y ∷ e) s t h = absurd (omega arith)
text_ltb-append (x ∷ d) [] s t h = absurd (omega arith)
text_ltb-append (x ∷ d) (y ∷ e) s t h = ground (arith, text_ltb-append d e s t)

-- `str.lower` on ASCII letters.
unfoldable pub lower_char : ℕ → ℕ
lower_char c = if leb b'A' c && leb c b'Z' then c + 32 else c

unfoldable pub upper_char : ℕ → ℕ
upper_char c = if leb b'a' c && leb c b'z' then c - 32 else c

abbrev pub lower : Text → Text
lower = map lower_char

abbrev pub upper : Text → Text
upper = map upper_char

-- `s.replace(c, "")` for one character.
unfoldable pub remove_char : ℕ → Text → Text
remove_char c [] = []
remove_char c (x ∷ s) = let rest = remove_char c s in if x == c then rest else x ∷ rest

unfoldable pub is_hex_digit : ℕ → Bool
is_hex_digit c =
    (leb b'0' c && leb c b'9') || ((leb b'a' c && leb c b'f') || (leb b'A' c && leb c b'F'))

-- Python's truth value of a text.
abbrev pub is_empty : Text → Bool
is_empty [] = true
is_empty (c ∷ s) = false

-- `a or b` on an optional text: `None` and "" are false.
abbrev pub or_else : Option Text → Text → Text
or_else none d = d
or_else (some s) d = if is_empty s then d else s

abbrev pub is_set : Option Text → Bool
is_set none = false
is_set (some s) = if is_empty s then false else true

unfoldable pub starts_with : Text → Text → Bool
starts_with s [] = true
starts_with [] (p ∷ ps) = false
starts_with (x ∷ s) (p ∷ ps) = x == p && starts_with s ps

-- `q in s`
unfoldable pub contains : Text → Text → Bool
unfolding starts_with
contains q [] = starts_with [] q
contains q (c ∷ s) = starts_with (c ∷ s) q || contains q s
