-- ===== src/Deco/Signal.antt =====
-- The strength of a signal is a percentage, grows with the power, and fails for huge numbers only.
use homesentinel.Prelude.{
  ℕ, ◌*◌, ◌-◌, ◌≤◌, ◌<◌, ◌≡◌, refl, false, leb, Option, none, some, Outcome, ok, raised,
  overflow_error, value_error, type_error, and_then, Text, arith, true, Bool-cases, ◌⊎◌, inl, inr,
}
use homesentinel.Deco.Values.{
  ℤ, pos, negsuc, Value, null, boolean, number, text, structure, real, Whole, finite, infinite,
  not_a_number, int_of_whole, int_of_text, or_if_unreadable, int,
}
use homesentinel.Deco.Nodes.{Formats, at_most, percentage, is_no_signal, calculate_signal_strength}

at_most_le : (bound n : ℕ) → at_most bound n ≤ bound
at_most_le bound n = ground arith

-- `int((n / 255) * 100)` raises an OverflowError for the number above 100.
abbrev pub Overflows : Formats → ℤ → Type 0
Overflows f z = (n : ℕ) × (z ≡ pos n) × (100 < n) × (f.percent_of_255 n ≡ none)

-- A percentage, or an OverflowError that reading the value or scaling its number gives
abbrev pub IsStrength : Formats → Outcome ℤ → Outcome ℕ → Type 0
IsStrength f v r =
    ((p : ℕ) × (r ≡ ok p) × (p ≤ 100))
    ⊎ ((r ≡ raised overflow_error)
        × ((v ≡ raised overflow_error) ⊎ ((z : ℤ) × (v ≡ ok z) × Overflows f z)))

abbrev caught : Outcome ℕ → Outcome ℕ
caught r = or_if_unreadable r (ok 0)

large-IsStrength :
    (f : Formats) (n : ℕ) (o : Option ℕ)
    → f.percent_of_255 n ≡ o
    → leb n 100 ≡ false
    → IsStrength f (ok (pos n)) (caught (percentage f (pos n)))
unfolding percentage
large-IsStrength f n none h more =
    inr (rw (more, h) refl, inr (pos n, refl, (n, refl, ground (arith, more), h)))
large-IsStrength f n (some p) h more = inl (at_most 100 p, rw (more, h) refl, at_most_le 100 p)

percentage-IsStrength : (f : Formats) (z : ℤ) → IsStrength f (ok z) (caught (percentage f z))
unfolding percentage
percentage-IsStrength f (negsuc n) =
    inl (at_most 100 (2 * (99 - n)), refl, at_most_le 100 (2 * (99 - n)))
percentage-IsStrength f (pos n) = elim (Bool-cases (leb n 100)) [
  | inl few ↦ inl (n, rw few refl, ground (arith, few))
  | inr more ↦ large-IsStrength f n (f.percent_of_255 n) refl more
]

-- `int` raises no other exception.
data Readable : Outcome ℤ → Type 0 where
  read_as : (z : ℤ) → Readable (ok z)
  bad_value : Readable (raised value_error)
  bad_type : Readable (raised type_error)
  too_large : Readable (raised overflow_error)

text-Readable : (o : Option ℤ) → Readable (int_of_text o)
text-Readable none = bad_value
text-Readable (some z) = read_as z

whole-Readable : (w : Whole) → Readable (int_of_whole w)
whole-Readable (finite z) = read_as z
whole-Readable infinite = too_large
whole-Readable not_a_number = bad_value

int-Readable : (read : Text → Option ℤ) (v : Value) → Readable (int read v)
unfolding int
int-Readable read null = bad_type
int-Readable read (boolean true) = read_as (pos 1)
int-Readable read (boolean false) = read_as (pos 0)
int-Readable read (number z) = read_as z
int-Readable read (text s) = text-Readable (read s)
int-Readable read (structure s b) = bad_type
int-Readable read (real r) = whole-Readable r.whole

Readable-IsStrength :
    (f : Formats) (o : Outcome ℤ) → Readable o → IsStrength f o (caught (and_then o (percentage f)))
Readable-IsStrength f o (read_as z) = percentage-IsStrength f z
Readable-IsStrength f o bad_value = inl (0, refl, omega arith)
Readable-IsStrength f o bad_type = inl (0, refl, omega arith)
Readable-IsStrength f o too_large = inr (refl, inl refl)

-- Of any value the strength is between 0 and 100, or else an OverflowError is raised, which happens
-- only if `int` of the value raises it, as for an infinity, or gives an n above 100 for which
-- int((n / 255) * 100) raises it. Of two powers in dBm, which are negative, both have a strength, and
-- the one that is not above the other has one that is not above either.
pub calculate_signal_strength_bounds :
    (f : Formats) (v : Value) (m n : ℕ)
    → n ≤ m
    → IsStrength f (int f.read v) (calculate_signal_strength f v)
      × ((p q : ℕ) × (calculate_signal_strength f (number (negsuc m)) ≡ ok p)
          × (calculate_signal_strength f (number (negsuc n)) ≡ ok q)
          × (p ≤ q))
unfolding calculate_signal_strength int percentage
calculate_signal_strength_bounds f v m n h = (
  elim (Bool-cases (is_no_signal v)) [
    | inl e ↦ rw e (inl (0, refl, omega arith))
    | inr e ↦ rw e (Readable-IsStrength f (int f.read v) (int-Readable f.read v))
  ],
  (at_most 100 (2 * (99 - m)), at_most 100 (2 * (99 - n)), refl, refl, ground (arith, h)),
)
