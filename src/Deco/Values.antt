-- ===== src/Deco/Values.antt =====
-- JSON values as the service tests and converts them. A list or an object stands with the text that
-- `str` gives it and with its truth value, a floating-point number with what the service asks of it.
use homesentinel.Prelude.{
  ℕ, Text, is_empty, Bool, true, false, not, ◌==◌, Option, none, some, List, [], ◌∷◌, Dict, get,
  if◌then◌else◌, codes, Outcome, ok, raised, type_error, value_error, overflow_error,
}

pub data ℤ : Type 0 where
  pos : ℕ → ℤ
  negsuc : ℕ → ℤ

-- What `int` makes of a floating-point number: an integer, or an exception for an infinity or a NaN
pub data Whole : Type 0 where
  finite : ℤ → Whole
  infinite not_a_number : Whole

-- A floating-point number: `str`, whether it is zero, `x > 3153600000`, `int(x)` and `int(x / 1000)`
pub record Real : Type 0 where
  pub shown : Text
  pub vanishes : Bool
  pub is_long : Bool
  pub whole : Whole
  pub thousandth : Whole

abbrev pub int_of_whole : Whole → Outcome ℤ
int_of_whole (finite n) = ok n
int_of_whole infinite = raised overflow_error
int_of_whole not_a_number = raised value_error

pub data Value : Type 0 where
  null : Value
  boolean : Bool → Value
  number : ℤ → Value
  text : Text → Value
  structure : Text → Bool → Value
  real : Real → Value

abbrev pub Object : Type 0
Object = Dict Value

abbrev pub is_zero : ℤ → Bool
is_zero (pos n) = n == 0
is_zero (negsuc n) = false

-- Python's truth value
abbrev pub truthy : Value → Bool
truthy null = false
truthy (boolean b) = b
truthy (number n) = not (is_zero n)
truthy (text s) = not (is_empty s)
truthy (structure s b) = b
truthy (real r) = not r.vanishes

-- `d.get(key)`
abbrev pub or_null : Option Value → Value
or_null none = null
or_null (some v) = v

-- `d.get(k1) or d.get(k2) or …`: the first true value, or the last one
unfoldable pub get_or : Object → Text → List Text → Value
get_or d k [] = or_null (get k d)
get_or d k (j ∷ ks) =
    let rest = get_or d j ks in if truthy (or_null (get k d)) then or_null (get k d) else rest

-- `… or default`
abbrev pub or_default : Value → Value → Value
or_default v d = if truthy v then v else d

-- The first that is not None
unfoldable pub get_not_none : Object → List Text → Value
get_not_none d [] = null
get_not_none d (k ∷ ks) =
    let rest = get_not_none d ks in
    elim (or_null (get k d)) [
      | null ↦ rest
      | boolean b ↦ boolean b
      | number n ↦ number n
      | text s ↦ text s
      | structure s b ↦ structure s b
      | real r ↦ real r
    ]

-- `str(v)`, with the digits of a number as an argument
unfoldable pub str : (ℤ → Text) → Value → Text
str show null = codes "None"
str show (boolean true) = codes "True"
str show (boolean false) = codes "False"
str show (number n) = show n
str show (text s) = s
str show (structure s b) = s
str show (real r) = r.shown

abbrev pub int_of_text : Option ℤ → Outcome ℤ
int_of_text none = raised value_error
int_of_text (some n) = ok n

-- `int(v)`, with the reading of a text as an argument, which is none for a ValueError
unfoldable pub int : (Text → Option ℤ) → Value → Outcome ℤ
int read null = raised type_error
int read (boolean true) = ok (pos 1)
int read (boolean false) = ok (pos 0)
int read (number n) = ok n
int read (text s) = int_of_text (read s)
int read (structure s b) = raised type_error
int read (real r) = int_of_whole r.whole

-- `except (ValueError, TypeError)`, with what follows it
abbrev pub or_if_unreadable : {A : Type 0} → Outcome A → Outcome A → Outcome A
or_if_unreadable (ok a) other = ok a
or_if_unreadable (raised e) other = elim e [
  | value_error ↦ other
  | type_error ↦ other
  | e' ↦ raised e'
]
