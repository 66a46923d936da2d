-- ===== src/Chester/Forms.antt =====
-- What the patterns `_MAC_RE` and `_IPV4_RE` match, said without them.
use homesentinel.Prelude.{
  ℕ, zero, suc, ◌≡◌, ◌≤◌, refl, ap, Text, text_length, Bool, true, false, ◌&&◌, ◌==◌, [], ◌∷◌, ◌++◌,
  any, arith, codes, Bool-cases, inl, inr, if◌then◌else◌, ◌∙◌,
}
use mathlib.Core.List.{append-nil}
use homesentinel.Chester.Parsers.{
  is_digit, is_lower_hex, is_octets, is_mac, after_digits, starts_digit, is_parts, is_ipv4,
  all_digits,
}

-- A text has the form of a template, in which h stands for a digit or one of a to f, and any other
-- character for itself.
unfoldable pub has_form : Text → Text → Bool
unfolding any
has_form [] [] = true
has_form [] (c ∷ s) = false
has_form (h ∷ form) [] = false
has_form (h ∷ form) (c ∷ s) =
    (if h == b'h' then any (λ d. c == d) (codes "0123456789abcdef") else c == h) && has_form form s

-- `n` times `:hh`
octets_form : ℕ → Text
octets_form zero = []
octets_form (suc n) = b':' ∷ b'h' ∷ b'h' ∷ octets_form n

is_hex_digit : (c : ℕ) → is_lower_hex c ≡ true → any (λ d. c == d) (codes "0123456789abcdef") ≡ true
unfolding any is_digit
is_hex_digit c h = ground (arith, h)

is_octets-has_form : (n : ℕ) (s : Text) → is_octets n s ≡ true → has_form (octets_form n) s ≡ true
unfolding is_octets has_form octets_form
is_octets-has_form zero [] h = refl
is_octets-has_form zero (c ∷ s) h = absurd (ground (arith, h))
is_octets-has_form (suc n) [] h = absurd (ground (arith, h))
is_octets-has_form (suc n) (c ∷ []) h = absurd (ground (arith, h))
is_octets-has_form (suc n) (c ∷ x ∷ []) h = absurd (ground (arith, h))
is_octets-has_form (suc n) (c ∷ x ∷ y ∷ s) h =
    rw (is_hex_digit x (ground (arith, h)), is_hex_digit y (ground (arith, h)))
      (ground (arith, h, is_octets-has_form n s (ground (arith, h))))

pub is_mac-has_form : (s : Text) → is_mac s ≡ true → has_form (codes "hh:hh:hh:hh:hh:hh") s ≡ true
unfolding is_mac has_form octets_form
is_mac-has_form s h = ground (arith, is_octets-has_form 6 (b':' ∷ s) h)

-- One to three digits
pub record IsNumber (s : Text) : Type 0 where
  pub digits : all_digits s ≡ true
  pub some_digit : 1 ≤ text_length s
  pub at_most_three : text_length s ≤ 3

-- Four numbers with dots between
pub record IsDotted (s : Text) : Type 0 where
  pub first : Text
  pub second : Text
  pub third : Text
  pub fourth : Text
  pub parts : s ≡ first ++ (b'.' ∷ second ++ (b'.' ∷ third ++ (b'.' ∷ fourth)))
  pub first_number : IsNumber first
  pub second_number : IsNumber second
  pub third_number : IsNumber third
  pub fourth_number : IsNumber fourth

-- The digits that `after_digits` passes over
digits_of : ℕ → Text → Text
digits_of zero s = []
digits_of (suc n) [] = []
digits_of (suc n) (c ∷ s) = let rest = digits_of n s in if is_digit c then c ∷ rest else []

digits_of-after : (n : ℕ) (s : Text) → s ≡ digits_of n s ++ after_digits n s
unfolding digits_of after_digits
digits_of-after zero s = refl
digits_of-after (suc n) [] = refl
digits_of-after (suc n) (c ∷ s) = elim (Bool-cases (is_digit c)) [
  | inl e ↦ rw e (ap (◌∷◌ c) (digits_of-after n s))
  | inr e ↦ rw e refl
]

digits_of-all : (n : ℕ) (s : Text) → all_digits (digits_of n s) ≡ true
unfolding digits_of all_digits
digits_of-all zero s = refl
digits_of-all (suc n) [] = refl
digits_of-all (suc n) (c ∷ s) = ground (arith, digits_of-all n s)

digits_of-le : (n : ℕ) (s : Text) → text_length (digits_of n s) ≤ n
unfolding digits_of
digits_of-le zero s = omega arith
digits_of-le (suc n) [] = omega arith
digits_of-le (suc n) (c ∷ s) = ground (arith, digits_of-le n s)

digits_of-some : (s : Text) → starts_digit s ≡ true → 1 ≤ text_length (digits_of 3 s)
unfolding digits_of
digits_of-some [] h = absurd (ground (arith, h))
digits_of-some (c ∷ s) h = rw h (omega arith)

digits_of-IsNumber : (s : Text) → starts_digit s ≡ true → IsNumber (digits_of 3 s)
digits_of-IsNumber s h = record {
  digits = digits_of-all 3 s;
  some_digit = digits_of-some s h;
  at_most_three = digits_of-le 3 s;
}

-- A part, and what comes after it
next_part :
    (n : ℕ) (s : Text)
    → is_parts (suc n) s ≡ true
    → (p rest : Text) × (s ≡ b'.' ∷ p ++ rest) × IsNumber p × (is_parts n rest ≡ true)
unfolding is_parts
next_part n [] h = absurd (ground (arith, h))
next_part n (c ∷ s) h = (
  digits_of 3 s,
  after_digits 3 s,
  rw (dot c (ground (arith, h))) (ap (◌∷◌ b'.') (digits_of-after 3 s)),
  digits_of-IsNumber s (ground (arith, h)),
  ground (arith, h),
)
  where
    dot : (c : ℕ) → (c == b'.') ≡ true → c ≡ b'.'
    dot c h = ground (arith, h)

no_parts : (s : Text) → is_parts 0 s ≡ true → s ≡ []
unfolding is_parts
no_parts [] h = refl
no_parts (c ∷ s) h = absurd (ground (arith, h))

append-nil_of : (p r : Text) → r ≡ [] → p ++ r ≡ p
append-nil_of p r h = rw h (append-nil p)

pub is_ipv4-IsDotted : (s : Text) → is_ipv4 s ≡ true → IsDotted s
unfolding is_ipv4
is_ipv4-IsDotted s h =
    let (p, s₁, e₁, n₁, h₁) = next_part 3 (b'.' ∷ s) h in
    let (q, s₂, e₂, n₂, h₂) = next_part 2 s₁ h₁ in
    let (r, s₃, e₃, n₃, h₃) = next_part 1 s₂ h₂ in
    let (t, s₄, e₄, n₄, h₄) = next_part 0 s₃ h₃ in
    record {
      first = p;
      second = q;
      third = r;
      fourth = t;
      parts = ap rest_of e₁ ∙ rw (e₂, e₃, e₄, append-nil_of t s₄ (no_parts s₄ h₄)) refl;
      first_number = n₁;
      second_number = n₂;
      third_number = n₃;
      fourth_number = n₄;
    }
  where
    rest_of : Text → Text
    rest_of [] = []
    rest_of (c ∷ s) = s
