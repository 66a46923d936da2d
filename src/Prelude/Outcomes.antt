-- ===== src/Prelude/Outcomes.antt =====
-- Python's exceptions over a state: what was written before an exception stays written.
use mathlib.Core.List.{List, [], ◌∷◌}
use homesentinel.Prelude.Texts.{Text}

-- The exceptions that the modelled code raises or catches.
pub data Failure : Type 0 where
  integrity_error value_error runtime_error type_error key_error permission_error : Failure
  connection_error struct_error overflow_error : Failure
  external_error : Text → Failure

pub data Outcome (A : Type 0) : Type 0 where
  ok : A → Outcome A
  raised : Failure → Outcome A

-- One call after another, each of them without a state
abbrev pub and_then : {A B : Type 0} → Outcome A → (A → Outcome B) → Outcome B
and_then (ok a) f = f a
and_then (raised e) f = raised e

abbrev pub Action : Type 0 → Type 0 → Type 0
Action S A = S → Outcome A × S

abbrev pub return : {S A : Type 0} → A → S → Outcome A × S
return a s = (ok a, s)

abbrev pub raise : {S A : Type 0} → Failure → S → Outcome A × S
raise e s = (raised e, s)

abbrev pub continue_with :
    {S A B : Type 0} → Outcome A → S → (A → S → Outcome B × S) → Outcome B × S
continue_with (ok a) s k = k a s
continue_with (raised e) s k = (raised e, s)

infixl 5 ◌>>=◌ ◌>>◌
abbrev pub ◌>>=◌ :
    {S A B : Type 0} → (S → Outcome A × S) → (A → S → Outcome B × S) → S → Outcome B × S
◌>>=◌ m k s = continue_with (m s).0 (m s).1 k

abbrev pub ◌>>◌ : {S A B : Type 0} → (S → Outcome A × S) → (S → Outcome B × S) → S → Outcome B × S
m >> k = m >>= λ _. k

abbrev pub handle : {S A : Type 0} → Outcome A → S → (Failure → S → Outcome A × S) → Outcome A × S
handle (ok a) s h = (ok a, s)
handle (raised e) s h = h e s

-- `try: m  except Exception as e: h(e)`
abbrev pub attempt :
    {S A : Type 0} → (S → Outcome A × S) → (Failure → S → Outcome A × S) → S → Outcome A × S
attempt m h s = handle (m s).0 (m s).1 h

-- `for x in xs: f(x)`; an exception ends the loop.
unfoldable pub for_each :
    {S A : Type 0} → List A → (A → S → Outcome Unit × S) → S → Outcome Unit × S
for_each [] f s = (ok tt, s)
for_each (x ∷ xs) f s = continue_with (f x s).0 (f x s).1 (λ _. for_each xs f)
