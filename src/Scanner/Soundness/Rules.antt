-- ===== src/Scanner/Soundness/Rules.antt =====
-- A property of actions: they keep the database sound. One rule for each way to build an action.
use homesentinel.Prelude.{
  Text, Bool, true, false, Option, none, some, List, [], ◌∷◌, ◌≡◌, refl, Outcome, ok, raised,
  Failure, return, ◌>>=◌, attempt, for_each, continue_with, handle,
}
use homesentinel.Db.Schema.{Store, Device}
use homesentinel.Db.Integrity.{IsSound}
use homesentinel.Scanner.State.{World, Results, on_store, count_result, see, require}
use homesentinel.Scanner.Persist.{when}

-- Whatever an action returns or raises, it keeps the database sound.
pub record Keeps {A : Type 0} (m : World → Outcome A × World) : Type 0 where
  pub keeps : (w : World) → IsSound w.store → IsSound (m w).1.store

continue-IsSound :
    {A B : Type 0} (k : A → World → Outcome B × World) (r : Outcome A) (w : World)
    → ((a : A) → Keeps (k a))
    → IsSound w.store
    → IsSound (continue_with r w k).1.store
continue-IsSound k (ok a) w hk v = (hk a).keeps w v
continue-IsSound k (raised e) w hk v = v

pub Keeps-bind :
    {A B : Type 0} {m : World → Outcome A × World} {k : A → World → Outcome B × World}
    → Keeps m
    → ((a : A) → Keeps (k a))
    → Keeps (m >>= k)
Keeps-bind {m} {k} hm hk = record {
  keeps = λ w v. continue-IsSound k (m w).0 (m w).1 hk (hm.keeps w v);
}

handle-IsSound :
    {A : Type 0} (h : Failure → World → Outcome A × World) (r : Outcome A) (w : World)
    → ((e : Failure) → Keeps (h e))
    → IsSound w.store
    → IsSound (handle r w h).1.store
handle-IsSound h (ok a) w hh v = v
handle-IsSound h (raised e) w hh v = (hh e).keeps w v

pub Keeps-attempt :
    {A : Type 0} {m : World → Outcome A × World} {h : Failure → World → Outcome A × World}
    → Keeps m
    → ((e : Failure) → Keeps (h e))
    → Keeps (attempt m h)
Keeps-attempt {m} {h} hm hh = record {
  keeps = λ w v. handle-IsSound h (m w).0 (m w).1 hh (hm.keeps w v);
}

pub Keeps-for_each :
    {A : Type 0} (xs : List A) {f : A → World → Outcome Unit × World}
    → ((x : A) → Keeps (f x))
    → Keeps (for_each xs f)
unfolding for_each
Keeps-for_each [] {f} hf = record { keeps = λ w v. v }
Keeps-for_each (x ∷ xs) {f} hf = record {
  keeps = λ w v.
      continue-IsSound (λ _. for_each xs f) (f x w).0 (f x w).1 (λ _. Keeps-for_each xs hf)
        ((hf x).keeps w v);
}

pub Keeps-when : (b : Bool) {m : World → Outcome Unit × World} → Keeps m → Keeps (when b m)
Keeps-when true hm = hm
Keeps-when false hm = record { keeps = λ w v. v }

pub Keeps-on_store :
    {A : Type 0} (m : Store → Outcome A × Store)
    → ((s : Store) → IsSound s → IsSound (m s).1)
    → Keeps (on_store m)
unfolding on_store
Keeps-on_store m hm = record { keeps = λ w v. hm w.store v }

-- An action that leaves the database alone.
pub Keeps-pure :
    {A : Type 0} {m : World → Outcome A × World} → ((w : World) → (m w).1.store ≡ w.store) → Keeps m
Keeps-pure h = record { keeps = λ w v. rw (h w) v }

pub Keeps-return : {A : Type 0} (a : A) → Keeps (return a)
Keeps-return a = Keeps-pure (λ w. refl)

pub Keeps-count : (f : Results → Results) → Keeps (count_result f)
Keeps-count f = Keeps-pure (λ w. refl)

pub Keeps-see : (mac : Text) → Keeps (see mac)
Keeps-see mac = Keeps-pure (λ w. refl)

pub Keeps-require : (d : Option Device) → Keeps (require d)
Keeps-require none = Keeps-pure (λ w. refl)
Keeps-require (some d) = Keeps-pure (λ w. refl)
