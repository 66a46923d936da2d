-- ===== src/LocalServices/Control.antt =====
-- `_valid_argv`, `_is_controllable` and `control`. The state is the list of the commands that were
-- run, the last one first.
use homesentinel.Prelude.{
  ℕ, ◌≡◌, refl, Text, text_eq, is_empty, lower, Bool, true, false, not, ◌&&◌, ◌||◌, ◌==◌, Option,
  none, some, List, [], ◌∷◌, ◌++◌, any, find, take, get, if◌then◌else◌, Outcome, ok, raised,
  permission_error, key_error, external_error, ◌∙◌, ◌⊎◌, inl, inr, codes, arith, Bool-cases,
  Option-cases,
}
use homesentinel.LocalServices.State.{Argv, not_a_list, parts, Config, Monitor}

abbrev pub no_nul : Text → Bool
no_nul part = not (any (λ c. c == 0) part)

-- `isinstance(part, str) and bool(part) and "\x00" not in part`
unfoldable pub valid_part : Option Text → Bool
valid_part none = false
valid_part (some part) = not (is_empty part) && no_nul part

unfoldable pub all_valid : List (Option Text) → Bool
unfolding valid_part
all_valid [] = true
all_valid (p ∷ ps) = valid_part p && all_valid ps

-- `_valid_argv`, on what `config.get` gives
unfoldable pub valid_argv : Option Argv → Bool
unfolding all_valid
valid_argv none = false
valid_argv (some not_a_list) = false
valid_argv (some (parts [])) = false
valid_argv (some (parts (p ∷ ps))) = all_valid (p ∷ ps)

unfoldable pub is_enabled : Monitor → Bool
is_enabled m = text_eq (lower m.controls_enabled) (codes "true")

abbrev pub argv_of : Config → Text → Option Argv
argv_of config action = get (action ++ codes "_argv") config.argvs

-- `_is_controllable`
unfoldable pub is_controllable : Monitor → Config → Bool
unfolding is_enabled valid_argv
is_controllable m config =
    is_enabled m
    && (valid_argv (argv_of config (codes "restart")) || valid_argv (argv_of config (codes "stop")))

-- What `subprocess.run` gives back
pub record Completed : Type 0 where
  pub returncode : ℕ
  pub stderr : Text

abbrev pub is_action : Text → Bool
is_action action = text_eq action (codes "restart") || text_eq action (codes "stop")

abbrev pub finished : Outcome Completed → Outcome Unit
finished (raised e) = raised e
finished (ok r) =
    if r.returncode == 0
    then ok tt
    else raised (
        external_error
          (if is_empty r.stderr then codes "service command failed" else take 500 r.stderr))

-- The command is run, and its end awaited.
abbrev pub run_argv :
    (Option Argv → Outcome Completed)
    → Option Argv
    → List (Option Argv)
    → Outcome Unit × List (Option Argv)
run_argv runner argv commands = (finished (runner argv), argv ∷ commands)

abbrev pub control_config :
    (Option Argv → Outcome Completed)
    → Text
    → Option Config
    → List (Option Argv)
    → Outcome Unit × List (Option Argv)
unfolding valid_argv
control_config runner action none commands = (raised key_error, commands)
control_config runner action (some config) commands =
    if not (is_action action) || not (valid_argv (argv_of config action))
    then (raised permission_error, commands)
    else run_argv runner (argv_of config action) commands

-- `control`
unfoldable pub control :
    Monitor
    → (Option Argv → Outcome Completed)
    → Text
    → Text
    → List (Option Argv)
    → Outcome Unit × List (Option Argv)
unfolding is_enabled valid_argv
control m runner service_id action commands =
    if not (is_enabled m)
    then (raised permission_error, commands)
    else control_config runner action (find (λ item. text_eq item.id service_id) m.configs) commands

-- The command that a caller may run: the valid one that the service's configuration has under the
-- action, when controls are enabled and the action is to restart or to stop.
pub record IsAllowed (m : Monitor) (service_id action : Text) (argv : Option Argv) : Type 0 where
  pub enabled : is_enabled m ≡ true
  pub known : is_action action ≡ true
  pub config : Config
  pub found : find (λ item. text_eq item.id service_id) m.configs ≡ some config
  pub configured : argv_of config action ≡ argv
  pub valid : valid_argv argv ≡ true

control_refused :
    (m : Monitor) (runner : Option Argv → Outcome Completed) (service_id action : Text)
    (commands : List (Option Argv))
    → is_enabled m ≡ false
    → (control m runner service_id action commands).1 ≡ commands
unfolding control
control_refused m runner service_id action commands e = rw e refl

control_unknown :
    (m : Monitor) (runner : Option Argv → Outcome Completed) (service_id action : Text)
    (commands : List (Option Argv))
    → find (λ item. text_eq item.id service_id) m.configs ≡ none
    → (control m runner service_id action commands).1 ≡ commands
unfolding control
control_unknown m runner service_id action commands e = rw e (ground arith)

control_runs :
    (m : Monitor) (runner : Option Argv → Outcome Completed) (service_id action : Text)
    (commands : List (Option Argv)) (config : Config)
    → is_enabled m ≡ true
    → find (λ item. text_eq item.id service_id) m.configs ≡ some config
    → (control m runner service_id action commands).1 ≡ (
        if is_action action && valid_argv (argv_of config action)
        then argv_of config action ∷ commands
        else commands)
unfolding control
control_runs m runner service_id action commands config e f = rw (e, f) (ground arith)

both_true : (a b : Bool) → (a && b) ≡ true → (a ≡ true) × (b ≡ true)
both_true a b h = ground (arith, h)

-- `control` runs at most one command, and only one that is allowed: otherwise it runs none.
pub control-IsAllowed :
    (m : Monitor) (runner : Option Argv → Outcome Completed) (service_id action : Text)
    (commands : List (Option Argv))
    → ((control m runner service_id action commands).1 ≡ commands)
      ⊎ ((argv : Option Argv) × (IsAllowed m service_id action argv
            × ((control m runner service_id action commands).1 ≡ argv ∷ commands)))
control-IsAllowed m runner service_id action commands = elim (Bool-cases (is_enabled m)) [
  | inr off ↦ inl (control_refused m runner service_id action commands off)
  | inl on ↦ elim (Option-cases (find (λ item. text_eq item.id service_id) m.configs)) [
    | inl e ↦ inl (control_unknown m runner service_id action commands e)
    | inr (config, f) ↦ elim (Bool-cases (is_action action && valid_argv (argv_of config action))) [
      | inl a ↦ inr (
        argv_of config action,
        (
          record {
            enabled = on;
            known = (both_true _ _ a).0;
            config = config;
            found = f;
            configured = refl;
            valid = (both_true _ _ a).1;
          },
          control_runs m runner service_id action commands config on f ∙ rw a refl,
        ),
      )
      | inr a ↦ inl (control_runs m runner service_id action commands config on f ∙ rw a refl)
    ]
  ]
]
