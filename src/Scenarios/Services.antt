-- ===== src/Scenarios/Services.antt =====
-- Small inputs of the services around the scanner, and the claims about them applied.
use homesentinel.Prelude.{
  ℕ, ◌≡◌, ◌↔◌, ◌⊎◌, refl, Text, text_eq, true, ◌&&◌, Option, none, some, [], ◌∷◌, ◌++◌, select, any,
  codes, arith, Outcome, ok, if◌then◌else◌,
}
use homesentinel.LocalServices.State.{Argv, parts, Config, Service, healthy, Tables, Monitor}
use homesentinel.LocalServices.Control.{Completed, control, control-IsAllowed, IsAllowed}
use homesentinel.LocalServices.Snapshot.{record_all}
use homesentinel.LocalServices.Record.{record_all_again}
use homesentinel.Sse.{Message, Hub, has_room, publish_event, sse_events}
use homesentinel.Sse.Steps.{
  connects, publishes, Reaches, stays, then_step, IsSilent, is_in, reaches-IsSilent,
}
use homesentinel.Sse.Delivery.{IsDistinct, publish_event_lem}
use homesentinel.Auth.{forwarded, dispatch, IsPublic, header_or_empty, is_ascii, dispatch_iff}
use homesentinel.SpeedTests.{
  SpeedTest, store_error_result, get_latest_with_change, get_history, get_all_history,
}
use homesentinel.SpeedTests.Errors.{store_error_result_hidden}
use homesentinel.Settings.{
  load_encrypted_setting, store_encrypted_setting, load-store_encrypted_setting,
}
use homesentinel.Insights.Digest.{compute_daily_digest, compute_daily_digest_blind}
use homesentinel.Insights.Streak.{
  is_bad_day, IsStreak, compute_uptime_streak, compute_uptime_streak_lem,
}
use homesentinel.Events.Presence.{get_presence_history, presence_events}
use homesentinel.Events.Windows.{is_raised, some_day_ends_up, get_presence_history_raises}
use homesentinel.Scenarios.{household, cutoff_evening}

abbrev backend_config : Config
backend_config = record {
  id = codes "backend";
  name = codes "Backend";
  port = 8443;
  health_url = none;
  argvs = (codes "restart_argv", parts (some (codes "restart") ∷ [])) ∷ [];
}

abbrev monitor : Monitor
monitor = record {
  configs = backend_config ∷ [];
  controls_enabled = codes "True";
  health_checker = λ url. (true, (12, none));
  retention = 0;
  now = codes "2026-10-14 08:00:00";
}

abbrev runner : Option Argv → Outcome Completed
runner argv = ok (record { returncode = 0; stderr = [] })

control-IsAllowed_example :
    ((control monitor runner (codes "backend") (codes "restart") []).1 ≡ [])
    ⊎ ((argv : Option Argv) × (IsAllowed monitor (codes "backend") (codes "restart") argv
          × ((control monitor runner (codes "backend") (codes "restart") []).1 ≡ argv ∷ [])))
control-IsAllowed_example = control-IsAllowed monitor runner (codes "backend") (codes "restart") []

abbrev backend_service : Service
backend_service = record {
  id = codes "backend";
  name = codes "Backend";
  port = 8443;
  status = healthy;
  pid = none;
  process = none;
  bind_address = none;
  response_time_ms = none;
  health_error = none;
  expected = true;
  controllable = true;
  history = [];
  last_changed = none;
}

abbrev no_rows : Tables
no_rows = record { samples = []; events = []; last_sample = 0; last_event = 0 }

record_all_again_example :
    (record_all
      (record monitor { now = codes "2026-10-14 08:01:00" })
      (backend_service ∷ [])
      (record_all monitor (backend_service ∷ []) no_rows)).events
    ≡ (record_all monitor (backend_service ∷ []) no_rows).events
record_all_again_example =
    record_all_again monitor (λ id. healthy) (codes "2026-10-14 08:01:00") (backend_service ∷ [])
      no_rows (refl, tt) (omega arith)

-- One subscriber, and a queue that has left
abbrev hub : Hub ℕ
hub = record { subscribers = 1 ∷ []; queues = λ q. []; made = 2 }

abbrev ping : Message ℕ
ping = record { type = codes "ping"; timestamp = 5; payload = 0 }

publish_event_lem_example :
    ((publish_event ping hub).subscribers ≡ select (has_room hub.queues) hub.subscribers)
    × ((q : ℕ)
        → (publish_event ping hub).queues q ≡ (
            if is_in q hub.subscribers && has_room hub.queues q
            then hub.queues q ++ (ping ∷ [])
            else hub.queues q))
unfolding IsDistinct any
publish_event_lem_example = publish_event_lem ping hub (refl, tt)

abbrev two_steps : Reaches hub (publish_event ping (sse_events hub))
two_steps = then_step (then_step (stays hub) (connects hub)) (publishes ping (sse_events hub))

reaches-IsSilent_example : IsSilent 0 0 (publish_event ping (sse_events hub))
unfolding IsSilent any
reaches-IsSilent_example = reaches-IsSilent 0 0 two_steps (refl, (omega arith, omega arith))

dispatch_iff_example :
    (dispatch (codes "secret") (codes "/api/devices") (some (codes "secret")) ≡ ok forwarded) ↔ (
      IsPublic (codes "secret") (codes "/api/devices")
      ⊎ ((header_or_empty (some (codes "secret")) ≡ codes "secret")
          × (is_ascii (codes "secret") ≡ true)))
dispatch_iff_example = dispatch_iff (codes "secret") (codes "/api/devices") (some (codes "secret"))

-- A cipher that marks a text, and JSON of one text
abbrev mark : Text → Text
mark s = 33 ∷ s

abbrev unmark : Text → Outcome Text
unmark [] = ok []
unmark (c ∷ s) = ok s

abbrev plain : Text → Text
plain s = s

abbrev loads : Text → Outcome Text
loads s = ok s

load-store_encrypted_setting_example :
    load_encrypted_setting plain loads mark unmark (codes "other") (
      store_encrypted_setting plain loads mark unmark (codes "2026") (codes "deco") (codes "pw") [])
    ≡ (if text_eq (codes "deco") (codes "other")
        then some (codes "pw")
        else load_encrypted_setting plain loads mark unmark (codes "other") [])
load-store_encrypted_setting_example =
    load-store_encrypted_setting plain loads mark unmark (λ s. refl) (λ s. refl) (λ v. refl)
      (codes "2026") (codes "deco") (codes "other") (codes "pw") []

compute_daily_digest_blind_example :
    ((compute_daily_digest (codes "2026-07-16") household).new_devices ≡ [])
    × ((compute_daily_digest (codes "2026-07-16") household).offline_events ≡ 0)
compute_daily_digest_blind_example =
    compute_daily_digest_blind (codes "2026-07-16") household ((cutoff_evening, (refl, refl)), tt)

compute_uptime_streak_lem_example :
    IsStreak
      (λ n. is_bad_day 1 (codes "2025-10-14 08:00:00") household.events (codes "2026-07-16"))
      0
      365
      (compute_uptime_streak (λ n. codes "2026-07-16") (codes "2025-10-14 08:00:00") household)
compute_uptime_streak_lem_example =
    compute_uptime_streak_lem (λ n. codes "2026-07-16") (codes "2025-10-14 08:00:00") household
      (omega arith)

-- The household's device came online on the evening of the cutoff, and stayed.
get_presence_history_raises_example :
    is_raised (
      get_presence_history
        (λ t. some 0)
        (λ t. some 23)
        (λ n. codes "2026-07-16")
        []
        (codes "d1")
        1
        household)
    ≡ some_day_ends_up
        (λ t. some 0)
        (λ t. some 23)
        (λ n. codes "2026-07-16")
        1
        (presence_events (codes "d1") [] household)
get_presence_history_raises_example =
    get_presence_history_raises (λ t. some 0) (λ t. some 23) (λ n. codes "2026-07-16") []
      (codes "d1") 1 household

abbrev good_test : SpeedTest ℕ
good_test = record {
  test_id = codes "t1";
  numbers = 100;
  error = none;
  timestamp = codes "2026-10-14T08:00:00";
}

store_error_result_hidden_example :
    (get_latest_with_change
        (λ old new. new)
        (store_error_result 0
          (codes "t2")
          (codes "timeout")
          (codes "2026-10-14T09:00:00")
          (good_test ∷ [])).1
      ≡ get_latest_with_change (λ old new. new) (good_test ∷ []))
    × ((get_history
            (codes "2026-10-13")
            (store_error_result 0
              (codes "t2")
              (codes "timeout")
              (codes "2026-10-14T09:00:00")
              (good_test ∷ [])).1
          ≡ get_history (codes "2026-10-13") (good_test ∷ []))
        × (get_all_history 10
              (store_error_result 0
                (codes "t2")
                (codes "timeout")
                (codes "2026-10-14T09:00:00")
                (good_test ∷ [])).1
            ≡ get_all_history 10 (good_test ∷ [])))
store_error_result_hidden_example =
    store_error_result_hidden (λ old new. new) 0 (codes "t2") (codes "timeout")
      (codes "2026-10-14T09:00:00") (codes "2026-10-13") 10 (good_test ∷ [])
