-- ===== src/Db/Polling.antt =====
-- backend/db.py, `PollingConfigRepository`. An interval is Python's int; those below 1 are `zero`.
use homesentinel.Prelude.{
  ℕ, Text, Option, none, some, Action, value_error, return, raise, leb, if◌then◌else◌,
}
use homesentinel.Db.Schema.{PollingConfig, Store}

abbrev default_config : PollingConfig
default_config = record {
  polling_interval_seconds = 60;
  last_scan_timestamp = none;
  updated_at = none;
}

-- `get_config`
unfoldable pub get_config : Store → PollingConfig
get_config s = elim s.polling [ none ↦ default_config | some c ↦ c ]

abbrev on_row : (PollingConfig → PollingConfig) → Option PollingConfig → Option PollingConfig
on_row f none = none
on_row f (some c) = some (f c)

-- `set_interval`
unfoldable pub set_interval : ℕ → Text → Action Store PollingConfig
unfolding get_config
set_interval interval_seconds now s =
    if leb interval_seconds 0
    then raise value_error s
    else (let s' = record s {
      polling =
          on_row
            (λ c. record c { polling_interval_seconds = interval_seconds; updated_at = some now })
            s.polling;
    } in
        return (get_config s') s')

-- `update_last_scan`
unfoldable pub update_last_scan : Text → Action Store PollingConfig
unfolding get_config
update_last_scan now s =
    let s' = record s {
      polling =
          on_row (λ c. record c { last_scan_timestamp = some now; updated_at = some now })
            s.polling;
    } in
    return (get_config s') s'
