-- ===== src/Deco/Qos.antt =====
-- `get_qos_settings` with its cache. The client of the Deco is a parameter, as in `Deco.Wifi`.
use homesentinel.Prelude.{
  ℕ, ◌-◌, Bool, false, ltb, Option, none, some, List, [], ◌∷◌, length, if◌then◌else◌, Outcome, ok,
  raised, codes,
}
use homesentinel.Deco.Values.{Value, null, text, Object, get_or, or_default}

pub record DeviceQos : Type 0 where
  pub device_name : Value
  pub mac_address : Value
  pub priority : Value
  pub bandwidth_limit_mbps : Value
  pub connection_type : Value
  pub ip_address : Value

-- The moment of the answer and the raw data are left out; the rest of the answer is constant.
pub record QosData : Type 0 where
  pub devices : List DeviceQos
  pub total_devices : ℕ

unfoldable pub device_qos : Object → DeviceQos
unfolding get_or
device_qos c = record {
  device_name =
      or_default (get_or c (codes "name") (codes "clientName" ∷ [])) (text (codes "Unknown"));
  mac_address =
      or_default (get_or c (codes "macAddress") (codes "mac_address" ∷ []))
        (text (codes "Unknown"));
  priority = or_default (get_or c (codes "priority") []) (text (codes "Normal"));
  bandwidth_limit_mbps =
      or_default (get_or c (codes "bandwidth_limit") (codes "bandwidth" ∷ [])) null;
  connection_type =
      or_default (get_or c (codes "connectionType") (codes "type" ∷ [])) (text (codes "WiFi"));
  ip_address =
      or_default (get_or c (codes "ipAddress") (codes "ip_address" ∷ [])) (text (codes "Unknown"));
}

unfoldable pub devices_qos : List Object → List DeviceQos
unfolding device_qos
devices_qos [] = []
devices_qos (c ∷ cs) = device_qos c ∷ devices_qos cs

-- `_build_qos_from_clients`
unfoldable pub build_qos_from_clients : List Object → QosData
unfolding devices_qos
build_qos_from_clients clients = record {
  devices = devices_qos clients;
  total_devices = length (devices_qos clients);
}

-- The service's cache, with a moment in seconds, and the client
pub record Qos (S : Type 0) : Type 0 where
  pub cache : Option QosData
  pub timestamp : ℕ
  pub client : S

module _ {S : Type 0} where
  -- `_is_cache_valid_qos`
  unfoldable pub is_cache_valid_qos : ℕ → Qos S → Bool
  is_cache_valid_qos seconds q = elim q.cache [
    | none ↦ false
    | some d ↦ ltb (seconds - q.timestamp) 60
  ]

  -- What `clear_cache` does to this cache
  unfoldable pub clear_qos : Qos S → Qos S
  clear_qos q = record q { cache = none; timestamp = 0 }

  abbrev pub fetched : ℕ → Outcome (List Object) × S → Qos S → Outcome QosData × Qos S
  fetched seconds (ok cs, client) q = (
    ok (build_qos_from_clients cs),
    record q { cache = some (build_qos_from_clients cs); timestamp = seconds; client = client },
  )
  fetched seconds (raised e, client) q = (raised e, record q { client = client })

  abbrev pub cached_or : Option QosData → Outcome QosData × Qos S → Qos S → Outcome QosData × Qos S
  cached_or none fresh q = fresh
  cached_or (some d) fresh q = (ok d, q)

  -- `get_qos_settings`
  unfoldable pub get_qos_settings :
      (S → Outcome (List Object) × S) → ℕ → Qos S → Outcome QosData × Qos S
  unfolding is_cache_valid_qos build_qos_from_clients
  get_qos_settings get_client_list seconds q =
      let fresh = fetched seconds (get_client_list q.client) q in
      if is_cache_valid_qos seconds q then cached_or q.cache fresh q else fresh
