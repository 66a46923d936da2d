-- ===== src/Deco/Wifi.antt =====
-- `get_wifi_config` and `update_wifi_config`, with their cache. The client of the Deco is a
-- parameter: reading and writing the settings change its state, and may raise.
use homesentinel.Prelude.{
  ℕ, ◌-◌, ◌≡◌, refl, ◌∙◌, ap, sym, Text, text_eq, contains, Bool, true, false, ◌&&◌, ◌||◌, ltb, leb,
  Option, none, some, List, [], ◌∷◌, ◌++◌, length, get, if◌then◌else◌, Outcome, ok, raised, Failure,
  value_error, external_error, codes,
}
use homesentinel.Mac.{strip}
use homesentinel.Deco.Values.{Value, text, Object, truthy, or_null, get_or, or_default, str}
use homesentinel.Deco.Nodes.{Formats}

pub record WifiConfig : Type 0 where
  pub ssid : Text
  pub bands : List Text
  pub channel_2_4ghz : Text
  pub channel_5ghz : Text
  pub channel_6ghz : Option Text
  pub band_steering_enabled : Bool
  pub raw_data : Object

-- `raw_config.get("bands", "")`
abbrev pub bands_text : Formats → Object → Text
bands_text f d = elim (get (codes "bands") d) [ none ↦ [] | some v ↦ str f.show v ]

abbrev pub has_band : Formats → Object → Text → List Text → Text → Bool
has_band f d key keys digits = truthy (get_or d key keys) || contains digits (bands_text f d)

abbrev pub if_band : Bool → Text → List Text
if_band b name = if b then name ∷ [] else []

abbrev pub or_common : List Text → List Text
or_common [] = codes "2.4 GHz" ∷ codes "5 GHz" ∷ []
or_common (b ∷ bs) = b ∷ bs

abbrev pub str_if_true : Formats → Value → Option Text
str_if_true f v = if truthy v then some (str f.show v) else none

-- `_enrich_wifi_config`; the moment of the answer is left out.
unfoldable pub enrich_wifi_config : Formats → Object → WifiConfig
unfolding get_or str
enrich_wifi_config f d = record {
  ssid =
      str f.show
        (or_default (get_or d (codes "ssid") (codes "SSID" ∷ [])) (text (codes "Unknown")));
  bands = or_common (
      if_band (has_band f d (codes "band_2_4ghz_enabled") (codes "is_2_4ghz" ∷ []) (codes "2.4"))
        (codes "2.4 GHz")
      ++ (if_band (has_band f d (codes "band_5ghz_enabled") (codes "is_5ghz" ∷ []) (codes "5"))
            (codes "5 GHz")
          ++ if_band (has_band f d (codes "band_6ghz_enabled") (codes "is_6ghz" ∷ []) (codes "6"))
              (codes "6 GHz")));
  channel_2_4ghz =
      str f.show (
        or_default (get_or d (codes "channel_2_4ghz") (codes "channel" ∷ []))
          (text (codes "Auto")));
  channel_5ghz = str f.show (
      or_default (get_or d (codes "channel_5ghz") (codes "channel_5g" ∷ [])) (text (codes "Auto")));
  channel_6ghz = str_if_true f (or_null (get (codes "channel_6ghz") d));
  band_steering_enabled =
      truthy (get_or d (codes "band_steering_enabled") (codes "band_steering" ∷ []));
  raw_data = d;
}

-- What is to change
pub record Update : Type 0 where
  pub ssid : Option Text
  pub password : Option Text
  pub band_steering : Option Bool

-- The service's cache, with a moment in seconds, and the client
pub record Wifi (S : Type 0) : Type 0 where
  pub cache : Option WifiConfig
  pub timestamp : ℕ
  pub client : S

abbrev pub stripped : Option Text → Option Text
stripped none = none
stripped (some s) = some (strip s)

abbrev pub is_ssid : Option Text → Bool
is_ssid none = true
is_ssid (some s) = leb 1 (length s) && leb (length s) 32

abbrev pub is_password : Option Text → Bool
is_password none = true
is_password (some s) = leb 8 (length s)

-- Errors of the client pass, all others become an APIConnectionError.
unfoldable pub as_api_error : Failure → Failure
as_api_error value_error = value_error
as_api_error (external_error name) =
    if text_eq name (codes "InvalidCredentialsError")
    then external_error name
    else external_error (codes "APIConnectionError")
as_api_error _ = external_error (codes "APIConnectionError")

module _ {S : Type 0} (f : Formats) (get_wifi_settings : S → Outcome Object × S) where
  -- `_is_cache_valid_wifi_config`
  unfoldable pub is_cache_valid_wifi_config : ℕ → Wifi S → Bool
  is_cache_valid_wifi_config seconds w = elim w.cache [
    | none ↦ false
    | some c ↦ ltb (seconds - w.timestamp) 60
  ]

  abbrev pub fetched : ℕ → Outcome Object × S → Wifi S → Outcome WifiConfig × Wifi S
  fetched seconds (ok raw, client) w = (
    ok (enrich_wifi_config f raw),
    record w { cache = some (enrich_wifi_config f raw); timestamp = seconds; client = client },
  )
  fetched seconds (raised e, client) w = (raised e, record w { client = client })

  abbrev pub cached_or :
      Option WifiConfig → Outcome WifiConfig × Wifi S → Wifi S → Outcome WifiConfig × Wifi S
  cached_or none fresh w = fresh
  cached_or (some c) fresh w = (ok c, w)

  -- `get_wifi_config`
  unfoldable pub get_wifi_config : ℕ → Wifi S → Outcome WifiConfig × Wifi S
  unfolding is_cache_valid_wifi_config enrich_wifi_config
  get_wifi_config seconds w =
      let fresh = fetched seconds (get_wifi_settings w.client) w in
      if is_cache_valid_wifi_config seconds w then cached_or w.cache fresh w else fresh

  module _ (update_wifi_settings : Update → S → Outcome Unit × S) where
    abbrev pub map_error : Outcome WifiConfig × Wifi S → Outcome WifiConfig × Wifi S
    map_error (ok c, w) = (ok c, w)
    map_error (raised e, w) = (raised (as_api_error e), w)

    abbrev pub after_update : ℕ → Outcome Unit × S → Wifi S → Outcome WifiConfig × Wifi S
    after_update seconds (ok done, client) w =
        get_wifi_config seconds (record w { cache = none; timestamp = 0; client = client })
    after_update seconds (raised e, client) w = (raised e, record w { client = client })

    -- `update_wifi_config`: the configuration that it returns
    unfoldable pub update_wifi_config : ℕ → Update → Wifi S → Outcome WifiConfig × Wifi S
    unfolding get_wifi_config as_api_error
    update_wifi_config seconds u w =
        if is_ssid (stripped u.ssid) && is_password u.password
        then map_error (
            after_update seconds
              (update_wifi_settings (record u { ssid = stripped u.ssid }) w.client) w)
        else (raised value_error, w)

    abbrev now_cached : ℕ → Object → S → Wifi S
    now_cached seconds raw client = record {
      cache = some (enrich_wifi_config f raw);
      timestamp = seconds;
      client = client;
    }

    updated :
        (seconds : ℕ) (u : Update) (w : Wifi S) (written read : S) (raw : Object)
        → (is_ssid (stripped u.ssid) && is_password u.password) ≡ true
        → update_wifi_settings (record u { ssid = stripped u.ssid }) w.client ≡ (ok tt, written)
        → get_wifi_settings written ≡ (ok raw, read)
        → update_wifi_config seconds u w
          ≡ (ok (enrich_wifi_config f raw), now_cached seconds raw read)
    unfolding update_wifi_config get_wifi_config is_cache_valid_wifi_config
    updated seconds u w written read raw v uw ur = rw (v, uw, ur) refl

    still_cached :
        (seconds later : ℕ) (read : S) (raw : Object)
        → ltb (later - seconds) 60 ≡ true
        → get_wifi_config later (now_cached seconds raw read)
          ≡ (ok (enrich_wifi_config f raw), now_cached seconds raw read)
    unfolding get_wifi_config is_cache_valid_wifi_config
    still_cached seconds later read raw l = rw l refl

    -- If the update is valid and the client writes it and then reads its settings, the update
    -- returns the settings read after the write, not cached ones, and for a minute
    -- `get_wifi_config` gives the same without asking the client.
    pub update_wifi_config_fresh :
        (seconds later : ℕ) (u : Update) (w : Wifi S) (written read : S) (raw : Object)
        → (is_ssid (stripped u.ssid) && is_password u.password) ≡ true
        → update_wifi_settings (record u { ssid = stripped u.ssid }) w.client ≡ (ok tt, written)
        → get_wifi_settings written ≡ (ok raw, read)
        → ltb (later - seconds) 60 ≡ true
        → ((update_wifi_config seconds u w).0 ≡ ok (enrich_wifi_config f raw))
          × (get_wifi_config later (update_wifi_config seconds u w).1
              ≡ (ok (enrich_wifi_config f raw), (update_wifi_config seconds u w).1))
    update_wifi_config_fresh seconds later u w written read raw v uw ur l =
        let e = updated seconds u w written read raw v uw ur in
        (
          ap (λ r. r.0) e,
          ap (λ r. get_wifi_config later r.1) e
              ∙ still_cached seconds later read raw l
              ∙ ap (λ r. (ok (enrich_wifi_config f raw), r.1)) (sym e),
        )
