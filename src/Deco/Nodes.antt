-- ===== src/Deco/Nodes.antt =====
-- `_normalize_node_status`, `_decode_node_alias`, `_extract_client_details`,
-- `_calculate_signal_strength` and `_enrich_node_data`.
use homesentinel.Prelude.{
  ℕ, ◌*◌, ◌-◌, Text, text_eq, is_empty, lower, Bool, true, false, not, ◌&&◌, ◌||◌, ◌==◌, ltb, leb,
  Option, none, some, List, [], ◌∷◌, ◌++◌, any, length, Dict, get, if◌then◌else◌, Outcome, ok,
  raised, type_error, overflow_error, codes, and_then,
}
use homesentinel.Mac.{strip}
use homesentinel.Db.Schema.{Status, online, offline}
use homesentinel.Deco.Values.{
  ℤ, pos, negsuc, Value, null, boolean, number, text, structure, Object, truthy, or_null, get_or,
  or_default, get_not_none, str, int, real, int_of_whole, or_if_unreadable,
}

-- What the service takes of its surroundings: `str` and `int` of numbers, base64, whose result is
-- decoded and stripped, or none if it raises, and the floating-point arithmetic of
-- `int((n / 255) * 100)` and of `int(n / 1000)`, or none for an OverflowError
pub record Formats : Type 0 where
  pub show : ℤ → Text
  pub read : Text → Option ℤ
  pub b64decode : Text → Option Text
  pub percent_of_255 : ℕ → Option ℕ
  pub thousandth : ℕ → Option ℕ

abbrev pub one_of : Text → List Text → Bool
one_of s = any (text_eq s)

abbrev pub online_texts : List Text
online_texts =
    codes "online" ∷ codes "connected" ∷ codes "active" ∷ codes "up" ∷ codes "1" ∷ codes "true" ∷ []

abbrev pub offline_texts : List Text
offline_texts =
    codes "offline"
    ∷ codes "disconnected"
    ∷ codes "inactive"
    ∷ codes "down"
    ∷ codes "0"
    ∷ codes "false"
    ∷ []

abbrev pub status_of : Bool → Status
status_of b = if b then online else offline

-- The first of the keys that holds a boolean
unfoldable pub boolean_hint : Object → List Text → Option Bool
boolean_hint d [] = none
boolean_hint d (k ∷ ks) =
    let rest = boolean_hint d ks in elim (or_null (get k d)) [ boolean b ↦ some b | _ ↦ rest ]

abbrev pub hinted : Option Bool → Status
hinted none = online
hinted (some b) = status_of b

abbrev pub hint_keys : List Text
hint_keys =
    codes "online"
    ∷ codes "isOnline"
    ∷ codes "is_online"
    ∷ codes "connected"
    ∷ codes "isConnected"
    ∷ codes "active"
    ∷ []

abbrev pub status_of_text : Object → Text → Status
status_of_text d s =
    if one_of s online_texts
    then online
    else if one_of s offline_texts
    then offline
    else hinted (boolean_hint d hint_keys)

-- `_normalize_node_status`: a boolean is an integer too, and clients make no difference, since an
-- unknown status counts as online.
unfoldable pub normalize_node_status : Formats → Value → Object → Status
unfolding boolean_hint str
normalize_node_status f (boolean b) d = status_of b
normalize_node_status f (number (pos n)) d = status_of (leb 1 n)
normalize_node_status f (number (negsuc n)) d = offline
normalize_node_status f null d = status_of_text d []
normalize_node_status f (text s) d = status_of_text d (lower (strip s))
normalize_node_status f (structure s b) d = status_of_text d (if b then lower (strip s) else [])
normalize_node_status f (real r) d =
    status_of_text d (if r.vanishes then [] else lower (strip r.shown))

abbrev pub decoded_or : Option Text → Text → Text
decoded_or none alias = alias
decoded_or (some s) alias = if is_empty s then alias else s

abbrev pub is_plain_alias : Text → Bool
is_plain_alias s =
    any (λ c. c == b' ' || (c == b'-' || c == b'_')) s && not (any (λ c. c == b'=') s)

abbrev pub decode_alias_text : Formats → Text → Value
decode_alias_text f s =
    if is_empty s then null else text (if is_plain_alias s then s else decoded_or (f.b64decode s) s)

-- `_decode_node_alias`
unfoldable pub decode_node_alias : Formats → Value → Value
unfolding str
decode_node_alias f alias =
    if truthy alias then decode_alias_text f (strip (str f.show alias)) else null

pub record Client : Type 0 where
  pub name : Value
  pub mac_address : Value
  pub ip_address : Value
  pub connection_type : Value
  pub signal_rssi : Value
  pub raw_data : Object

-- `_extract_client_details`
unfoldable pub extract_client_details : Object → Client
unfolding get_or
extract_client_details c = record {
  name =
      or_default
        (get_or c (codes "clientName") (codes "client_name" ∷ codes "name" ∷ codes "nickname" ∷ []))
        (text (codes "Unknown"));
  mac_address = or_default (get_or c (codes "macAddress") (codes "mac_address" ∷ [])) (text []);
  ip_address =
      or_default (get_or c (codes "ipAddress") (codes "ip_address" ∷ codes "ip" ∷ [])) (text []);
  connection_type =
      or_default (get_or c (codes "connectionType") (codes "connection_type" ∷ [])) (text []);
  signal_rssi = get_or c (codes "rssi") (codes "signalRSSI" ∷ codes "signal_rssi" ∷ []);
  raw_data = c;
}

abbrev pub at_most : ℕ → ℕ → ℕ
at_most bound n = if ltb bound n then bound else n

-- The percentage of a number: dBm below zero, a percentage, or a scale to 255. `negsuc n` is
-- -(n + 1), and 2 * (99 - n) is 2 * (signal + 100), or 0 where that is negative.
unfoldable pub percentage : Formats → ℤ → Outcome ℕ
percentage f (negsuc n) = ok (at_most 100 (2 * (99 - n)))
percentage f (pos n) =
    if leb n 100
    then ok n
    else elim (f.percent_of_255 n) [ none ↦ raised overflow_error | some p ↦ ok (at_most 100 p) ]

abbrev pub is_no_signal : Value → Bool
is_no_signal null = true
is_no_signal (text s) = is_empty s || text_eq s (codes "unknown")
is_no_signal _ = false

-- `_calculate_signal_strength`, which catches a ValueError and a TypeError, but no OverflowError
unfoldable pub calculate_signal_strength : Formats → Value → Outcome ℕ
unfolding int percentage
calculate_signal_strength f v =
    if is_no_signal v
    then ok 0
    else or_if_unreadable (and_then (int f.read v) (percentage f)) (ok 0)

pub record Node : Type 0 where
  pub node_id : Text
  pub node_name : Text
  pub firmware_version : Text
  pub uptime_seconds : ℤ
  pub connected_clients : ℤ
  pub signal_strength : ℕ
  pub model : Text
  pub status : Status
  pub clients : List Client
  pub raw_data : Object

abbrev pub seconds_of : Option ℕ → Outcome ℤ
seconds_of none = raised overflow_error
seconds_of (some n) = ok (pos n)

-- The uptime, of which a hundred years or more in seconds are taken for milliseconds; comparing a
-- text or a structure with a number raises.
unfoldable pub uptime_of : Formats → Value → Outcome ℤ
uptime_of f null = ok (pos 0)
uptime_of f (boolean b) = ok (pos (if b then 1 else 0))
uptime_of f (number (pos n)) = if ltb 3153600000 n then seconds_of (f.thousandth n) else ok (pos n)
uptime_of f (number (negsuc n)) = ok (negsuc n)
uptime_of f (text s) = raised type_error
uptime_of f (structure s b) = raised type_error
uptime_of f (real r) = int_of_whole (if r.is_long then r.thousandth else r.whole)

-- `connected_clients`, or the number of the clients where it cannot be read
abbrev pub or_length : Outcome ℤ → List Client → Outcome ℤ
or_length n clients = or_if_unreadable n (ok (pos (length clients)))

-- `node_clients`, of the clients by node, and the name of a node without one
abbrev pub clients_of : Option (List Client) → List Client
clients_of none = []
clients_of (some cs) = cs

abbrev pub node_id_of : Object → Value
node_id_of d =
    or_default
      (get_or d (codes "nodeID") (
        codes "node_id"
        ∷ codes "deviceId"
        ∷ codes "device_id"
        ∷ codes "id"
        ∷ codes "macAddress"
        ∷ codes "mac_address"
        ∷ []))
      (text (codes "unknown"))

abbrev pub node_name_of : Formats → Object → Value
node_name_of f d =
    or_default
      (get_or d (codes "nodeName") (codes "node_name" ∷ codes "name" ∷ codes "nickname" ∷ []))
      (or_default (decode_node_alias f (or_null (get (codes "alias") d)))
        (text (codes "Node " ++ str f.show (node_id_of d))))

abbrev pub enriched : Formats → Dict (List Client) → Object → ℤ → ℤ → ℕ → Node
enriched f by_node d uptime connected strength =
    let cs = clients_of (get (str f.show (node_id_of d)) by_node) in
    record {
      node_id = str f.show (node_id_of d);
      node_name = str f.show (node_name_of f d);
      firmware_version = str f.show (
          or_default
            (get_or d (codes "fwVersion") (
              codes "fwVer"
              ∷ codes "firmware_version"
              ∷ codes "firmwareVersion"
              ∷ codes "swVersion"
              ∷ codes "sw_version"
              ∷ []))
            (text (codes "unknown")));
      uptime_seconds = uptime;
      connected_clients = connected;
      signal_strength = strength;
      model = str f.show (
          or_default
            (get_or d (codes "modelName") (
              codes "model_name"
              ∷ codes "model"
              ∷ codes "deviceModel"
              ∷ codes "deviceName"
              ∷ codes "productModel"
              ∷ codes "product_model"
              ∷ codes "hwType"
              ∷ []))
            (text (codes "unknown")));
      status =
          normalize_node_status f
            (get_not_none d (codes "status" ∷ codes "nodeStatus" ∷ codes "node_status" ∷ [])) d;
      clients = cs;
      raw_data = d;
    }

abbrev pub signal_of : Object → Value
signal_of d = get_or d (codes "signalRSSI") (
    codes "signal_rssi"
    ∷ codes "rssi"
    ∷ codes "signal"
    ∷ codes "signalStrength"
    ∷ codes "signal_strength"
    ∷ [])

abbrev pub connected_of : Object → Value
connected_of d = get_or d (codes "connectedClients") (
    codes "connected_clients"
    ∷ codes "clientNum"
    ∷ codes "client_num"
    ∷ codes "connectedClientNum"
    ∷ [])

-- `_enrich_node_data`; the moment of the answer is left out.
unfoldable pub enrich_node_data : Formats → Dict (List Client) → Object → Outcome Node
unfolding get_not_none uptime_of calculate_signal_strength
enrich_node_data f by_node d =
    and_then
      (uptime_of f (
        get_not_none d (
          codes "uptime"
          ∷ codes "uptimeSeconds"
          ∷ codes "uptime_seconds"
          ∷ codes "upTime"
          ∷ codes "up_time"
          ∷ [])))
      (λ uptime.
        and_then
          (or_length (int f.read (connected_of d))
            (clients_of (get (str f.show (node_id_of d)) by_node)))
          (λ connected.
            and_then (calculate_signal_strength f (signal_of d))
              (λ strength. ok (enriched f by_node d uptime connected strength))))
