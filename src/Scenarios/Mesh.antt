-- ===== src/Scenarios/Mesh.antt =====
-- A Deco with one node and its settings, a search for a device, and the claims applied to them.
use homesentinel.Prelude.{
  ℕ, upper_char, ◌*◌, ◌/◌, inl, false, ◌≤◌, ◌≡◌, refl, Text, text_eq, get, lower_char, lower, true,
  ◌&&◌, Option, none, some, List, [], ◌∷◌, any, All, codes, arith, Outcome, ok, raised,
}
use homesentinel.Mac.{strip, strip_left, strip_right}
use homesentinel.Db.Schema.{offline, status_eq}
use homesentinel.Deco.Values.{int, pos, negsuc, text, number, Object}
use homesentinel.Deco.Nodes.{Formats, Node, normalize_node_status, calculate_signal_strength}
use homesentinel.Deco.Service.{Topology, DecoService, nodes_of, is_offline_node}
use homesentinel.Deco.Signal.{IsStrength, calculate_signal_strength_bounds}
use homesentinel.Deco.Shown.{same_address, nodes_of_shown}
use homesentinel.Deco.Wifi.{
  Update, Wifi, enrich_wifi_config, get_wifi_config, update_wifi_config, update_wifi_config_fresh,
}
use homesentinel.Search.{search, passes}
use homesentinel.Search.Laws.{is_plain, is_match, search_finds}
use homesentinel.Chester.Parsers.{UciField, parse_dhcp_leases, parse_uci_hosts}
use homesentinel.Chester.Parsed.{IsAddressed, parsers_well_formed}
use homesentinel.Scenarios.{household}

abbrev formats : Formats
formats = record {
  show = λ n. codes "5";
  read = λ s. none;
  b64decode = λ s. none;
  percent_of_255 = λ n. some (n * 100 / 255);
  thousandth = λ n. some (n / 1000);
}

calculate_signal_strength_bounds_example :
    IsStrength formats
      (int formats.read (number (pos 300)))
      (calculate_signal_strength formats (number (pos 300)))
    × ((p q : ℕ) × (calculate_signal_strength formats (number (negsuc 79)) ≡ ok p)
        × (calculate_signal_strength formats (number (negsuc 59)) ≡ ok q)
        × (p ≤ q))
calculate_signal_strength_bounds_example =
    calculate_signal_strength_bounds formats (number (pos 300)) 79 59 (omega arith)

abbrev satellite : Object
satellite =
    (codes "mac", text (codes "AA-BB-CC-DD-EE-01")) ∷ (codes "status", text (codes "down")) ∷ []

-- The node says that it is down, but has a client.
abbrev mesh : Topology
mesh = record { nodes = satellite ∷ []; node_clients = (codes "aa-bb-cc-dd-ee-01", [] ∷ []) ∷ [] }

abbrev blank_node : Node
blank_node = record {
  node_id = [];
  node_name = [];
  firmware_version = [];
  uptime_seconds = pos 0;
  connected_clients = pos 0;
  signal_strength = 0;
  model = [];
  status = offline;
  clients = [];
  raw_data = [];
}

abbrev mesh_nodes : List Node
unfolding nodes_of
mesh_nodes = elim (nodes_of formats mesh) [ ok ns ↦ ns | raised e ↦ [] ]

abbrev shown_node : Node
unfolding mesh_nodes
shown_node = elim mesh_nodes [ n ∷ ns ↦ n | [] ↦ blank_node ]

nodes_of_shown_example : is_offline_node shown_node ≡ false
unfolding nodes_of shown_node mesh_nodes get text_eq status_eq normalize_node_status any strip_right
    strip_left lower_char same_address calculate_signal_strength upper_char
nodes_of_shown_example =
    nodes_of_shown formats mesh [] shown_node [] [] (codes "aa-bb-cc-dd-ee-01") [] [] [] []
      (codes "AA-BB-CC-DD-EE-01") refl refl (inl refl) refl refl

abbrev deco : DecoService
deco = record { nodes_cache = none; cache_timestamp = 0; has_device_repo = true; store = household }

-- A client whose settings are the name of the network
abbrev get_wifi_settings : Text → Outcome Object × Text
get_wifi_settings name = (ok ((codes "ssid", text name) ∷ []), name)

abbrev named : Option Text → Text → Text
named none name = name
named (some s) name = s

abbrev update_wifi_settings : Update → Text → Outcome Unit × Text
update_wifi_settings u name = (ok tt, named u.ssid name)

abbrev rename : Update
rename = record { ssid = some (codes "home"); password = none; band_steering = none }

abbrev wifi : Wifi Text
wifi = record { cache = none; timestamp = 0; client = codes "old" }

abbrev renamed : Object
renamed = (codes "ssid", text (codes "home")) ∷ []

update_wifi_config_fresh_example :
    ((update_wifi_config formats get_wifi_settings update_wifi_settings 100 rename wifi).0
      ≡ ok (enrich_wifi_config formats renamed))
    × (get_wifi_config formats get_wifi_settings 130
          (update_wifi_config formats get_wifi_settings update_wifi_settings 100 rename wifi).1
        ≡ (
          ok (enrich_wifi_config formats renamed),
          (update_wifi_config formats get_wifi_settings update_wifi_settings 100 rename wifi).1,
        ))
unfolding strip_left strip_right
update_wifi_config_fresh_example =
    update_wifi_config_fresh formats get_wifi_settings update_wifi_settings 100 130 rename wifi
      (codes "home") (codes "home") renamed refl refl refl refl

search_finds_example :
    any (λ e. true) (search (codes " AA:bb") none household)
    ≡ any
        (λ d. (is_match (strip (lower (codes " AA:bb"))) d && passes none d) && true)
        household.devices
unfolding is_plain strip_left strip_right lower_char
search_finds_example = search_finds (codes " AA:bb") none household (λ e. true) refl refl

abbrev lease_file : Text
lease_file = codes "1760000000 AA:BB:CC:DD:EE:01 192.168.12.10 tv 01"

abbrev uci_fields : List UciField
uci_fields =
    record { section = codes "0"; key = codes "mac"; value = codes "AA:BB:CC:DD:EE:01" }
    ∷ record { section = codes "0"; key = codes "ip"; value = codes "192.168.12.10" }
    ∷ []

parsers_well_formed_example :
    All (λ l. IsAddressed l.mac l.ip) (parse_dhcp_leases lease_file)
    × All (λ r. IsAddressed r.mac r.ip) (parse_uci_hosts uci_fields)
parsers_well_formed_example = parsers_well_formed lease_file uci_fields
