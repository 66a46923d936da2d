-- ===== src/Correlation/Pairs.antt =====
-- What is merged belongs together.
use homesentinel.Prelude.{
  ◌≡◌, refl, Text, text_eq_iff, is_empty, Option, none, some, List, [], ◌∷◌, All, All-append, Dict,
  get, put, get-put, if◌then◌else◌, arith, Bool-cases, inl, inr,
}
use homesentinel.Db.Schema.{Device}
use homesentinel.Mac.{normalize_mac_address}
use homesentinel.Correlation.{
  Client, client_mac, Pair, merge_device_data, lan_map, Gathered, gather_found, gather,
  correlate_by_mac,
}

-- The dict holds each device under its own address.
abbrev KeyedByMac : Dict Device → Type 0
KeyedByMac m = (k : Text) (d : Device) → get k m ≡ some d → normalize_mac_address d.mac_address ≡ k

put-KeyedByMac :
    (d : Device) (m : Dict Device)
    → KeyedByMac m
    → KeyedByMac (put (normalize_mac_address d.mac_address) d m)
put-KeyedByMac d m keyed k d' h = ground (
  arith,
  h,
  get-put (normalize_mac_address d.mac_address) k d m,
  text_eq_iff (normalize_mac_address d.mac_address) k,
  keyed k d',
)

lan_map-KeyedByMac : (ds : List Device) (m : Dict Device) → KeyedByMac m → KeyedByMac (lan_map ds m)
unfolding lan_map
lan_map-KeyedByMac [] m keyed = keyed
lan_map-KeyedByMac (d ∷ ds) m keyed =
    lan_map-KeyedByMac ds
      (if is_empty d.mac_address then m else put (normalize_mac_address d.mac_address) d m)
      (elim (Bool-cases (is_empty d.mac_address)) [
        | inl blank ↦ rw blank keyed
        | inr set ↦ rw set (put-KeyedByMac d m keyed)
      ])

-- The client and the device of a pair have the same address, which is the one that is shown.
abbrev pub Matches : Pair → Type 0
Matches p =
    (normalize_mac_address p.lan.mac_address ≡ normalize_mac_address (client_mac p.deco))
    × (p.mac_address ≡ normalize_mac_address (client_mac p.deco))

gather_found-Matches :
    (c : Client) (found : Option Device) (g : Gathered)
    → ((d : Device)
        → found ≡ some d
        → normalize_mac_address d.mac_address ≡ normalize_mac_address (client_mac c))
    → All Matches g.merged
    → All Matches (gather_found c found g).merged
unfolding merge_device_data
gather_found-Matches c none g same h = h
gather_found-Matches c (some d) g same h =
    All-append Matches g.merged (merge_device_data c d ∷ []) h ((same d refl, same d refl), tt)

gather-Matches :
    (m : Dict Device) (cs : List Client) (g : Gathered)
    → KeyedByMac m
    → All Matches g.merged
    → All Matches (gather m cs g).merged
unfolding gather
gather-Matches m [] g keyed h = h
gather-Matches m (c ∷ cs) g keyed h =
    let mac = normalize_mac_address (client_mac c) in
    gather-Matches m cs (if is_empty (client_mac c) then g else gather_found c (get mac m) g) keyed
      (elim (Bool-cases (is_empty (client_mac c))) [
        | inl blank ↦ rw blank h
        | inr set ↦ rw set (gather_found-Matches c (get mac m) g (keyed mac) h)
      ])

-- Every merged pair is a client and a device with the same address, however the two spell it.
pub correlate_by_mac-Matches :
    (clients : List Client) (devices : List Device)
    → All Matches (correlate_by_mac clients devices).merged_devices
unfolding correlate_by_mac get
correlate_by_mac-Matches clients devices =
    gather-Matches (lan_map devices []) clients (record { merged = []; matched = [] })
      (lan_map-KeyedByMac devices [] (λ k d h. ground arith)) tt
