-- ===== src/Scenarios/Names.antt =====
-- The theorems about MAC addresses and vendors, on small inputs.
use homesentinel.Prelude.{
  ◌≡◌, Text, some, List, [], ◌∷◌, codes, ok, map, remove_char, lower_char, is_hex_digit, ◌≢◌, arith,
}
use homesentinel.Mac.{
  normalize_mac_address, normalize_lease_mac, normalize_node_mac, normalize_mac, join_octets,
  all_hex,
}
use homesentinel.Mac.Laws.{normalizers_agree}
use homesentinel.Oui.{Row, cells, foreign, load_rows, reload_database}
use homesentinel.Oui.Laws.{answers, answers-reload_database, vendor_by_mac}

abbrev dashed : Text
dashed = codes "AA-BB-CC-DD-EE-01"

abbrev coloned : Text
coloned = codes "aa:bb:cc:dd:ee:01"

normalizes : normalize_lease_mac dashed ≢ []
unfolding normalize_lease_mac remove_char lower_char join_octets all_hex is_hex_digit
normalizes = λ h. ground arith

normalizers_agree_example :
    (normalize_mac_address dashed ≡ normalize_lease_mac dashed)
    × (normalize_node_mac (some dashed) ≡ some (normalize_lease_mac dashed))
    × (normalize_mac dashed ≡ ok (normalize_lease_mac dashed))
normalizers_agree_example = normalizers_agree dashed normalizes

abbrev rows : List Row
rows = cells (some (codes "AA-BB-CC")) (some (codes "Acme")) ∷ foreign ∷ []

answers-reload_database_example :
    answers
      (coloned ∷ dashed ∷ [])
      (reload_database rows (record { oui_database = []; cache = [] }))
    ≡ map (vendor_by_mac (load_rows rows [])) (coloned ∷ dashed ∷ [])
answers-reload_database_example =
    answers-reload_database rows (coloned ∷ dashed ∷ []) (record { oui_database = []; cache = [] })
