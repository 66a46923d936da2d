-- ===== src/Scanner/Merging/Supplement.antt =====
-- The supplement of a subnet scan from the ARP table.
use homesentinel.Prelude.{
  ◌≡◌, refl, sym, Text, text_eq, text_eq_iff, Bool, true, false, ◌||◌, List, [], ◌∷◌, ◌++◌, any,
  any-append, Dict, arith, inl, inr, Bool-cases, if◌then◌else◌, Distinct, Distinct-insert,
}
use homesentinel.Scanner.Sources.{DeviceInfo, is_mac, supplement, scan_subnet, scan_arp_table_only}

any-supplement :
    (k : Text) (ds es : List DeviceInfo)
    → any (is_mac k) (supplement ds es) ≡ (any (is_mac k) ds || any (is_mac k) es)
unfolding supplement any
any-supplement k ds [] = ground arith
any-supplement k ds (e ∷ es) = ground (
  arith,
  any-supplement k (if any (is_mac e.mac_address) ds then ds else ds ++ e ∷ []) es,
  any-append (is_mac k) ds (e ∷ []),
  text_eq_iff e.mac_address k,
)

supplement-Distinct :
    (ds es : List DeviceInfo)
    → Distinct (λ d. d.mac_address) ds
    → Distinct (λ d. d.mac_address) (supplement ds es)
unfolding supplement
supplement-Distinct ds [] h = h
supplement-Distinct ds (e ∷ es) h =
    supplement-Distinct (if any (is_mac e.mac_address) ds then ds else ds ++ e ∷ []) es
      (elim (Bool-cases (any (is_mac e.mac_address) ds)) [
        | inl known ↦ rw known h
        | inr new ↦ rw new (Distinct-insert (λ d. d.mac_address) e ds new h)
      ])

any-arp_table :
    (k : Text) (table : Dict Text)
    → any (is_mac k) (scan_arp_table_only table) ≡ any (λ e. text_eq e.1 k) table
unfolding scan_arp_table_only any
any-arp_table k [] = refl
any-arp_table k (e ∷ table) = ground (arith, any-arp_table k table)

abbrev pub tool_devices : Bool → Bool → List DeviceInfo → List DeviceInfo → List DeviceInfo
tool_devices has_arp_scan has_nmap arp_scan nmap =
    if has_arp_scan then arp_scan else (if has_nmap then nmap else [])

-- On a valid subnet a MAC is found exactly when the tool that ran reports it or the system's ARP
-- table holds it.
pub any-scan_subnet :
    (k : Text) (has_arp_scan has_nmap : Bool) (arp_scan nmap : List DeviceInfo) (table : Dict Text)
    → any (is_mac k) (scan_subnet true has_arp_scan has_nmap arp_scan nmap table) ≡ (
        any (is_mac k) (tool_devices has_arp_scan has_nmap arp_scan nmap)
        || any (λ e. text_eq e.1 k) table)
unfolding scan_subnet
any-scan_subnet k has_arp_scan has_nmap arp_scan nmap table = rw (sym (any-arp_table k table)) (
    any-supplement k (tool_devices has_arp_scan has_nmap arp_scan nmap) (scan_arp_table_only table))

-- If the tool reports no MAC twice, neither does the supplemented scan.
pub scan_subnet-Distinct :
    (valid has_arp_scan has_nmap : Bool) (arp_scan nmap : List DeviceInfo) (table : Dict Text)
    → Distinct (λ d. d.mac_address) (tool_devices has_arp_scan has_nmap arp_scan nmap)
    → Distinct (λ d. d.mac_address) (scan_subnet valid has_arp_scan has_nmap arp_scan nmap table)
unfolding scan_subnet
scan_subnet-Distinct false has_arp_scan has_nmap arp_scan nmap table h = tt
scan_subnet-Distinct true has_arp_scan has_nmap arp_scan nmap table h =
    supplement-Distinct (tool_devices has_arp_scan has_nmap arp_scan nmap)
      (scan_arp_table_only table) h
