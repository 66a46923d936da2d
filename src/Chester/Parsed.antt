-- ===== src/Chester/Parsed.antt =====
-- What the parsers let through: addresses in the form that the rest of the backend uses.
use homesentinel.Prelude.{
  ◌≡◌, Text, is_empty, lower, Bool, true, not, ◌&&◌, Option, none, some, List, [], ◌∷◌, All,
  All-map, arith, codes, Dict, Bool-cases, inl, inr,
}
use homesentinel.Chester.{Lease, Reservation}
use homesentinel.Chester.Forms.{has_form, is_mac-has_form, IsDotted, is_ipv4-IsDotted}
use homesentinel.Chester.Parsers.{
  is_mac, is_ipv4, lease_of, parse_words, add_lease, parse_lines, parse_dhcp_leases, split_words,
  lines_from, field_or_blank, reservations_of, collect_sections, UciField, parse_uci_hosts,
  all_digits,
}

abbrev IsLease : Lease → Type 0
IsLease l = (is_mac l.mac ≡ true) × (is_ipv4 l.ip ≡ true)

abbrev IsSomeLease : Option Lease → Type 0
IsSomeLease none = Unit
IsSomeLease (some l) = IsLease l

abbrev IsReservation : Reservation → Type 0
IsReservation r = (is_mac r.mac ≡ true) × (is_ipv4 r.ip ≡ true)

and_right : (a b c : Bool) → (a && (b && c)) ≡ true → (b ≡ true) × (c ≡ true)
and_right a b c h = ground (arith, h)

lease_of-IsLease : (expiry mac ip name : Text) → IsSomeLease (lease_of expiry mac ip name)
lease_of-IsLease expiry mac ip name =
    elim (Bool-cases
      ((not (is_empty expiry) && all_digits expiry) && (is_mac (lower mac) && is_ipv4 ip))) [
        | inl e ↦ rw e (
            and_right (not (is_empty expiry) && all_digits expiry) (is_mac (lower mac)) (is_ipv4 ip)
              e)
        | inr e ↦ rw e tt
      ]

parse_words-IsLease : (ws : List Text) → IsSomeLease (parse_words ws)
unfolding parse_words
parse_words-IsLease [] = tt
parse_words-IsLease (a ∷ []) = tt
parse_words-IsLease (a ∷ b ∷ []) = tt
parse_words-IsLease (a ∷ b ∷ c ∷ []) = tt
parse_words-IsLease (a ∷ b ∷ c ∷ d ∷ more) = lease_of-IsLease a b c d

add-IsLease :
    (o : Option Lease) (ls : List Lease)
    → IsSomeLease o
    → All IsLease ls
    → All IsLease (add_lease o ls)
add-IsLease none ls h k = k
add-IsLease (some l) ls h k = (h, k)

parse_lines-IsLease : (lines : List Text) → All IsLease (parse_lines lines)
unfolding parse_lines
parse_lines-IsLease [] = tt
parse_lines-IsLease (line ∷ lines) =
    add-IsLease (parse_words (split_words line)) (parse_lines lines)
      (parse_words-IsLease (split_words line)) (parse_lines-IsLease lines)

reservations_of-IsReservation :
    (sections : Dict (Dict Text)) → All IsReservation (reservations_of sections)
unfolding reservations_of
reservations_of-IsReservation [] = tt
reservations_of-IsReservation ((k, fields) ∷ rest) =
    elim (Bool-cases (
      is_mac (lower (field_or_blank (codes "mac") fields))
      && is_ipv4 (field_or_blank (codes "ip") fields))) [
        | inl e ↦ rw e (and_right true _ _ e, reservations_of-IsReservation rest)
        | inr e ↦ rw e (reservations_of-IsReservation rest)
      ]

-- A MAC address of six pairs of lower-case hexadecimal digits with colons between, and an IPv4
-- address of four numbers of one to three digits with dots between
abbrev pub IsAddressed : Text → Text → Type 0
IsAddressed mac ip = (has_form (codes "hh:hh:hh:hh:hh:hh") mac ≡ true) × IsDotted ip

is_addressed : (mac ip : Text) → (is_mac mac ≡ true) × (is_ipv4 ip ≡ true) → IsAddressed mac ip
is_addressed mac ip h = (is_mac-has_form mac h.0, is_ipv4-IsDotted ip h.1)

-- Whatever the lease file and the fields of the reservations hold, everything that the parsers give
-- has a MAC address of six pairs of lower-case hexadecimal digits with colons between, and an IPv4
-- address of four numbers, each of one to three digits, with dots between.
pub parsers_well_formed :
    (file : Text) (fields : List UciField)
    → All (λ l. IsAddressed l.mac l.ip) (parse_dhcp_leases file)
      × All (λ r. IsAddressed r.mac r.ip) (parse_uci_hosts fields)
unfolding parse_dhcp_leases parse_uci_hosts
parsers_well_formed file fields = (
  All-map IsLease _ (parse_lines (lines_from [] file)) (λ l. is_addressed l.mac l.ip)
      (parse_lines-IsLease (lines_from [] file)),
  All-map IsReservation _ (reservations_of (collect_sections fields []))
      (λ r. is_addressed r.mac r.ip) (reservations_of-IsReservation (collect_sections fields [])),
)
