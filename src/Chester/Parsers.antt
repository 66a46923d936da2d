-- ===== src/Chester/Parsers.antt =====
-- `parse_dhcp_leases`, and `parse_uci_hosts` on the fields that `_UCI_RE` finds in the lines. Texts
-- are ASCII, and lines end with a line feed.
use homesentinel.Prelude.{
  ℕ, zero, suc, ◌+◌, ◌*◌, ◌-◌, Text, text_eq, is_empty, lower, Bool, true, false, not, ◌&&◌, ◌||◌,
  ◌==◌, leb, Option, none, some, List, [], ◌∷◌, ◌++◌, Dict, get, put, if◌then◌else◌, codes,
}
use homesentinel.Mac.{is_space}
use homesentinel.Chester.{Lease, Reservation}

unfoldable pub is_digit : ℕ → Bool
is_digit c = leb b'0' c && leb c b'9'

abbrev pub is_lower_hex : ℕ → Bool
unfolding is_digit
is_lower_hex c = is_digit c || (leb b'a' c && leb c b'f')

-- `(:[0-9a-f]{2}){n}$`
unfoldable pub is_octets : ℕ → Text → Bool
unfolding is_digit
is_octets zero s = is_empty s
is_octets (suc n) (c ∷ x ∷ y ∷ s) =
    c == b':' && (is_lower_hex x && (is_lower_hex y && is_octets n s))
is_octets (suc n) _ = false

-- `_MAC_RE`
unfoldable pub is_mac : Text → Bool
unfolding is_octets
is_mac s = is_octets 6 (b':' ∷ s)

-- The rest after at most n digits, of which there is one, and how a part of `_IPV4_RE` goes on
unfoldable pub after_digits : ℕ → Text → Text
unfolding is_digit
after_digits zero s = s
after_digits (suc n) [] = []
after_digits (suc n) (c ∷ s) = let rest = after_digits n s in if is_digit c then rest else c ∷ s

abbrev pub starts_digit : Text → Bool
starts_digit [] = false
starts_digit (c ∷ s) = is_digit c

-- `(\.\d{1,3}){n}$`: as a part ends at a dot or at the end, it takes all its digits.
unfoldable pub is_parts : ℕ → Text → Bool
unfolding after_digits is_digit
is_parts zero s = is_empty s
is_parts (suc n) [] = false
is_parts (suc n) (c ∷ s) = c == b'.' && (starts_digit s && is_parts n (after_digits 3 s))

-- `_IPV4_RE`
unfoldable pub is_ipv4 : Text → Bool
unfolding is_parts
is_ipv4 s = is_parts 4 (b'.' ∷ s)

-- `str.split()`
abbrev pub add_word : Text → List Text → List Text
add_word [] words = words
add_word (c ∷ w) words = (c ∷ w) ∷ words

unfoldable pub split_from : Text → Text → List Text
split_from word [] = add_word word []
split_from word (c ∷ s) =
    let others = split_from [] s in
    let longer = split_from (word ++ (c ∷ [])) s in
    if is_space c then add_word word others else longer

abbrev pub split_words : Text → List Text
split_words s = split_from [] s

-- `str.splitlines()`
unfoldable pub lines_from : Text → Text → List Text
lines_from line [] = add_word line []
lines_from line (c ∷ s) =
    let others = lines_from [] s in
    let longer = lines_from (line ++ (c ∷ [])) s in if c == 10 then line ∷ others else longer

-- `str.isdigit()` and `int`
unfoldable pub all_digits : Text → Bool
unfolding is_digit
all_digits [] = true
all_digits (c ∷ s) = is_digit c && all_digits s

unfoldable pub number_from : ℕ → Text → ℕ
number_from n [] = n
number_from n (c ∷ s) = number_from (n * 10 + (c - 48)) s

abbrev pub hostname_of : Text → Option Text
hostname_of name = if text_eq name (codes "*") then none else some name

abbrev pub lease_of : Text → Text → Text → Text → Option Lease
lease_of expiry mac ip name =
    if (not (is_empty expiry) && all_digits expiry) && (is_mac (lower mac) && is_ipv4 ip)
    then some (record {
      mac = lower mac;
      ip = ip;
      hostname = hostname_of name;
      expiry = number_from 0 expiry;
    })
    else none

-- A line of four words or more
unfoldable pub parse_words : List Text → Option Lease
unfolding is_mac is_ipv4 all_digits number_from
parse_words (expiry ∷ mac ∷ ip ∷ name ∷ more) = lease_of expiry mac ip name
parse_words _ = none

abbrev pub add_lease : Option Lease → List Lease → List Lease
add_lease none leases = leases
add_lease (some l) leases = l ∷ leases

unfoldable pub parse_lines : List Text → List Lease
unfolding parse_words split_from
parse_lines [] = []
parse_lines (line ∷ lines) = add_lease (parse_words (split_words line)) (parse_lines lines)

-- `parse_dhcp_leases`
unfoldable pub parse_dhcp_leases : Text → List Lease
unfolding parse_lines lines_from
parse_dhcp_leases s = parse_lines (lines_from [] s)

-- A match of `_UCI_RE`: the host's number, the field's name and its value
pub record UciField : Type 0 where
  pub section : Text
  pub key : Text
  pub value : Text

abbrev pub fields_of : Option (Dict Text) → Dict Text
fields_of none = []
fields_of (some fields) = fields

-- `sections.setdefault(section, {})[key] = value`
abbrev pub replace_section : Text → Dict Text → Dict (Dict Text) → Dict (Dict Text)
replace_section k fields [] = (k, fields) ∷ []
replace_section k fields ((j, old) ∷ rest) =
    if text_eq j k then (j, fields) ∷ rest else (j, old) ∷ replace_section k fields rest

unfoldable pub collect_sections : List UciField → Dict (Dict Text) → Dict (Dict Text)
collect_sections [] sections = sections
collect_sections (f ∷ fs) sections =
    collect_sections fs
      (replace_section f.section (put f.key f.value (fields_of (get f.section sections))) sections)

-- `fields.get(key, "")`
abbrev pub field_or_blank : Text → Dict Text → Text
field_or_blank k fields = elim (get k fields) [ none ↦ [] | some v ↦ v ]

unfoldable pub reservations_of : Dict (Dict Text) → List Reservation
unfolding is_mac is_ipv4
reservations_of [] = []
reservations_of ((k, fields) ∷ rest) =
    let others = reservations_of rest in
    if is_mac (lower (field_or_blank (codes "mac") fields))
      && is_ipv4 (field_or_blank (codes "ip") fields)
    then record {
      mac = lower (field_or_blank (codes "mac") fields);
      ip = field_or_blank (codes "ip") fields;
      name = field_or_blank (codes "name") fields;
    }
      ∷ others
    else others

-- `parse_uci_hosts`, after the matching of the lines
unfoldable pub parse_uci_hosts : List UciField → List Reservation
unfolding collect_sections reservations_of
parse_uci_hosts fields = reservations_of (collect_sections fields [])
