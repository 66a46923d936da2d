-- ===== src/Mac.antt =====
-- The five normalisations of a MAC address: `normalize_mac` of backend/utils.py,
-- `CorrelationService.normalize_mac_address` of backend/services/correlation_service.py,
-- `DHCPParser.normalize_mac` and `NetworkDeviceService._normalize_node_mac` of
-- backend/services/device_scanner.py, and `OUIService._normalize_mac` of
-- backend/services/oui_service.py. Texts are lists of ASCII code points.
pub mod Laws
use homesentinel.Prelude.{
  ℕ, Text, lower, remove_char, is_hex_digit, is_empty, length, leb, ◌==◌, if◌then◌else◌, Bool, true,
  false, not, ◌&&◌, ◌||◌, Option, none, some, List, [], ◌∷◌, Outcome, ok, raised, value_error,
  select,
}

-- `":".join(c[i:i+2] for i in range(0, 12, 2))`
unfoldable pub join_octets : Text → Text
join_octets [] = []
join_octets (a ∷ []) = a ∷ []
join_octets (a ∷ b ∷ []) = a ∷ b ∷ []
join_octets (a ∷ b ∷ c ∷ s) = a ∷ b ∷ b':' ∷ join_octets (c ∷ s)

-- `mac.lower().replace("-", "").replace(":", "").replace(" ", "")`
abbrev pub clean : Text → Text
clean s = remove_char b' ' (remove_char b':' (remove_char b'-' (lower s)))

unfoldable pub all_hex : Text → Bool
unfolding is_hex_digit
all_hex [] = true
all_hex (c ∷ s) = is_hex_digit c && all_hex s

-- correlation_service.py
unfoldable pub normalize_mac_address : Text → Text
normalize_mac_address mac =
    if is_empty mac
    then []
    else (if length (clean mac) == 12 then join_octets (clean mac) else lower mac)

-- device_scanner.py, `DHCPParser.normalize_mac`
unfoldable pub normalize_lease_mac : Text → Text
unfolding all_hex
normalize_lease_mac mac =
    if is_empty mac
    then []
    else (if not (length (clean mac) == 12) || not (all_hex (clean mac))
        then []
        else join_octets (clean mac))

abbrev pub or_blank : Option Text → Text
or_blank none = []
or_blank (some s) = s

-- device_scanner.py, `_normalize_node_mac`
unfoldable pub normalize_node_mac : Option Text → Option Text
normalize_node_mac raw =
    if not (length (clean (or_blank raw)) == 12)
    then none
    else some (join_octets (clean (or_blank raw)))

-- utils.py; the pattern `[^0-9a-fA-F]` is removed.
unfoldable pub normalize_mac : Text → Outcome Text
unfolding is_hex_digit select
normalize_mac mac =
    if is_empty mac
    then raised value_error
    else (if not (length (select is_hex_digit mac) == 12)
        then raised value_error
        else ok (join_octets (lower (select is_hex_digit mac))))

-- The digits that `int(s, 16)` accepts: single underscores between hex digits. `gap` says that no
-- digit stands just before.
unfoldable pub int16_digits : Bool → Text → Bool
unfolding is_hex_digit
int16_digits gap [] = not gap
int16_digits gap (c ∷ s) =
    let after_gap = int16_digits true s in
    let after_digit = int16_digits false s in
    if c == b'_' then not gap && after_gap else is_hex_digit c && after_digit

abbrev pub skip_underscore : Text → Text
skip_underscore [] = []
skip_underscore (c ∷ s) = if c == b'_' then s else c ∷ s

abbrev pub skip_prefix : Text → Text
skip_prefix [] = []
skip_prefix (a ∷ []) = a ∷ []
skip_prefix (a ∷ b ∷ s) =
    if a == b'0' && (b == b'x' || b == b'X') then skip_underscore s else a ∷ b ∷ s

abbrev pub skip_sign : Text → Text
skip_sign [] = []
skip_sign (c ∷ s) = if c == b'+' || c == b'-' then s else c ∷ s

unfoldable pub is_space : ℕ → Bool
is_space c = c == 32 || ((leb 9 c && leb c 13) || (leb 28 c && leb c 31))

unfoldable pub strip_left : Text → Text
unfolding is_space
strip_left [] = []
strip_left (c ∷ s) = let rest = strip_left s in if is_space c then rest else c ∷ s

unfoldable pub strip_right : Text → Text
unfolding is_space
strip_right [] = []
strip_right (c ∷ s) =
    let rest = strip_right s in if is_space c && is_empty rest then [] else c ∷ rest

-- `str.strip`
abbrev pub strip : Text → Text
strip s = strip_right (strip_left s)

-- `int(s, 16)` does not raise.
unfoldable pub is_int16 : Text → Bool
unfolding int16_digits strip_left strip_right
is_int16 s = int16_digits true (skip_prefix (skip_sign (strip s)))

-- oui_service.py
unfoldable pub normalize_oui_mac : Text → Option Text
unfolding is_int16
normalize_oui_mac mac =
    let normalized = remove_char b'.' (remove_char b'-' (remove_char b':' mac)) in
    if is_empty mac
    then none
    else (if not (length normalized == 12)
        then none
        else (if is_int16 normalized then some normalized else none))
