-- ===== src/Oui.antt =====
-- backend/services/oui_service.py: `OUIService`. The rows that `csv.DictReader` yields are an
-- argument; the file and its CSV syntax are not modelled.
pub mod Laws
use homesentinel.Prelude.{
  ℕ, Text, upper, remove_char, Bool, true, false, Option, none, some, List, [], ◌∷◌, take, length,
  Dict, get, put, has, if◌then◌else◌, codes,
}
use homesentinel.Mac.{normalize_oui_mac, strip}

pub record Oui : Type 0 where
  pub oui_database : Dict Text
  pub cache : Dict Text

-- A row without the two columns is passed over; a short row has `None` in a column.
pub data Row : Type 0 where
  foreign : Row
  cells : Option Text → Option Text → Row

abbrev pub normalize_prefix : Text → Text
normalize_prefix s = remove_char b'-' (remove_char b':' (upper (strip s)))

-- `if oui not in self.oui_database: self.oui_database[oui] = company`
unfoldable pub put_new : Text → Text → Dict Text → Dict Text
put_new k v db = if has k db then db else put k v db

-- `_load_database`: `None.strip()` raises, which ends the loading and keeps what was loaded.
unfoldable pub load_rows : List Row → Dict Text → Dict Text
unfolding put_new
load_rows [] db = db
load_rows (foreign ∷ rows) db = load_rows rows db
load_rows (cells none company ∷ rows) db = db
load_rows (cells (some oui) none ∷ rows) db = db
load_rows (cells (some oui) (some company) ∷ rows) db =
    load_rows rows (put_new (normalize_prefix oui) (strip company) db)

abbrev pub unknown_vendor : Text
unknown_vendor = codes "Unknown Vendor"

abbrev pub or_unknown : Option Text → Text
or_unknown none = unknown_vendor
or_unknown (some v) = v

-- The database's answer for a normalised address.
unfoldable pub vendor_of : Dict Text → Text → Text
vendor_of db mac = or_unknown (get (upper (take 6 mac)) db)

abbrev look_up : Oui → Text → Option Text → Text × Oui
look_up o mac (some vendor) = (vendor, o)
look_up o mac none = (
  vendor_of o.oui_database mac,
  record o { cache = put mac (vendor_of o.oui_database mac) o.cache },
)

abbrev look_up_normalized : Oui → Option Text → Text × Oui
look_up_normalized o none = (unknown_vendor, o)
look_up_normalized o (some mac) = look_up o mac (get mac o.cache)

-- `lookup_vendor`, and `lookup_vendor_cached`, which calls it
unfoldable pub lookup_vendor : Text → Oui → Text × Oui
unfolding vendor_of
lookup_vendor mac_address o = look_up_normalized o (normalize_oui_mac mac_address)

-- `get_database_size` and `get_cache_size`
unfoldable pub get_database_size : Oui → ℕ
get_database_size o = length o.oui_database

unfoldable pub get_cache_size : Oui → ℕ
get_cache_size o = length o.cache

-- `clear_cache`
unfoldable pub clear_cache : Oui → Oui
clear_cache o = record o { cache = [] }

-- `reload_database`
unfoldable pub reload_database : List Row → Oui → Oui
unfolding load_rows
reload_database rows o = record { oui_database = load_rows rows []; cache = [] }
