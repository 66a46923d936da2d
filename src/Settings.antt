-- ===== src/Settings.antt =====
-- backend/utils.py: `get_setting`, `set_setting`, `store_encrypted_setting` and
-- `load_encrypted_setting`, on the table app_settings. The Fernet cipher and JSON are parameters;
-- the errors of SQLite are not modelled.
use homesentinel.Prelude.{
  ◌≡◌, Text, text_eq, is_empty, false, Option, none, some, Dict, get, put, get-put, if◌then◌else◌,
  Outcome, ok, raised, and_then, arith,
}

pub record Setting : Type 0 where
  pub value : Text
  pub updated_at : Text

abbrev pub value_of : Option Setting → Option Text
value_of none = none
value_of (some row) = some row.value

-- `get_setting`
unfoldable pub get_setting : Text → Dict Setting → Option Text
get_setting key settings = value_of (get key settings)

-- `set_setting`, at a CURRENT_TIMESTAMP
unfoldable pub set_setting : Text → Text → Text → Dict Setting → Dict Setting
set_setting now key value settings = put key (record { value = value; updated_at = now }) settings

module _ {V : Type 0} (dumps : V → Text) (loads : Text → Outcome V) (encrypt : Text → Text)
    (decrypt : Text → Outcome Text) where
  -- `store_encrypted_setting`
  unfoldable pub store_encrypted_setting : Text → Text → V → Dict Setting → Dict Setting
  unfolding set_setting
  store_encrypted_setting now key value settings =
      set_setting now key (encrypt (dumps value)) settings

  abbrev pub or_none : Outcome V → Option V
  or_none (ok v) = some v
  or_none (raised e) = none

  -- What was stored before encryption is plain JSON.
  abbrev pub or_plain : Text → Outcome V → Option V
  or_plain raw (ok v) = some v
  or_plain raw (raised e) = or_none (loads raw)

  abbrev pub load_raw : Option Text → Option V
  load_raw none = none
  load_raw (some raw) = if is_empty raw then none else or_plain raw (and_then (decrypt raw) loads)

  -- `load_encrypted_setting`
  unfoldable pub load_encrypted_setting : Text → Dict Setting → Option V
  unfolding get_setting
  load_encrypted_setting key settings = load_raw (get_setting key settings)

get_setting-set_setting :
    (now key j value : Text) (settings : Dict Setting)
    → get_setting j (set_setting now key value settings)
      ≡ (if text_eq key j then some value else get_setting j settings)
unfolding get_setting set_setting
get_setting-set_setting now key j value settings =
    ground (arith, get-put key j (record { value = value; updated_at = now }) settings)

module _ {V : Type 0} (dumps : V → Text) (loads : Text → Outcome V) (encrypt : Text → Text)
    (decrypt : Text → Outcome Text) where
  -- With a cipher that decrypts what it encrypted, never to the empty text, and JSON that reads what
  -- it wrote: after storing a value under a key, loading the key gives the value, and loading
  -- another key gives what it gave before.
  pub load-store_encrypted_setting :
      ((s : Text) → decrypt (encrypt s) ≡ ok s)
      → ((s : Text) → is_empty (encrypt s) ≡ false)
      → ((v : V) → loads (dumps v) ≡ ok v)
      → (now key j : Text) (v : V) (settings : Dict Setting)
      → load_encrypted_setting dumps loads encrypt decrypt j
          (store_encrypted_setting dumps loads encrypt decrypt now key v settings)
        ≡ (if text_eq key j
            then some v
            else load_encrypted_setting dumps loads encrypt decrypt j settings)
  unfolding load_encrypted_setting store_encrypted_setting
  load-store_encrypted_setting undo full parse now key j v settings =
      rw (get_setting-set_setting now key j (encrypt (dumps v)) settings)
        (ground (arith, undo (dumps v), full (dumps v), parse v))
