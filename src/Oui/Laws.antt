-- ===== src/Oui/Laws.antt =====
-- The cache of vendor names is invisible, and the first row of a prefix wins.
use homesentinel.Prelude.{
  ◌≡◌, refl, Text, text_eq, text_eq_iff, Option, none, some, List, [], ◌∷◌, Dict, get, put, get-put,
  map, ap, ◌∙◌, arith, inl, inr, Option-cases, if◌then◌else◌,
}
use mathlib.Core.Path.{ap₂}
use homesentinel.Mac.{normalize_oui_mac, strip}
use homesentinel.Oui.{
  Oui, Row, foreign, cells, normalize_prefix, put_new, load_rows, unknown_vendor, vendor_of,
  lookup_vendor, reload_database,
}

abbrev answer : Dict Text → Option Text → Text
answer db none = unknown_vendor
answer db (some m) = vendor_of db m

-- What the service promises: the answer of the database alone.
abbrev pub vendor_by_mac : Dict Text → Text → Text
vendor_by_mac db mac = answer db (normalize_oui_mac mac)

-- Every cached answer is the database's.
abbrev pub IsCached : Oui → Type 0
IsCached o = (m v : Text) → get m o.cache ≡ some v → v ≡ vendor_of o.oui_database m

put-IsCached :
    (o : Oui) (m : Text)
    → IsCached o
    → IsCached (record o { cache = put m (vendor_of o.oui_database m) o.cache })
put-IsCached o m c k v h =
    ground (arith, c k v, get-put m k (vendor_of o.oui_database m) o.cache, text_eq_iff m k)

-- With a sound cache a lookup gives the database's answer, and leaves the database as it is and
-- the cache sound.
pub lookup_vendor_lem :
    (mac : Text) (o : Oui)
    → IsCached o
    → ((lookup_vendor mac o).0 ≡ vendor_by_mac o.oui_database mac)
      × ((lookup_vendor mac o).1.oui_database ≡ o.oui_database)
      × IsCached (lookup_vendor mac o).1
lookup_vendor_lem mac o c = elim (Option-cases (normalize_oui_mac mac)) [
  | inl bad ↦ unfold lookup_vendor in rw bad (refl, refl, c)
  | inr (m, good) ↦ elim (Option-cases (get m o.cache)) [
    | inl miss ↦ unfold lookup_vendor in rw (good, miss) (refl, refl, put-IsCached o m c)
    | inr (v, hit) ↦ unfold lookup_vendor in rw (good, hit) (c m v hit, refl, c)
  ]
]

-- The answers of a service to a sequence of lookups.
unfoldable pub answers : List Text → Oui → List Text
answers [] o = []
answers (mac ∷ macs) o = (lookup_vendor mac o).0 ∷ answers macs (lookup_vendor mac o).1

answers_lem :
    (macs : List Text) (o : Oui)
    → IsCached o
    → answers macs o ≡ map (vendor_by_mac o.oui_database) macs
unfolding answers
answers_lem [] o c = refl
answers_lem (mac ∷ macs) o c =
    let (here, same, c') = lookup_vendor_lem mac o c in
    ap₂ ◌∷◌ here
      (answers_lem macs (lookup_vendor mac o).1 c' ∙ ap (λ db. map (vendor_by_mac db) macs) same)

-- After a reload, any sequence of lookups answers as the new database alone would: the cache, and
-- what it held before, makes no difference.
pub answers-reload_database :
    (rows : List Row) (macs : List Text) (o : Oui)
    → answers macs (reload_database rows o) ≡ map (vendor_by_mac (load_rows rows [])) macs
unfolding reload_database get
answers-reload_database rows macs o = answers_lem macs _ (λ m v h. cc)

-- The company of the first row with the prefix, before a row that ends the loading.
abbrev pub first_company : Text → List Row → Option Text
first_company k [] = none
first_company k (foreign ∷ rows) = first_company k rows
first_company k (cells none company ∷ rows) = none
first_company k (cells (some oui) none ∷ rows) = none
first_company k (cells (some oui) (some company) ∷ rows) =
    let rest = first_company k rows in
    if text_eq (normalize_prefix oui) k then some (strip company) else rest

abbrev first_of : Option Text → Option Text → Option Text
first_of none b = b
first_of (some a) b = some a

load_rows_from :
    (k : Text) (rows : List Row) (db : Dict Text)
    → get k (load_rows rows db) ≡ first_of (get k db) (first_company k rows)
unfolding load_rows
load_rows_from k [] db = ground arith
load_rows_from k (foreign ∷ rows) db = load_rows_from k rows db
load_rows_from k (cells none company ∷ rows) db = ground arith
load_rows_from k (cells (some oui) none ∷ rows) db = ground arith
load_rows_from k (cells (some oui) (some company) ∷ rows) db = ground (
  arith,
  load_rows_from k rows (put_new (normalize_prefix oui) (strip company) db),
  get-put (normalize_prefix oui) k (strip company) db,
  text_eq_iff (normalize_prefix oui) k,
)

-- Loading keeps the first row of each prefix, and stops at the first row with an absent cell.
pub get-load_rows : (k : Text) (rows : List Row) → get k (load_rows rows []) ≡ first_company k rows
unfolding get
get-load_rows k rows = load_rows_from k rows []
