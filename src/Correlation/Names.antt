-- ===== src/Correlation/Names.antt =====
-- The synchronisation of names counts every link once, and keeps the database sound.
use homesentinel.Prelude.{
  ℕ, suc, ◌+◌, ◌≡◌, Text, text_eq, is_empty, Bool, not, ◌&&◌, ◌||◌, Option, none, some, List, [],
  ◌∷◌, length, arith, Outcome, ok, raised, Bool-cases, inl, inr,
}
use homesentinel.Db.Schema.{Store, Device}
use homesentinel.Db.Devices.{no_metadata}
use homesentinel.Db.Integrity.{IsSound}
use homesentinel.Db.Integrity.Devices.{update_device_metadata-IsSound}
use homesentinel.Mac.{or_blank, strip}
use homesentinel.Correlation.{
  Link, Synced, count_update, rename, sync_link, sync_links, none_synced,
  sync_network_friendly_names_from_alexa,
}

abbrev total : Synced → ℕ
total r = r.updated + r.skipped_existing + r.skipped_missing + r.failed

total-count_update :
    (o : Outcome (Option Device)) (r : Synced) → total (count_update o r) ≡ suc (total r)
total-count_update (ok (some d)) r = omega arith
total-count_update (ok none) r = omega arith
total-count_update (raised e) r = omega arith

sync_link_lem :
    (overwrite : Bool) (now : Text) (l : Link) (r : Synced) (s : Store)
    → IsSound s
    → (total (sync_link overwrite now l (r, s)).0 ≡ suc (total r))
      × IsSound (sync_link overwrite now l (r, s)).1
unfolding sync_link
sync_link_lem overwrite now l r s v =
    let id = strip (or_blank l.network_device_id) in
    let alexa_name = strip (or_blank l.alexa_name) in
    let network_name = strip (or_blank l.network_name) in
    elim (Bool-cases (is_empty id || is_empty alexa_name)) [
      | inl missing ↦ rw missing (omega arith, v)
      | inr set ↦
          elim (Bool-cases
            ((not overwrite && not (is_empty network_name)) || text_eq network_name alexa_name)) [
              | inl existing ↦ rw (set, existing) (omega arith, v)
              | inr new ↦
                  rw (set, new)
                    (
                      total-count_update (rename id alexa_name now s).0 r,
                      update_device_metadata-IsSound id
                          (record no_metadata { friendly_name = some alexa_name }) now s v,
                    )
            ]
    ]

sync_links_lem :
    (overwrite : Bool) (now : Text) (links : List Link) (r : Synced) (s : Store)
    → IsSound s
    → (total (sync_links overwrite now links (r, s)).0 ≡ total r + length links)
      × IsSound (sync_links overwrite now links (r, s)).1
unfolding sync_links
sync_links_lem overwrite now [] r s v = (omega arith, v)
sync_links_lem overwrite now (l ∷ links) r s v =
    let (one, v') = sync_link_lem overwrite now l r s v in
    let (rest, v'') =
      sync_links_lem overwrite now links (sync_link overwrite now l (r, s)).0
        (sync_link overwrite now l (r, s)).1 v' in
    (omega (arith, one, rest), v'')

-- On a sound database the counters account for every link, and the database stays sound.
pub sync_network_friendly_names_from_alexa_counts :
    (overwrite : Bool) (now : Text) (links : List Link) (s : Store)
    → IsSound s
    → let (r, s') = sync_network_friendly_names_from_alexa overwrite now links s in
      (r.updated + r.skipped_existing + r.skipped_missing + r.failed ≡ length links) × IsSound s'
unfolding sync_network_friendly_names_from_alexa
sync_network_friendly_names_from_alexa_counts overwrite now links s v =
    let (counted, v') = sync_links_lem overwrite now links none_synced s v in
    (omega (arith, counted), v')
