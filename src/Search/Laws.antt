-- ===== src/Search/Laws.antt =====
-- What a search finds, and how the two updates of an address agree.
use homesentinel.Prelude.{
  ◌≡◌, refl, ◌∙◌, Text, is_empty, lower, starts_with, contains, Bool, true, false, not, ◌&&◌, ◌||◌,
  ◌==◌, Option, none, some, List, [], ◌∷◌, ◌++◌, map, any, select, find, codes, arith,
  any-order_desc, any-select, any-cong, Bool-cases, inl, inr,
}
use homesentinel.Mac.{strip}
use homesentinel.Db.Schema.{Device, Store, has_id}
use homesentinel.Db.Devices.{moved_to, get_by_id, stays_at, update_current_ip}
use homesentinel.Search.{
  any_suffix, like, column_like, is_hit, passes, Enriched, enrich_device, search_rows, search,
  moved, is_move, update_ip_history,
}

-- A query without the wildcards of LIKE
unfoldable pub is_plain : Text → Bool
is_plain [] = true
is_plain (c ∷ q) = not (c == b'%') && (not (c == b'_') && is_plain q)

abbrev column_contains : Text → Option Text → Bool
column_contains q none = false
column_contains q (some s) = contains q (lower s)

-- The address begins with the query, or another of the searched columns contains it.
unfoldable pub is_match : Text → Device → Bool
unfolding contains
is_match q d =
    starts_with (lower d.mac_address) q
    || (column_contains q d.current_ip
        || (column_contains q d.hostname
            || (column_contains q d.friendly_name || column_contains q d.vendor_name)))

any_suffix_empty : (s : Text) → any_suffix is_empty s ≡ true
unfolding any_suffix
any_suffix_empty [] = refl
any_suffix_empty (c ∷ s) = any_suffix_empty s

like_percent : (s : Text) → like (b'%' ∷ []) s ≡ true
unfolding like
like_percent s = any_suffix_empty s

like_prefix : (q s : Text) → is_plain q ≡ true → like (q ++ codes "%") s ≡ starts_with s q
unfolding like starts_with is_plain
like_prefix [] s h = any_suffix_empty s
like_prefix (c ∷ q) [] h = ground (arith, h)
like_prefix (c ∷ q) (d ∷ s) h = ground (arith, h, like_prefix q s)

suffix_contains :
    (p : Text → Bool) (q s : Text)
    → ((t : Text) → p t ≡ starts_with t q)
    → any_suffix p s ≡ contains q s
unfolding any_suffix contains
suffix_contains p q [] h = h []
suffix_contains p q (c ∷ s) h = ground (arith, h (c ∷ s), suffix_contains p q s h)

like-contains :
    (q s : Text) → is_plain q ≡ true → like (codes "%" ++ (q ++ codes "%")) s ≡ contains q s
unfolding like
like-contains q s h = suffix_contains (like (q ++ codes "%")) q s (λ t. like_prefix q t h)

column_like-contains :
    (q : Text) (o : Option Text)
    → is_plain q ≡ true
    → column_like (codes "%" ++ (q ++ codes "%")) o ≡ column_contains q o
unfolding like
column_like-contains q none h = refl
column_like-contains q (some s) h = like-contains q (lower s) h

is_hit-is_match : (q : Text) (d : Device) → is_plain q ≡ true → is_hit q d ≡ is_match q d
unfolding is_hit is_match
is_hit-is_match q d h = ground (
  arith,
  like_prefix q (lower d.mac_address) h,
  column_like-contains q d.current_ip h,
  column_like-contains q d.hostname h,
  column_like-contains q d.friendly_name h,
  column_like-contains q d.vendor_name h,
)

any-map :
    {A B : Type 0} (p : B → Bool) (f : A → B) (xs : List A)
    → any p (map f xs) ≡ any (λ x. p (f x)) xs
unfolding any
any-map p f [] = refl
any-map p f (x ∷ xs) = ground (arith, any-map p f xs)

-- A query that is not blank and has no % and no _ finds, of the devices with the status asked for,
-- exactly those whose address begins with it or one of whose other columns contains it, in lower
-- case and without the blanks around it.
pub search_finds :
    (query : Text) (status_filter : Option Text) (s : Store) (p : Enriched → Bool)
    → is_empty (strip query) ≡ false
    → is_plain (strip (lower query)) ≡ true
    → any p (search query status_filter s)
      ≡ any
          (λ d. (is_match (strip (lower query)) d && passes status_filter d) && p (enrich_device d))
          s.devices
unfolding search
search_finds query status_filter s p h k = rw h (
    any-map p enrich_device (search_rows (strip (lower query)) status_filter s)
    ∙ any-order_desc (λ d. p (enrich_device d)) (λ d. d.last_seen)
        (select (λ d. is_hit (strip (lower query)) d && passes status_filter d) s.devices)
    ∙ any-select (λ d. p (enrich_device d))
        (λ d. is_hit (strip (lower query)) d && passes status_filter d) s.devices
    ∙ any-cong
        (λ d. (is_hit (strip (lower query)) d && passes status_filter d) && p (enrich_device d))
        (λ d. (is_match (strip (lower query)) d && passes status_filter d) && p (enrich_device d))
        s.devices (λ d. ground (arith, is_hit-is_match (strip (lower query)) d k)))

stays-is_move :
    (o : Option Device) (new_ip : Text)
    → is_empty new_ip ≡ false
    → stays_at o new_ip ≡ not (is_move o new_ip)
stays-is_move none new_ip h = refl
stays-is_move (some d) new_ip h = ground (arith, h)

-- The search service and the repository move a device to a new, not empty address alike: the same
-- history and the same columns, where the moment has one text; and the service reports a move
-- exactly when there is such a device with another address.
pub update_ip_history-update_current_ip :
    (device_id new_ip now : Text) (s : Store)
    → is_empty new_ip ≡ false
    → ((update_ip_history device_id new_ip now now s).1
        ≡ (update_current_ip device_id new_ip now s).1)
      × ((update_ip_history device_id new_ip now now s).0
          ≡ is_move (find (has_id device_id) s.devices) new_ip)
unfolding update_ip_history update_current_ip get_by_id moved moved_to
update_ip_history-update_current_ip device_id new_ip now s h =
    elim (Bool-cases (is_move (find (has_id device_id) s.devices) new_ip)) [
      | inl e ↦ rw (stays-is_move (find (has_id device_id) s.devices) new_ip h, e) (refl, refl)
      | inr e ↦ rw (stays-is_move (find (has_id device_id) s.devices) new_ip h, e) (refl, refl)
    ]
