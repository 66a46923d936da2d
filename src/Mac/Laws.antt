-- ===== src/Mac/Laws.antt =====
-- The normalisations against one another.
use homesentinel.Prelude.{
  ℕ, suc, ◌≡◌, refl, ap, sym, ◌∙◌, Text, lower, lower_char, remove_char, is_hex_digit, is_empty,
  length, true, false, some, [], ◌∷◌, ok, select, arith, ◌≢◌,
}
use homesentinel.Mac.{
  join_octets, clean, all_hex, normalize_mac_address, normalize_lease_mac, normalize_node_mac,
  normalize_mac,
}

-- No capital letter and no separator.
abbrev IsClean : Text → Type 0
IsClean [] = Unit
IsClean (c ∷ s) = ((lower_char c ≡ c) × (c ≢ b'-') × (c ≢ b':') × (c ≢ b' ')) × IsClean s

lower_char_idem : (c : ℕ) → lower_char (lower_char c) ≡ lower_char c
unfolding lower_char
lower_char_idem c = ground arith

lower_idem : (s : Text) → lower (lower s) ≡ lower s
lower_idem [] = refl
lower_idem (c ∷ s) = ground (arith, lower_char_idem c, lower_idem s)

clean-IsClean : (s : Text) → IsClean (clean s)
unfolding remove_char
clean-IsClean [] = tt
clean-IsClean (c ∷ s) = ground (arith, lower_char_idem c, clean-IsClean s)

clean_of_IsClean : (s : Text) → IsClean s → clean s ≡ s
unfolding remove_char
clean_of_IsClean [] h = refl
clean_of_IsClean (c ∷ s) h = ground (arith, clean_of_IsClean s h.1)

lower_colon : lower_char b':' ≡ b':'
unfolding lower_char
lower_colon = refl

clean_letter :
    (c : ℕ) (s : Text)
    → (lower_char c ≡ c) × (c ≢ b'-') × (c ≢ b':') × (c ≢ b' ')
    → clean (c ∷ s) ≡ c ∷ clean s
unfolding remove_char
clean_letter c s h = ground arith

clean_colon : (s : Text) → clean (b':' ∷ s) ≡ clean s
unfolding remove_char lower_char
clean_colon s = refl

clean-join_octets : (s : Text) → IsClean s → clean (join_octets s) ≡ s
unfolding join_octets
clean-join_octets [] h = clean_of_IsClean [] h
clean-join_octets (a ∷ []) h = clean_of_IsClean (a ∷ []) h
clean-join_octets (a ∷ b ∷ []) h = clean_of_IsClean (a ∷ b ∷ []) h
clean-join_octets (a ∷ b ∷ c ∷ s) (ha, (hb, h)) =
    clean_letter a (b ∷ b':' ∷ join_octets (c ∷ s)) ha
    ∙ ap (◌∷◌ a) (
        clean_letter b (b':' ∷ join_octets (c ∷ s)) hb
        ∙ ap (◌∷◌ b) (clean_colon (join_octets (c ∷ s)) ∙ clean-join_octets (c ∷ s) h))

clean-lower : (s : Text) → clean (lower s) ≡ clean s
clean-lower s = rw (lower_idem s)

join_octets-ne-nil : (s : Text) → length s ≡ 12 → is_empty (join_octets s) ≡ false
unfolding join_octets
join_octets-ne-nil [] h = absurd (omega arith)
join_octets-ne-nil (a ∷ []) h = absurd (omega arith)
join_octets-ne-nil (a ∷ b ∷ []) h = refl
join_octets-ne-nil (a ∷ b ∷ c ∷ s) h = refl

is_empty-lower : (s : Text) → is_empty (lower s) ≡ is_empty s
is_empty-lower [] = refl
is_empty-lower (c ∷ s) = refl

-- Normalising twice is normalising once, for any text at all.
pub normalize_mac_address_idem :
    (s : Text) → normalize_mac_address (normalize_mac_address s) ≡ normalize_mac_address s
unfolding normalize_mac_address
normalize_mac_address_idem s = ground (
  arith,
  clean-join_octets (clean s) (clean-IsClean s),
  join_octets-ne-nil (clean s),
  is_empty-lower s,
  lower_idem s,
  clean-lower s,
)

canonical :
    (s : Text)
    → is_empty s ≡ false
    → length (clean s) ≡ 12
    → normalize_mac_address s ≡ join_octets (clean s)
unfolding normalize_mac_address
canonical s h k = ground arith

join_octets_injective :
    (s t : Text) → join_octets (clean s) ≡ join_octets (clean t) → clean s ≡ clean t
join_octets_injective s t e =
    sym (clean-join_octets (clean s) (clean-IsClean s))
    ∙ ap clean e
    ∙ clean-join_octets (clean t) (clean-IsClean t)

canonical_eq_iff :
    (s t : Text)
    → is_empty s ≡ false
    → is_empty t ≡ false
    → length (clean s) ≡ 12
    → length (clean t) ≡ 12
    → (normalize_mac_address s ≡ normalize_mac_address t → clean s ≡ clean t)
      × (clean s ≡ clean t → normalize_mac_address s ≡ normalize_mac_address t)
canonical_eq_iff s t es et hs ht =
    rw (canonical s es hs, canonical t et ht) (join_octets_injective s t, λ e. ap join_octets e)

-- Two texts of twelve characters, separators aside, are normalised to the same address exactly when
-- they have the same twelve characters, however they are separated and capitalised.
pub normalize_mac_address_eq_iff :
    (s t : Text)
    → length (clean s) ≡ 12
    → length (clean t) ≡ 12
    → (normalize_mac_address s ≡ normalize_mac_address t → clean s ≡ clean t)
      × (clean s ≡ clean t → normalize_mac_address s ≡ normalize_mac_address t)
unfolding normalize_mac_address remove_char
normalize_mac_address_eq_iff [] t hs ht = absurd (omega arith)
normalize_mac_address_eq_iff (c ∷ s) [] hs ht = absurd (omega arith)
normalize_mac_address_eq_iff (c ∷ s) (d ∷ t) hs ht =
    canonical_eq_iff (c ∷ s) (d ∷ t) refl refl hs ht

hex_only-lower : (s : Text) → all_hex (clean s) ≡ true → lower (select is_hex_digit s) ≡ clean s
unfolding remove_char all_hex select is_hex_digit lower_char
hex_only-lower [] h = refl
hex_only-lower (c ∷ s) h = ground (arith, hex_only-lower s)

length-lower : (s : Text) → length (lower s) ≡ length s
length-lower [] = refl
length-lower (c ∷ s) = ap suc (length-lower s)

accepted :
    (s : Text)
    → normalize_lease_mac s ≢ []
    → (is_empty s ≡ false) × (length (clean s) ≡ 12) × (all_hex (clean s) ≡ true)
unfolding normalize_lease_mac
accepted s h = ground arith

lease_canonical :
    (s : Text) → normalize_lease_mac s ≢ [] → normalize_lease_mac s ≡ join_octets (clean s)
unfolding normalize_lease_mac
lease_canonical s h = ground arith

node_canonical :
    (s : Text) → length (clean s) ≡ 12 → normalize_node_mac (some s) ≡ some (join_octets (clean s))
unfolding normalize_node_mac
node_canonical s h = ground arith

util_canonical :
    (s : Text)
    → is_empty s ≡ false
    → length (clean s) ≡ 12
    → all_hex (clean s) ≡ true
    → normalize_mac s ≡ ok (join_octets (clean s))
unfolding normalize_mac
util_canonical s e k x = ground (arith, hex_only-lower s x, length-lower (select is_hex_digit s))

-- Where the lease parser accepts a text, the correlation service, the node normalisation and
-- utils.normalize_mac (which then does not raise) give the same address.
pub normalizers_agree :
    (s : Text)
    → normalize_lease_mac s ≢ []
    → (normalize_mac_address s ≡ normalize_lease_mac s)
      × (normalize_node_mac (some s) ≡ some (normalize_lease_mac s))
      × (normalize_mac s ≡ ok (normalize_lease_mac s))
normalizers_agree s h = rw (lease_canonical s h) (
  canonical s (accepted s h).0 (accepted s h).1,
  node_canonical s (accepted s h).1,
  util_canonical s (accepted s h).0 (accepted s h).1 (accepted s h).2,
)
