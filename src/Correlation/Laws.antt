-- ===== src/Correlation/Laws.antt =====
-- The correlation loses no client and no device.
use homesentinel.Prelude.{
  ℕ, ◌+◌, ◌≡◌, refl, Text, text_eq, text_eq_iff, text_eq_refl, text_eq_comm, is_empty, Bool, true,
  false, not, ◌&&◌, ◌||◌, Option, none, some, List, [], ◌∷◌, any, All, All-map, All-and, select,
  count, length, length-append, length-select, Dict, get, put, has, has-put, if◌then◌else◌, arith,
  Bool-cases, inl, inr,
}
use homesentinel.Db.Schema.{Device}
use homesentinel.Mac.{normalize_mac_address}
use homesentinel.Correlation.{
  Client, client_mac, merge_device_data, lan_map, Gathered, gather_found, gather, in_set,
  correlate_by_mac,
}

abbrev pub key_of : Client → Text
key_of c = normalize_mac_address (client_mac c)

-- The client has an address that the dict knows.
abbrev known : Dict Device → Client → Bool
known m c = not (is_empty (client_mac c)) && has (key_of c) m

abbrev one_if : Option Device → ℕ
one_if none = 0
one_if (some d) = 1

length-gather_found :
    (c : Client) (d : Option Device) (g : Gathered)
    → length (gather_found c d g).merged ≡ length g.merged + one_if d
length-gather_found c none g = omega arith
length-gather_found c (some d) g = length-append g.merged (merge_device_data c d ∷ [])

length-gather :
    (m : Dict Device) (cs : List Client) (g : Gathered)
    → length (gather m cs g).merged ≡ length g.merged + count (known m) cs
unfolding gather count
length-gather m [] g = omega arith
length-gather m (c ∷ cs) g = ground (
  arith,
  length-gather m cs (if is_empty (client_mac c) then g else gather_found c (get (key_of c) m) g),
  length-gather_found c (get (key_of c) m) g,
)

in_set-gather :
    (m : Dict Device) (k : Text) (cs : List Client) (g : Gathered)
    → in_set k (gather m cs g).matched
      ≡ (in_set k g.matched || any (λ c. known m c && text_eq k (key_of c)) cs)
unfolding gather any
in_set-gather m k [] g = ground arith
in_set-gather m k (c ∷ cs) g = ground (
  arith,
  in_set-gather m k cs (if is_empty (client_mac c) then g else gather_found c (get (key_of c) m) g),
)

abbrev pub has_key : Text → Client → Bool
has_key k c = not (is_empty (client_mac c)) && text_eq (key_of c) k

abbrev pub at_address : Text → Device → Bool
at_address k d = not (is_empty d.mac_address) && text_eq (normalize_mac_address d.mac_address) k

has-lan_map :
    (k : Text) (ds : List Device) (m : Dict Device)
    → has k (lan_map ds m) ≡ (has k m || any (at_address k) ds)
unfolding lan_map any
has-lan_map k [] m = ground arith
has-lan_map k (d ∷ ds) m = ground (
  arith,
  has-lan_map k ds
      (if is_empty d.mac_address then m else put (normalize_mac_address d.mac_address) d m),
  has-put (normalize_mac_address d.mac_address) k d m,
)

any-known :
    (m : Dict Device) (k : Text) (cs : List Client)
    → any (λ c. known m c && text_eq k (key_of c)) cs ≡ (has k m && any (has_key k) cs)
unfolding any
any-known m k [] = ground arith
any-known m k (c ∷ cs) =
    ground (arith, any-known m k cs, text_eq_iff k (key_of c), text_eq_comm k (key_of c))

module _ {A : Type 0} where
  select-cong : (p q : A → Bool) (xs : List A) → All (λ x. p x ≡ q x) xs → select p xs ≡ select q xs
  unfolding select
  select-cong p q [] h = refl
  select-cong p q (x ∷ xs) h = ground (arith, select-cong p q xs h.1, h.0)

  All-of : (P : A → Type 0) (xs : List A) → ((x : A) → P x) → All P xs
  All-of P [] h = tt
  All-of P (x ∷ xs) h = (h x, All-of P xs h)

  -- A row of a table meets what some row meets if that row does.
  All-any_self :
      (q : A → A → Bool) (xs : List A)
      → ((x : A) → q x x ≡ true)
      → All (λ x. any (q x) xs ≡ true) xs
  unfolding any
  All-any_self q [] h = tt
  All-any_self q (x ∷ xs) h = (
    ground (arith, h x),
    All-map (λ y. any (q y) xs ≡ true) (λ y. any (q y) (x ∷ xs) ≡ true) xs
        (λ y t. ground (arith, t)) (All-any_self q xs h),
  )

abbrev start : Gathered
start = record { merged = []; matched = [] }

matched_lem :
    (k : Text) (clients : List Client) (devices : List Device)
    → in_set k (gather (lan_map devices []) clients start).matched
      ≡ (any (at_address k) devices && any (has_key k) clients)
unfolding any get
matched_lem k clients devices = ground (
  arith,
  in_set-gather (lan_map devices []) k clients start,
  any-known (lan_map devices []) k clients,
  has-lan_map k devices [],
)

merged_count :
    (clients : List Client) (devices : List Device)
    → length (correlate_by_mac clients devices).merged_devices
      ≡ count (known (lan_map devices [])) clients
unfolding correlate_by_mac
merged_count clients devices = omega (arith, length-gather (lan_map devices []) clients start)

unmatched_client :
    (clients : List Client) (devices : List Device) (c : Client)
    → any (λ c'. is_empty (client_mac c) || has_key (key_of c) c') clients ≡ true
    → (not (is_empty (client_mac c))
        && not (in_set (key_of c) (gather (lan_map devices []) clients start).matched))
      ≡ (not (is_empty (client_mac c)) && not (any (at_address (key_of c)) devices))
unmatched_client clients devices c here = elim (Bool-cases (is_empty (client_mac c))) [
  | inl blank ↦ rw blank refl
  | inr set ↦ ground (arith, set, matched_lem (key_of c) clients devices, rw set at here)
]

unmatched_device :
    (clients : List Client) (devices : List Device) (d : Device)
    → is_empty d.mac_address ≡ false
    → any
        (λ d'. is_empty d.mac_address || at_address (normalize_mac_address d.mac_address) d')
        devices
      ≡ true
    → not (
        in_set
          (normalize_mac_address d.mac_address)
          (gather (lan_map devices []) clients start).matched)
      ≡ not (any (has_key (normalize_mac_address d.mac_address)) clients)
unmatched_device clients devices d set here =
    ground
      (arith, matched_lem (normalize_mac_address d.mac_address) clients devices, rw set at here)

-- A client is unmatched exactly when it has an address and no device has the same one.
pub correlate_by_mac_clients :
    (clients : List Client) (devices : List Device)
    → (correlate_by_mac clients devices).unmatched_deco_clients
      ≡ select
          (λ c. not (is_empty (client_mac c)) && not (any (at_address (key_of c)) devices))
          clients
unfolding correlate_by_mac
correlate_by_mac_clients clients devices = select-cong _ _ clients (
    All-map (λ c. any (λ c'. is_empty (client_mac c) || has_key (key_of c) c') clients ≡ true) _
      clients (unmatched_client clients devices)
      (All-any_self (λ c c'. is_empty (client_mac c) || has_key (key_of c) c') clients
        (λ c. ground (arith, text_eq_refl (key_of c)))))

-- If every device has an address, a device is unmatched exactly when no client has the same one.
pub correlate_by_mac_devices :
    (clients : List Client) (devices : List Device)
    → All (λ d. is_empty d.mac_address ≡ false) devices
    → (correlate_by_mac clients devices).unmatched_lan_devices
      ≡ select (λ d. not (any (has_key (normalize_mac_address d.mac_address)) clients)) devices
unfolding correlate_by_mac
correlate_by_mac_devices clients devices sets = select-cong _ _ devices (
    All-map
      (λ d.
        (is_empty d.mac_address ≡ false)
        × (any (λ d'. is_empty d.mac_address || at_address (normalize_mac_address d.mac_address) d')
              devices
            ≡ true))
      _ devices (λ d h. unmatched_device clients devices d h.0 h.1)
      (All-and _ _ devices sets (
        All-any_self
          (λ d d'. is_empty d.mac_address || at_address (normalize_mac_address d.mac_address) d')
          devices (λ d. ground (arith, text_eq_refl (normalize_mac_address d.mac_address))))))

partition :
    (clients : List Client) (devices : List Device) (m : Dict Device)
    → ((k : Text) → has k m ≡ any (at_address k) devices)
    → count (known m) clients
        + count
            (λ c. not (is_empty (client_mac c)) && not (any (at_address (key_of c)) devices))
            clients
        + count (λ c. is_empty (client_mac c)) clients
      ≡ length clients
unfolding count
partition [] devices m h = refl
partition (c ∷ cs) devices m h = ground (arith, partition cs devices m h, h (key_of c))

unmatched_count :
    (clients : List Client) (devices : List Device)
    → length (correlate_by_mac clients devices).unmatched_deco_clients
      ≡ count
          (λ c. not (is_empty (client_mac c)) && not (any (at_address (key_of c)) devices))
          clients
unmatched_count clients devices = rw (correlate_by_mac_clients clients devices) (
    length-select (λ c. not (is_empty (client_mac c)) && not (any (at_address (key_of c)) devices))
      clients)

-- Each client is merged once, unmatched once, or without an address: the three numbers add up.
pub correlate_by_mac_partition :
    (clients : List Client) (devices : List Device)
    → let r = correlate_by_mac clients devices in
      length r.merged_devices
        + length r.unmatched_deco_clients
        + count (λ c. is_empty (client_mac c)) clients
      ≡ length clients
correlate_by_mac_partition clients devices = omega (
  arith,
  unmatched_count clients devices,
  merged_count clients devices,
  partition clients devices (lan_map devices []) (λ k. unfold get in has-lan_map k devices []),
)
