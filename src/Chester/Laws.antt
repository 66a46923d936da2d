-- ===== src/Chester/Laws.antt =====
-- Which neighbours and addresses a snapshot reports.
use homesentinel.Prelude.{
  ℕ, ◌≤◌, ◌≡◌, refl, Text, text_eq, text_eq_iff, Bool, false, ◌&&◌, ◌||◌, Option, none, some, List,
  [], ◌∷◌, any, Dict, get, put, get-put, has, arith, if◌then◌else◌, ltb, ◌==◌,
}
use homesentinel.Chester.{
  Neighbor, Lease, Reservation, NetworkSnapshot, is_alive, age_of, add_neighbor, collect_neighbors,
  online_neighbors, lease_hints, reservation_hints, ip_hints,
}

abbrev pub alive_at : ℕ → Text → Neighbor → Bool
alive_at limit mac n = is_alive limit n && text_eq n.mac mac

has-add_neighbor :
    (limit : ℕ) (mac : Text) (n : Neighbor) (online : Dict Neighbor)
    → has mac (add_neighbor limit n online) ≡ (has mac online || alive_at limit mac n)
unfolding add_neighbor
has-add_neighbor limit mac n online =
    ground (arith, get-put n.mac mac n online, text_eq_iff n.mac mac)

has-collect :
    (limit : ℕ) (mac : Text) (ns : List Neighbor) (online : Dict Neighbor)
    → has mac (collect_neighbors limit ns online) ≡ (has mac online || any (alive_at limit mac) ns)
unfolding collect_neighbors any
has-collect limit mac [] online = ground arith
has-collect limit mac (n ∷ ns) online = ground (
  arith,
  has-collect limit mac ns (add_neighbor limit n online),
  has-add_neighbor limit mac n online,
)

-- An address is reported online exactly when some neighbour entry of it is alive.
pub has-online_neighbors :
    (limit : ℕ) (mac : Text) (s : NetworkSnapshot)
    → has mac (online_neighbors limit s) ≡ any (alive_at limit mac) s.neighbors
unfolding online_neighbors get
has-online_neighbors limit mac s = has-collect limit mac s.neighbors []

-- No entry of the dict for the address is younger.
abbrev NoYounger : Neighbor → Option Neighbor → Type 0
NoYounger b none = Unit
NoYounger b (some c) = age_of b ≤ age_of c

abbrev pub younger_at : ℕ → Text → Neighbor → Neighbor → Bool
younger_at limit mac b n = alive_at limit mac n && ltb (age_of n) (age_of b)

collect_best :
    (limit : ℕ) (mac : Text) (b : Neighbor) (ns : List Neighbor) (online : Dict Neighbor)
    → get mac (collect_neighbors limit ns online) ≡ some b
    → (any (younger_at limit mac b) ns ≡ false) × NoYounger b (get mac online)
unfolding collect_neighbors any
collect_best limit mac b [] online h = (refl, ground arith)
collect_best limit mac b (n ∷ ns) online h =
    let (later, first) = collect_best limit mac b ns (add_neighbor limit n online) h in
    unfold add_neighbor in
    ground (arith, later, first, get-put n.mac mac n online, text_eq_iff n.mac mac)

-- The entry reported for an address is at least as freshly confirmed as every live entry of it.
pub online_neighbors_freshest :
    (limit : ℕ) (mac : Text) (b : Neighbor) (s : NetworkSnapshot)
    → get mac (online_neighbors limit s) ≡ some b
    → any (younger_at limit mac b) s.neighbors ≡ false
unfolding online_neighbors
online_neighbors_freshest limit mac b s h = (collect_best limit mac b s.neighbors [] h).0

abbrev last_of : Option Text → Bool → Text → Option Text
last_of (some later) here ip = some later
last_of none here ip = if here then some ip else none

-- The address of the last reservation, and of the last unexpired lease, of a MAC.
abbrev pub reserved_ip : Text → List Reservation → Option Text
reserved_ip k [] = none
reserved_ip k (r ∷ rs) = last_of (reserved_ip k rs) (text_eq r.mac k) r.ip

abbrev pub leased_ip : ℕ → Text → List Lease → Option Text
leased_ip now k [] = none
leased_ip now k (l ∷ ls) =
    last_of (leased_ip now k ls) (text_eq l.mac k && (l.expiry == 0 || ltb now l.expiry)) l.ip

abbrev pub prefer : Option Text → Option Text → Option Text
prefer none b = b
prefer (some a) b = some a

get-reservation_hints :
    (k : Text) (rs : List Reservation) (hints : Dict Text)
    → get k (reservation_hints rs hints) ≡ prefer (reserved_ip k rs) (get k hints)
unfolding reservation_hints
get-reservation_hints k [] hints = refl
get-reservation_hints k (r ∷ rs) hints =
    ground (arith, get-reservation_hints k rs (put r.mac r.ip hints), get-put r.mac k r.ip hints)

get-lease_hints :
    (now : ℕ) (k : Text) (ls : List Lease) (hints : Dict Text)
    → get k (lease_hints now ls hints) ≡ prefer (leased_ip now k ls) (get k hints)
unfolding lease_hints
get-lease_hints now k [] hints = refl
get-lease_hints now k (l ∷ ls) hints = ground (
  arith,
  get-lease_hints now k ls
      (if l.expiry == 0 || ltb now l.expiry then put l.mac l.ip hints else hints),
  get-put l.mac k l.ip hints,
)

-- The hint for a MAC is its last reservation, and only without one its last unexpired lease.
pub get-ip_hints :
    (now : ℕ) (k : Text) (s : NetworkSnapshot)
    → get k (ip_hints now s) ≡ prefer (reserved_ip k s.reservations) (leased_ip now k s.leases)
unfolding ip_hints get
get-ip_hints now k s = ground (
  arith,
  get-reservation_hints k s.reservations (lease_hints now s.leases []),
  get-lease_hints now k s.leases [],
)
