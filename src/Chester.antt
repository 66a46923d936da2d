-- ===== src/Chester.antt =====
-- backend/services/chester_network.py: `NetworkSnapshot`. `parse_ip_neigh` is
-- not modelled. `now` is `time.time()` in whole seconds.
pub mod Laws
pub mod Parsers
pub mod Forms
pub mod Parsed
use homesentinel.Prelude.{
  ℕ, Text, text_eq, Bool, true, false, ◌&&◌, ◌||◌, not, Option, none, some, List, [], ◌∷◌, Dict,
  get, put, ltb, leb, ◌==◌, if◌then◌else◌, codes,
}

pub record Neighbor : Type 0 where
  pub mac : Text
  pub ip : Text
  pub state : Text
  pub confirmed_age : Option ℕ

pub record Lease : Type 0 where
  pub mac : Text
  pub ip : Text
  pub hostname : Option Text
  pub expiry : ℕ

pub record Reservation : Type 0 where
  pub mac : Text
  pub ip : Text
  pub name : Text

pub record NetworkSnapshot : Type 0 where
  pub neighbors : List Neighbor
  pub leases : List Lease
  pub reservations : List Reservation

-- `DEFAULT_MAX_STALE_AGE`
abbrev pub default_max_stale_age : ℕ
default_max_stale_age = 120

-- `state in ONLINE_STATES`
unfoldable pub is_online_state : Text → Bool
is_online_state s =
    text_eq s (codes "REACHABLE") || (text_eq s (codes "DELAY") || text_eq s (codes "PROBE"))

abbrev pub at_most : Option ℕ → ℕ → Bool
at_most none limit = false
at_most (some age) limit = leb age limit

-- `confirmed_age or 0`
abbrev pub age_of : Neighbor → ℕ
age_of n = elim n.confirmed_age [ none ↦ 0 | some age ↦ age ]

unfoldable pub is_alive : ℕ → Neighbor → Bool
unfolding is_online_state
is_alive max_stale_age n =
    is_online_state n.state
    || (text_eq n.state (codes "STALE") && at_most n.confirmed_age max_stale_age)

abbrev pub is_better : Neighbor → Option Neighbor → Bool
is_better n none = true
is_better n (some best) = ltb (age_of n) (age_of best)

unfoldable pub add_neighbor : ℕ → Neighbor → Dict Neighbor → Dict Neighbor
unfolding is_alive
add_neighbor max_stale_age n online =
    if not (is_alive max_stale_age n)
    then online
    else (if is_better n (get n.mac online) then put n.mac n online else online)

unfoldable pub collect_neighbors : ℕ → List Neighbor → Dict Neighbor → Dict Neighbor
unfolding add_neighbor
collect_neighbors limit [] online = online
collect_neighbors limit (n ∷ ns) online = collect_neighbors limit ns (add_neighbor limit n online)

-- `online_neighbors`
unfoldable pub online_neighbors : ℕ → NetworkSnapshot → Dict Neighbor
unfolding collect_neighbors
online_neighbors max_stale_age s = collect_neighbors max_stale_age s.neighbors []

-- `{l.mac: l.ip for l in self.leases if l.expiry == 0 or l.expiry > now}`
unfoldable pub lease_hints : ℕ → List Lease → Dict Text → Dict Text
lease_hints now [] hints = hints
lease_hints now (l ∷ ls) hints =
    lease_hints now ls (if l.expiry == 0 || ltb now l.expiry then put l.mac l.ip hints else hints)

unfoldable pub reservation_hints : List Reservation → Dict Text → Dict Text
reservation_hints [] hints = hints
reservation_hints (r ∷ rs) hints = reservation_hints rs (put r.mac r.ip hints)

-- `ip_hints`
unfoldable pub ip_hints : ℕ → NetworkSnapshot → Dict Text
unfolding lease_hints reservation_hints
ip_hints now s = reservation_hints s.reservations (lease_hints now s.leases [])
