-- ===== src/Router/Tests.antt =====
-- Runs of the forwarding table, and its theorems at a concrete table.
use mathlib.Core.List.{Memᴰ}
use Prim.Native.Nat.{◌/◌, ◌<◌}
use mathlib.Core.Option.{some-injective, some-ne-none}
use cs_144_minnow_tcp.Base.{
  ℕ, ◌^◌, ◌≤◌, ◌≡◌, ◌==◌, ◌&&◌, refl, true, some, none, List, [], ◌∷◌, arith, ap, sym, subst, ◌∙◌,
  ◌⊎◌, inl, inr, Bool-cases, if◌then◌else◌, get_elem?,
}
use cs_144_minnow_tcp.ArpMessageQueue.{Address}
use cs_144_minnow_tcp.Ethernet.{EthernetFrame}
use cs_144_minnow_tcp.Ipv4.{Ipv4Datagram}
use cs_144_minnow_tcp.Ipv4
use cs_144_minnow_tcp.NetworkInterface.{NetworkInterface}
use cs_144_minnow_tcp.Router.Forward.{Router, forward, route}
use cs_144_minnow_tcp.Router.Draining.{queues, tables}
use cs_144_minnow_tcp.Router.Routing.{route-empties}
use cs_144_minnow_tcp.Router.Forwarding.{Dropped, Forwarded, RoutesLead, forward-Forwarded}
use cs_144_minnow_tcp.Router.{
  RouteEntry, route_matches, masked, insert_route, add_route, find_route,
}
use cs_144_minnow_tcp.Router.Table.{
  Sorted, preferred, outranks, add_route-Sorted, find_route-add_route, find_route_longest,
  masked_lem,
}

-- The default route, 10.0.0.0/8 and 10.1.0.0/16.
abbrev default_route : RouteEntry ℕ
default_route = record { prefix = 0; prefix_length = 0; next_hop = some 7; interface_num = 0 }

abbrev wide : RouteEntry ℕ
wide = record { prefix = 167772160; prefix_length = 8; next_hop = none; interface_num = 1 }

abbrev narrow : RouteEntry ℕ
narrow = record { prefix = 167837696; prefix_length = 16; next_hop = none; interface_num = 2 }

abbrev table : List (RouteEntry ℕ)
table = wide ∷ default_route ∷ []

table-Sorted : Sorted 32 table
table-Sorted = (omega arith, (omega arith, tt))

-- 10.1.2.3 goes to the narrow prefix once that is known.
finds_narrow : find_route (add_route table narrow) 167838211 ≡ some narrow
unfolding find_route add_route insert_route masked
finds_narrow = refl

wide_matches : route_matches 167838211 wide ≡ true
unfolding masked
wide_matches = refl

add_route-Sorted_example : Sorted 32 (add_route table narrow)
add_route-Sorted_example = add_route-Sorted table narrow table-Sorted

find_route-add_route_example :
    find_route (add_route table narrow) 167838211
    ≡ preferred narrow
        (find_route table 167838211)
        (true && route_matches 167838211 narrow && outranks narrow (find_route table 167838211))
find_route-add_route_example = find_route-add_route table narrow 167838211 table-Sorted

find_route_longest_example :
    (best : RouteEntry ℕ) × (find_route table 167838211 ≡ some best)
    × Memᴰ best table
    × (route_matches 167838211 best ≡ true)
    × (8 ≤ best.prefix_length)
find_route_longest_example =
    find_route_longest 32 table 167838211 wide table-Sorted (Memᴰ.head refl) wide_matches

masked_lem_example :
    (masked 16 167838211 == masked 16 167837696) ≡ (167838211 / 2 ^ 16 == 167837696 / 2 ^ 16)
masked_lem_example = masked_lem 16 167838211 167837696 (omega arith) (omega arith)

-- A router with two interfaces, whose only route leads to the second one.
abbrev interface : ℕ → NetworkInterface
interface ip = record {
  ethernet_address = 2 ∷ 0 ∷ 0 ∷ 0 ∷ 0 ∷ 1 ∷ [];
  ip_address = record { ipv4_numeric = ip };
  arp_table = [];
  arp_queue = [];
  datagrams_received = [];
  initialized = true;
}

abbrev out_route : RouteEntry Address
out_route = record { prefix = 167772160; prefix_length = 8; next_hop = none; interface_num = 1 }

abbrev router : Router
router = record {
  interfaces = interface 3232235521 ∷ interface 167772161 ∷ [];
  routes = out_route ∷ [];
}

abbrev datagram : Ipv4Datagram
datagram = record {
  header = record Ipv4.new { ttl = 9; src = 3232235522; dst = 167772162 };
  payload = [];
}

only_route :
    (destination : ℕ) (route : RouteEntry Address)
    → find_route router.routes destination ≡ some route
    → out_route ≡ route
unfolding find_route
only_route destination route found = elim (Bool-cases (route_matches destination out_route)) [
  | inl matched ↦
      some-injective _ _ (sym (ap (λ b. if b then some out_route else none) matched) ∙ found)
  | inr other ↦
      elim (some-ne-none route (sym found ∙ ap (λ b. if b then some out_route else none) other)) [ ]
]

first-RoutesLead :
    (first : NetworkInterface)
    → RoutesLead (record router { interfaces = first ∷ interface 167772161 ∷ [] })
first-RoutesLead first destination route found = (
  interface 167772161,
  subst
      (λ r.
        get_elem? (first ∷ interface 167772161 ∷ []) r.interface_num ≡ some (interface 167772161))
      (only_route destination route found) refl,
  tt,
)

forward-Forwarded_example :
    (r' : Router) × (frames : List (ℕ × EthernetFrame)) × (forward router datagram 0
      ≡ some (r', frames))
    × ((Dropped router datagram 0 × (r' ≡ router) × (frames ≡ []))
        ⊎ ((1 < 9) × Forwarded router datagram 0 r' frames))
forward-Forwarded_example =
    forward-Forwarded router datagram 0 (first-RoutesLead (interface 3232235521)) refl

-- The datagram has arrived at the first interface.
abbrev loaded : Router
loaded = record router {
  interfaces =
      record (interface 3232235521) { datagrams_received = datagram ∷ [] }
      ∷ interface 167772161
      ∷ [];
}

route-empties_example :
    (r' : Router) × (frames : List (ℕ × EthernetFrame)) × (route loaded ≡ some (r', frames))
    × (queues r'.interfaces ≡ [] ∷ [] ∷ [])
    × (tables r'.interfaces ≡ [] ∷ [] ∷ [])
    × (r'.routes ≡ out_route ∷ [])
route-empties_example =
    route-empties loaded
      (first-RoutesLead (record (interface 3232235521) { datagrams_received = datagram ∷ [] }))
      ((refl, tt), (tt, tt))
