-- ===== src/Router/Forward.antt =====
-- src/router.{hh,cc}: the router over its interfaces, which are distinct objects. The frames are listed with the number of the
-- interface that transmits them. `none` stands for an index out of range and for what the
-- interfaces do not define.
use cs_144_minnow_tcp.Base.{
  ℕ, zero, suc, ◌-◌, Bool, true, false, ◌&&◌, Option, none, some, List, [], ◌∷◌, ◌++◌, ◌>>=◌,
  if◌then◌else◌, leb, ◌==◌, length, get_elem?, drop,
}
use cs_144_minnow_tcp.ArpMessageQueue.{Address}
use cs_144_minnow_tcp.Ethernet.{EthernetFrame}
use cs_144_minnow_tcp.Ipv4.{Ipv4Datagram, compute_checksum}
use cs_144_minnow_tcp.NetworkInterface.{NetworkInterface, send_datagram}
use cs_144_minnow_tcp.Router.{RouteEntry, find_route}

pub record Router : Type 0 where
  pub interfaces : List NetworkInterface
  pub routes : List (RouteEntry Address)

-- `Router::add_interface`, and the index that it returns
abbrev pub add_interface : Router → NetworkInterface → Router × ℕ
add_interface r n = (record r { interfaces = r.interfaces ++ (n ∷ []) }, length r.interfaces)

-- The list with another element at an index.
abbrev pub set {ℓ} : {A : Type ℓ} → ℕ → A → List A → List A
set i a [] = []
set zero a (x ∷ xs) = a ∷ xs
set (suc i) a (x ∷ xs) = x ∷ set i a xs

abbrev pub numbered : ℕ → List EthernetFrame → List (ℕ × EthernetFrame)
numbered i [] = []
numbered i (f ∷ fs) = (i, f) ∷ numbered i fs

abbrev pub has_value : Option Address → Bool
has_value none = false
has_value (some a) = true

-- `route->next_hop.value_or( Address::from_ipv4_numeric( ... ) )`
abbrev pub hop_or : Option Address → ℕ → Address
hop_or none destination = record { ipv4_numeric = destination }
hop_or (some a) destination = a

-- The end of `forward`: `--ttl`, the checksum, and the datagram goes to the route's interface.
unfoldable pub send_on :
    Router → Ipv4Datagram → RouteEntry Address → Option (Router × List (ℕ × EthernetFrame))
send_on r d route = do
  header ← compute_checksum (record d.header { ttl = d.header.ttl - 1 })
  interface ← get_elem? r.interfaces route.interface_num
  (interface', frames) ←
      send_datagram interface (record d { header = header }) (hop_or route.next_hop d.header.dst)
  some (
    record r { interfaces = set route.interface_num interface' r.interfaces },
    numbered route.interface_num frames,
  )

abbrev pub forward_on :
    Router
    → Ipv4Datagram
    → ℕ
    → Option (RouteEntry Address)
    → Option (Router × List (ℕ × EthernetFrame))
forward_on r d arrived_on none = some (r, [])
forward_on r d arrived_on (some route) =
    if route.interface_num == arrived_on && has_value route.next_hop
    then some (r, [])
    else send_on r d route

-- `Router::forward`
unfoldable pub forward : Router → Ipv4Datagram → ℕ → Option (Router × List (ℕ × EthernetFrame))
forward r d arrived_on =
    if leb d.header.ttl 1
    then some (r, [])
    else forward_on r d arrived_on (find_route r.routes d.header.dst)

-- `queue.pop()` on an interface's received datagrams
abbrev pub pop_received : Router → ℕ → Option Router
pop_received r i = do
  interface ← get_elem? r.interfaces i
  some (record r {
    interfaces =
        set i (record interface { datagrams_received = drop 1 interface.datagrams_received })
          r.interfaces;
  })

-- The inner loop of `route`, on the datagrams in the queue: `forward` adds none to it.
unfoldable pub forward_all :
    Router → ℕ → List Ipv4Datagram → Option (Router × List (ℕ × EthernetFrame))
unfolding forward
forward_all r i [] = some (r, [])
forward_all r i (d ∷ ds) = do
  (r', frames) ← forward r d i
  r'' ← pop_received r' i
  (s, more) ← forward_all r'' i ds
  some (s, frames ++ more)

-- The outer loop of `route`: `k` interfaces are left, from number `i`.
unfoldable pub route_loop : ℕ → ℕ → Router → Option (Router × List (ℕ × EthernetFrame))
unfolding forward_all
route_loop zero i r = some (r, [])
route_loop (suc k) i r = do
  interface ← get_elem? r.interfaces i
  (r', frames) ← forward_all r i interface.datagrams_received
  (s, more) ← route_loop k (suc i) r'
  some (s, frames ++ more)

-- `Router::route`
unfoldable pub route : Router → Option (Router × List (ℕ × EthernetFrame))
unfolding route_loop
route r = route_loop (length r.interfaces) 0 r
