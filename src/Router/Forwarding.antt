-- ===== src/Router/Forwarding.antt =====
-- What `forward` does with a datagram.
use cs_144_minnow_tcp.Base.{
  ℕ, ◌-◌, ◌<◌, ◌≤◌, ◌≡◌, refl, Bool, true, false, ◌&&◌, ◌⊎◌, none, some, List, [], leb, leb→le,
  leb→lt, ◌==◌, ◌≢◌, ap, sym, ◌∙◌, Option, get_elem?, Bool-cases, Option-cases, ==_iff, inl, inr,
}
use mathlib.Core.Bool.{false≢true}
use cs_144_minnow_tcp.Assoc.{find}
use cs_144_minnow_tcp.ArpMessageQueue.{Address}
use cs_144_minnow_tcp.ArpTable.Inv as TableInv
use cs_144_minnow_tcp.Ethernet.{EthernetFrame}
use cs_144_minnow_tcp.Ipv4.{Ipv4Datagram, compute_checksum}
use cs_144_minnow_tcp.Ipv4.Checksummed.{compute_checksum-Summed}
use cs_144_minnow_tcp.NetworkInterface.{NetworkInterface}
use cs_144_minnow_tcp.NetworkInterface.Send.{sends, send_datagram-sends}
use cs_144_minnow_tcp.Router.{RouteEntry, find_route}
use cs_144_minnow_tcp.Router.Forward.{
  Router, set, numbered, has_value, hop_or, send_on, forward_on, forward,
}

-- A datagram is dropped at the end of its life, without a route, or rather than sent back.
abbrev pub Dropped : Router → Ipv4Datagram → ℕ → Type 0
Dropped r d arrived_on =
    (d.header.ttl ≤ 1)
    ⊎ ((find_route r.routes d.header.dst ≡ none)
        ⊎ ((route : RouteEntry Address) × (find_route r.routes d.header.dst ≡ some route)
            × (route.interface_num ≡ arrived_on)
            × (gateway : Address) × (route.next_hop ≡ some gateway)))

-- Else it goes to the interface of its route, one hop shorter and with a checksum that is right. That
-- is not the interface it came from, unless the route has no next hop; without one the datagram goes
-- to its own destination.
abbrev pub Forwarded : Router → Ipv4Datagram → ℕ → Router → List (ℕ × EthernetFrame) → Type 0
Forwarded r d arrived_on r' frames =
    (route : RouteEntry Address) × (interface : NetworkInterface) × (d' : Ipv4Datagram)
    × (hop : Address) × (find_route r.routes d.header.dst ≡ some route)
    × ((route.interface_num ≢ arrived_on) ⊎ (route.next_hop ≡ none))
    × ((route.next_hop ≡ some hop) ⊎ ((route.next_hop ≡ none) × (hop.ipv4_numeric ≡ d.header.dst)))
    × (get_elem? r.interfaces route.interface_num ≡ some interface)
    × (d'.payload ≡ d.payload)
    × (record d'.header { cksum = d.header.cksum } ≡ record d.header { ttl = d.header.ttl - 1 })
    × (compute_checksum d'.header ≡ some d'.header)
    × (let (interface', sent) =
          sends interface d' hop (TableInv.mac_of (find hop.ipv4_numeric interface.arp_table)) in
        (r'.interfaces ≡ set route.interface_num interface' r.interfaces)
        × (r'.routes ≡ r.routes)
        × (frames ≡ numbered route.interface_num sent))

-- Every route leads to an interface with a valid table.
abbrev pub RoutesLead : Router → Type 0
RoutesLead r =
    (destination : ℕ) (route : RouteEntry Address)
    → find_route r.routes destination ≡ some route
    → (interface : NetworkInterface) × (get_elem? r.interfaces route.interface_num ≡ some interface)
      × TableInv.IsValid interface.arp_table

-- The next hop that the code takes.
hop_chosen :
    (o : Option Address) (destination : ℕ)
    → (o ≡ some (hop_or o destination))
      ⊎ ((o ≡ none) × ((hop_or o destination).ipv4_numeric ≡ destination))
hop_chosen none destination = inr (refl, refl)
hop_chosen (some a) destination = inl refl

send_on-Forwarded :
    (r : Router) (d : Ipv4Datagram) (arrived_on : ℕ) (route : RouteEntry Address)
    (interface : NetworkInterface)
    → d.header.ver ≡ 4
    → find_route r.routes d.header.dst ≡ some route
    → get_elem? r.interfaces route.interface_num ≡ some interface
    → TableInv.IsValid interface.arp_table
    → (route.interface_num ≢ arrived_on) ⊎ (route.next_hop ≡ none)
    → (r' : Router) × (frames : List (ℕ × EthernetFrame)) × (send_on r d route ≡ some (r', frames))
      × Forwarded r d arrived_on r' frames
unfolding send_on
send_on-Forwarded r d arrived_on route interface four found there v onward =
    let (c, computed, again) =
      compute_checksum-Summed (record d.header { ttl = d.header.ttl - 1 }) four in
    let d' = record d { header = record d.header { ttl = d.header.ttl - 1; cksum = c } } in
    let hop = hop_or route.next_hop d.header.dst in
    let sent = send_datagram-sends interface d' hop v four in
    let out =
      sends interface d' hop (TableInv.mac_of (find hop.ipv4_numeric interface.arp_table)) in
    (
      record r { interfaces = set route.interface_num out.0 r.interfaces },
      numbered route.interface_num out.1,
      simp (computed, there, sent),
      (
        route,
        interface,
        d',
        hop,
        found,
        onward,
        hop_chosen route.next_hop d.header.dst,
        there,
        refl,
        refl,
        again,
        (refl, refl, refl),
      ),
    )

and_split : (a b : Bool) → (a && b) ≡ true → (a ≡ true) × (b ≡ true)
and_split true b h = (refl, h)
and_split false b h = elim (false≢true h) [ ]

gateway_of : (o : Option Address) → has_value o ≡ true → (a : Address) × (o ≡ some a)
gateway_of none h = elim (false≢true h) [ ]
gateway_of (some a) h = (a, refl)

-- A route that the guard lets pass
onward_of : (i j : ℕ) (o : Option Address) → (i == j && has_value o) ≡ false → (i ≢ j) ⊎ (o ≡ none)
onward_of i j none h = inr refl
onward_of i j (some a) h = inl (λ e. false≢true (sym h ∙ ap (◌&& true) ((==_iff i j).1 e)))

-- A datagram that lives on, by the decision of the route that was found.
forward_on-Forwarded :
    (r : Router) (d : Ipv4Datagram) (arrived_on : ℕ) (route : RouteEntry Address)
    → RoutesLead r
    → d.header.ver ≡ 4
    → 1 < d.header.ttl
    → find_route r.routes d.header.dst ≡ some route
    → (r' : Router) × (frames : List (ℕ × EthernetFrame)) × (forward_on r d arrived_on (some route)
        ≡ some (r', frames))
      × ((Dropped r d arrived_on × (r' ≡ r) × (frames ≡ []))
          ⊎ ((1 < d.header.ttl) × Forwarded r d arrived_on r' frames))
forward_on-Forwarded r d arrived_on route leads four alive found =
    elim (Bool-cases (route.interface_num == arrived_on && has_value route.next_hop)) [
      | inl back ↦
          let (same, hop) =
            and_split (route.interface_num == arrived_on) (has_value route.next_hop) back in
          let (gateway, there) = gateway_of route.next_hop hop in
          (
            r,
            [],
            rw back refl,
            inl (
              inr (
                  inr
                    (route, found, (==_iff route.interface_num arrived_on).0 same, gateway, there)),
              refl,
              refl,
            ),
          )
      | inr ahead ↦
          let (interface, there, v) = leads d.header.dst route found in
          let (r', frames, sent, f) =
            send_on-Forwarded r d arrived_on route interface four found there v
              (onward_of route.interface_num arrived_on route.next_hop ahead) in
          (r', frames, rw ahead sent, inr (alive, f))
    ]

-- With every route leading to an interface that has a valid table, forward of a datagram of version
-- 4 returns: it drops one at the end of its life, without a route, or whose route leads back to the
-- interface it came from by a next hop, and changes nothing; no other is dropped, and none goes
-- back in that way. Any other goes, one hop shorter and with a right checksum, to the interface of
-- its route, which sends it to the next hop of the route, or if there is none to the destination,
-- or lets it wait.
pub forward-Forwarded :
    (r : Router) (d : Ipv4Datagram) (arrived_on : ℕ)
    → RoutesLead r
    → d.header.ver ≡ 4
    → (r' : Router) × (frames : List (ℕ × EthernetFrame)) × (forward r d arrived_on
        ≡ some (r', frames))
      × ((Dropped r d arrived_on × (r' ≡ r) × (frames ≡ []))
          ⊎ ((1 < d.header.ttl) × Forwarded r d arrived_on r' frames))
unfolding forward
forward-Forwarded r d arrived_on leads four = elim (Bool-cases (leb d.header.ttl 1)) [
  | inl old ↦ (r, [], rw old refl, inl (inl (leb→le d.header.ttl 1 old), refl, refl))
  | inr young ↦
      let alive : 1 < d.header.ttl = leb→lt d.header.ttl 1 young in
      elim (Option-cases (find_route r.routes d.header.dst)) [
        | inl lost ↦ (r, [], rw young rw lost refl, inl (inr (inl lost), refl, refl))
        | inr (route, found) ↦
            let (r', frames, done, out) =
              forward_on-Forwarded r d arrived_on route leads four alive found in
            (r', frames, rw young rw found done, out)
      ]
]
