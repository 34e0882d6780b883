-- ===== src/Router/Routing.antt =====
-- `route`: every received datagram is taken out of its queue.
use cs_144_minnow_tcp.Base.{
  ℕ, suc, ◌<◌, ◌≡◌, refl, ap, sym, subst, ◌∙◌, some, List, [], ◌∷◌, ◌++◌, ◌>>=◌, arith, length,
  get_elem?, drop, ◌⊎◌, inl, inr, append_assoc, length-append,
}
use cs_144_minnow_tcp.ArpTable.Inv as TableInv
use cs_144_minnow_tcp.Ethernet.{EthernetFrame}
use cs_144_minnow_tcp.Ipv4.{Ipv4Datagram}
use cs_144_minnow_tcp.NetworkInterface.{NetworkInterface}
use cs_144_minnow_tcp.Router.{find_route}
use cs_144_minnow_tcp.Router.Forward.{
  Router, set, forward, pop_received, forward_all, route_loop, route,
}
use cs_144_minnow_tcp.Router.Forwarding.{RoutesLead, Dropped, Forwarded, forward-Forwarded}
use cs_144_minnow_tcp.Router.Draining.{
  queues, tables, set-same, set-set, get_elem-set, queues-set, tables-set, get_elem-queues,
  get_elem-tables, table_at, Forwarded-Unmoved,
}

abbrev pub AllFour : List Ipv4Datagram → Type 0
AllFour [] = Unit {0}
AllFour (d ∷ ds) = (d.header.ver ≡ 4) × AllFour ds

abbrev pub EachFour : List (List Ipv4Datagram) → Type 0
EachFour [] = Unit {0}
EachFour (q ∷ qs) = AllFour q × EachFour qs

-- `r'` has the routes and the tables of `r`, and the queues `qs`.
record Turned (r r' : Router) (qs : List (List Ipv4Datagram)) : Type 0 where
  routes : r'.routes ≡ r.routes
  tables_same : tables r'.interfaces ≡ tables r.interfaces
  queued : queues r'.interfaces ≡ qs

leads_on :
    (r r' : Router) (qs : List (List Ipv4Datagram)) → Turned r r' qs → RoutesLead r → RoutesLead r'
leads_on r r' qs u leads destination route found =
    let (n, there, v) =
      leads destination route (subst (λ t. find_route t destination ≡ some route) u.routes found) in
    let (m, there', e) = get_elem-tables route.interface_num n.arp_table r'.interfaces (
      ap (λ t. get_elem? t route.interface_num) u.tables_same
      ∙ table_at route.interface_num n r.interfaces there) in
    (m, there', subst TableInv.IsValid (sym e) v)

forward-Turned :
    (r : Router) (d : Ipv4Datagram) (i : ℕ)
    → RoutesLead r
    → d.header.ver ≡ 4
    → (r' : Router) × (frames : List (ℕ × EthernetFrame)) × (forward r d i ≡ some (r', frames))
      × Turned r r' (queues r.interfaces)
forward-Turned r d i leads four =
    let (r', frames, done, out) = forward-Forwarded r d i leads four in
    (r', frames, done, turned r' frames out)
  where
    turned :
        (r' : Router) (frames : List (ℕ × EthernetFrame))
        → (Dropped r d i × (r' ≡ r) × (frames ≡ []))
          ⊎ ((1 < d.header.ttl) × Forwarded r d i r' frames)
        → Turned r r' (queues r.interfaces)
    turned r' frames (inl (dropped, same, nothing)) = record {
      routes = ap (λ x. x.routes) same;
      tables_same = ap (λ x. tables x.interfaces) same;
      queued = ap (λ x. queues x.interfaces) same;
    }
    turned r' frames (inr (alive, sent)) =
        let u = Forwarded-Unmoved r r' d i frames sent in
        record { routes = u.routes; tables_same = u.tables_same; queued = u.queues_same }

pop_received-Turned :
    (r : Router) (i : ℕ) (d : Ipv4Datagram) (ds : List Ipv4Datagram)
    → get_elem? (queues r.interfaces) i ≡ some (d ∷ ds)
    → (r' : Router) × (pop_received r i ≡ some r') × Turned r r' (set i ds (queues r.interfaces))
pop_received-Turned r i d ds h =
    let (n, there, e) = get_elem-queues i (d ∷ ds) r.interfaces h in
    let n' = record n { datagrams_received = drop 1 n.datagrams_received } in
    (
      record r { interfaces = set i n' r.interfaces },
      ap
          (λ o. o >>= (λ interface. some (record r {
            interfaces =
                set i
                  (record interface { datagrams_received = drop 1 interface.datagrams_received })
                  r.interfaces;
          })))
          there,
      record {
        routes = refl;
        tables_same =
            tables-set i n' r.interfaces
            ∙ set-same i n.arp_table (tables r.interfaces) (table_at i n r.interfaces there);
        queued = queues-set i n' r.interfaces ∙ ap (λ q. set i (drop 1 q) (queues r.interfaces)) e;
      },
    )

-- One queue is emptied.
forward_all-Turned :
    (r : Router) (i : ℕ) (ds : List Ipv4Datagram)
    → RoutesLead r
    → AllFour ds
    → get_elem? (queues r.interfaces) i ≡ some ds
    → (r' : Router) × (frames : List (ℕ × EthernetFrame)) × (forward_all r i ds ≡ some (r', frames))
      × Turned r r' (set i [] (queues r.interfaces))
unfolding forward_all
forward_all-Turned r i [] leads four h = (
  r,
  [],
  refl,
  record {
    routes = refl;
    tables_same = refl;
    queued = sym (set-same i [] (queues r.interfaces) h);
  },
)
forward_all-Turned r i (d ∷ ds) leads four h =
    let (r1, frames, one, u1) = forward-Turned r d i leads four.0 in
    let (r2, popped, u2) = pop_received-Turned r1 i d ds (ap (λ q. get_elem? q i) u1.queued ∙ h) in
    let left : queues r2.interfaces ≡ set i ds (queues r.interfaces) =
      u2.queued ∙ ap (set i ds) u1.queued in
    let (r', more, rest, u) =
      forward_all-Turned r2 i ds (leads_on r1 r2 _ u2 (leads_on r r1 _ u1 leads)) four.1
        (ap (λ q. get_elem? q i) left ∙ get_elem-set i (d ∷ ds) ds (queues r.interfaces) h) in
    (
      r',
      frames ++ more,
      rw one rw popped rw rest refl,
      record {
        routes = u.routes ∙ u2.routes ∙ u1.routes;
        tables_same = u.tables_same ∙ u2.tables_same ∙ u1.tables_same;
        queued = u.queued ∙ ap (set i []) left ∙ set-set i [] ds (queues r.interfaces);
      },
    )

abbrev pub empties : List (List Ipv4Datagram) → List (List Ipv4Datagram)
empties [] = []
empties (q ∷ qs) = [] ∷ empties qs

at_append :
    (pre qs : List (List Ipv4Datagram)) (q : List Ipv4Datagram)
    → get_elem? (pre ++ (q ∷ qs)) (length pre) ≡ some q
at_append [] qs q = refl
at_append (p ∷ pre) qs q = at_append pre qs q

set-append :
    (pre qs : List (List Ipv4Datagram)) (q : List Ipv4Datagram)
    → set (length pre) [] (pre ++ (q ∷ qs)) ≡ (pre ++ ([] ∷ [])) ++ qs
set-append [] qs q = refl
set-append (p ∷ pre) qs q = ap (p ∷◌) (set-append pre qs q)

length-queues : (ns : List NetworkInterface) → length (queues ns) ≡ length ns
length-queues [] = refl
length-queues (n ∷ ns) = ap suc (length-queues ns)

-- The queues `pre` are done, the queues `qs` are left.
route_loop-Turned :
    (r : Router) (pre qs : List (List Ipv4Datagram))
    → RoutesLead r
    → EachFour qs
    → queues r.interfaces ≡ pre ++ qs
    → (r' : Router) × (frames : List (ℕ × EthernetFrame)) × (route_loop (length qs) (length pre) r
        ≡ some (r', frames))
      × Turned r r' (pre ++ empties qs)
unfolding route_loop
route_loop-Turned r pre [] leads four e =
    (r, [], refl, record { routes = refl; tables_same = refl; queued = e })
route_loop-Turned r pre (q ∷ qs) leads four e =
    let here = ap (λ x. get_elem? x (length pre)) e ∙ at_append pre qs q in
    let (n, there, held) = get_elem-queues (length pre) q r.interfaces here in
    let (r1, frames, one, u1) = forward_all-Turned r (length pre) q leads four.0 here in
    let done = pre ++ ([] ∷ []) in
    let (r', more, rest, u) =
      route_loop-Turned r1 done qs (leads_on r r1 _ u1 leads) four.1
        (u1.queued ∙ ap (set (length pre) []) e ∙ set-append pre qs q) in
    let next : length done ≡ suc (length pre) = omega (arith, length-append pre ([] ∷ [])) in
    (
      r',
      frames ++ more,
      rw there rw held rw one rw (ap (λ i. route_loop (length qs) i r1) (sym next) ∙ rest) refl,
      record {
        routes = u.routes ∙ u1.routes;
        tables_same = u.tables_same ∙ u1.tables_same;
        queued = u.queued ∙ append_assoc pre ([] ∷ []) (empties qs);
      },
    )

-- With every route leading to an interface that has a valid table, and only datagrams of version 4
-- in the queues, route ends without a fault: every received datagram is taken out of its queue,
-- none is put into one, and the ARP tables and the routes stay as they are.
pub route-empties :
    (r : Router)
    → RoutesLead r
    → EachFour (queues r.interfaces)
    → (r' : Router) × (frames : List (ℕ × EthernetFrame)) × (route r ≡ some (r', frames))
      × (queues r'.interfaces ≡ empties (queues r.interfaces))
      × (tables r'.interfaces ≡ tables r.interfaces)
      × (r'.routes ≡ r.routes)
unfolding route
route-empties r leads four =
    let (r', frames, e, u) = route_loop-Turned r [] (queues r.interfaces) leads four refl in
    (
      r',
      frames,
      ap (λ k. route_loop k 0 r) (sym (length-queues r.interfaces)) ∙ e,
      u.queued,
      u.tables_same,
      u.routes,
    )
