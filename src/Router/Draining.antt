-- ===== src/Router/Draining.antt =====
-- The queues and the tables of a router's interfaces while it routes.
use cs_144_minnow_tcp.Base.{
  ℕ, zero, suc, ◌≡◌, refl, ap, sym, ◌∙◌, Option, none, some, List, [], ◌∷◌, get_elem?,
}
use mathlib.Core.Option.{some-injective, some-ne-none}
use cs_144_minnow_tcp.Assoc.{find}
use cs_144_minnow_tcp.ArpTable.{Entries, EthernetAddress}
use cs_144_minnow_tcp.ArpTable.Inv as TableInv
use cs_144_minnow_tcp.ArpMessageQueue.{Address}
use cs_144_minnow_tcp.Ethernet.{EthernetFrame}
use cs_144_minnow_tcp.Ipv4.{Ipv4Datagram}
use cs_144_minnow_tcp.NetworkInterface.{NetworkInterface}
use cs_144_minnow_tcp.NetworkInterface.Send.{sends}
use cs_144_minnow_tcp.Router.Forward.{Router, set, route}
use cs_144_minnow_tcp.Router.Forwarding.{Forwarded}

abbrev pub queues : List NetworkInterface → List (List Ipv4Datagram)
queues [] = []
queues (n ∷ ns) = n.datagrams_received ∷ queues ns

abbrev pub tables : List NetworkInterface → List Entries
tables [] = []
tables (n ∷ ns) = n.arp_table ∷ tables ns

module _ {ℓ} {A : Type ℓ} where
  pub set-same : (i : ℕ) (x : A) (xs : List A) → get_elem? xs i ≡ some x → set i x xs ≡ xs
  set-same i x [] h = refl
  set-same zero x (y ∷ xs) h = ap (◌∷ xs) (sym (some-injective _ _ h))
  set-same (suc i) x (y ∷ xs) h = ap (y ∷◌) (set-same i x xs h)

  pub set-set : (i : ℕ) (x y : A) (xs : List A) → set i x (set i y xs) ≡ set i x xs
  set-set i x y [] = refl
  set-set zero x y (z ∷ xs) = refl
  set-set (suc i) x y (z ∷ xs) = ap (z ∷◌) (set-set i x y xs)

  pub get_elem-set :
      (i : ℕ) (x y : A) (xs : List A) → get_elem? xs i ≡ some x → get_elem? (set i y xs) i ≡ some y
  get_elem-set i x y [] h = elim (some-ne-none x (sym h)) [ ]
  get_elem-set zero x y (z ∷ xs) h = refl
  get_elem-set (suc i) x y (z ∷ xs) h = get_elem-set i x y xs h

pub queues-set :
    (i : ℕ) (n : NetworkInterface) (ns : List NetworkInterface)
    → queues (set i n ns) ≡ set i n.datagrams_received (queues ns)
queues-set i n [] = refl
queues-set zero n (m ∷ ns) = refl
queues-set (suc i) n (m ∷ ns) = ap (m.datagrams_received ∷◌) (queues-set i n ns)

pub tables-set :
    (i : ℕ) (n : NetworkInterface) (ns : List NetworkInterface)
    → tables (set i n ns) ≡ set i n.arp_table (tables ns)
tables-set i n [] = refl
tables-set zero n (m ∷ ns) = refl
tables-set (suc i) n (m ∷ ns) = ap (m.arp_table ∷◌) (tables-set i n ns)

pub get_elem-queues :
    (i : ℕ) (q : List Ipv4Datagram) (ns : List NetworkInterface)
    → get_elem? (queues ns) i ≡ some q
    → (n : NetworkInterface) × (get_elem? ns i ≡ some n) × (n.datagrams_received ≡ q)
get_elem-queues i q [] h = elim (some-ne-none q (sym h)) [ ]
get_elem-queues zero q (n ∷ ns) h = (n, refl, some-injective _ _ h)
get_elem-queues (suc i) q (n ∷ ns) h = get_elem-queues i q ns h

pub get_elem-tables :
    (i : ℕ) (t : Entries) (ns : List NetworkInterface)
    → get_elem? (tables ns) i ≡ some t
    → (n : NetworkInterface) × (get_elem? ns i ≡ some n) × (n.arp_table ≡ t)
get_elem-tables i t [] h = elim (some-ne-none t (sym h)) [ ]
get_elem-tables zero t (n ∷ ns) h = (n, refl, some-injective _ _ h)
get_elem-tables (suc i) t (n ∷ ns) h = get_elem-tables i t ns h

pub queue_at :
    (i : ℕ) (n : NetworkInterface) (ns : List NetworkInterface)
    → get_elem? ns i ≡ some n
    → get_elem? (queues ns) i ≡ some n.datagrams_received
queue_at i n [] h = elim (some-ne-none n (sym h)) [ ]
queue_at zero n (m ∷ ns) h = ap (λ k. some k.datagrams_received) (some-injective _ _ h)
queue_at (suc i) n (m ∷ ns) h = queue_at i n ns h

pub table_at :
    (i : ℕ) (n : NetworkInterface) (ns : List NetworkInterface)
    → get_elem? ns i ≡ some n
    → get_elem? (tables ns) i ≡ some n.arp_table
table_at i n [] h = elim (some-ne-none n (sym h)) [ ]
table_at zero n (m ∷ ns) h = ap (λ k. some k.arp_table) (some-injective _ _ h)
table_at (suc i) n (m ∷ ns) h = table_at i n ns h

-- What forwarding leaves alone: the routes, the tables and the queues of received datagrams.
pub record Unmoved (r r' : Router) : Type 0 where
  pub routes : r'.routes ≡ r.routes
  pub tables_same : tables r'.interfaces ≡ tables r.interfaces
  pub queues_same : queues r'.interfaces ≡ queues r.interfaces

sends_keeps :
    (n : NetworkInterface) (d : Ipv4Datagram) (hop : Address) (mac : Option EthernetAddress)
    → ((sends n d hop mac).0.arp_table ≡ n.arp_table)
      × ((sends n d hop mac).0.datagrams_received ≡ n.datagrams_received)
sends_keeps n d hop none = (refl, refl)
sends_keeps n d hop (some mac) = (refl, refl)

pub Forwarded-Unmoved :
    (r r' : Router) (d : Ipv4Datagram) (arrived_on : ℕ) (frames : List (ℕ × EthernetFrame))
    → Forwarded r d arrived_on r' frames
    → Unmoved r r'
Forwarded-Unmoved r r' d arrived_on frames
      (route, n, d', hop, found, onward, chosen, there, payload, fields, good, sent) =
    let mac = TableInv.mac_of (find hop.ipv4_numeric n.arp_table) in
    let out = (sends n d' hop mac).0 in
    let (table, queue) = sends_keeps n d' hop mac in
    let i = route.interface_num in
    record {
      routes = sent.1;
      tables_same =
          ap tables sent.0
          ∙ tables-set i out r.interfaces
          ∙ ap (λ t. set i t (tables r.interfaces)) table
          ∙ set-same i n.arp_table (tables r.interfaces) (table_at i n r.interfaces there);
      queues_same =
          ap queues sent.0
          ∙ queues-set i out r.interfaces
          ∙ ap (λ q. set i q (queues r.interfaces)) queue
          ∙ set-same i n.datagrams_received (queues r.interfaces) (queue_at i n r.interfaces there);
    }
