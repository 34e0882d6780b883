-- ===== src/NetworkInterface/Send.antt =====
-- Datagrams sent to an address that is known or not.
use cs_144_minnow_tcp.Base.{
  ℕ, ◌≡◌, refl, ap, sym, subst, ◌∙◌, false, not, Option, none, some, List, [], ◌∷◌, ◌++◌, arith,
  Option-cases, Bool-cases, inl, inr, if◌then◌else◌,
}
use cs_144_minnow_tcp.Assoc.{find}
use cs_144_minnow_tcp.Timer
use cs_144_minnow_tcp.ArpTable.{EthernetAddress, Entry}
use cs_144_minnow_tcp.ArpTable.Inv as TableInv
use cs_144_minnow_tcp.ArpMessageQueue.{
  Address, PendingDatagram, Queues, pending_of, add_pending, has_pending, pop_pending,
}
use cs_144_minnow_tcp.ArpMessageQueue.Inv as QueueInv
use cs_144_minnow_tcp.Serializer as Serial
use cs_144_minnow_tcp.Serializer.{finish}
use cs_144_minnow_tcp.Ethernet.{EthernetFrame}
use cs_144_minnow_tcp.ArpMessage.{ArpMessage}
use cs_144_minnow_tcp.ArpMessage
use cs_144_minnow_tcp.ArpMessage.RoundTrip.{supported-serialize}
use cs_144_minnow_tcp.Ipv4.{Ipv4Datagram}
use cs_144_minnow_tcp.NetworkInterface.{
  NetworkInterface, send_arp_request, request_for, await, send_datagram, send_or_await, learn,
}
use cs_144_minnow_tcp.NetworkInterface.Arp.{
  frame_for, frames_for, replies_for, AllFour, learn-Learnt, frames_for-same, send_ipv4-frame_for,
}

-- The question for an address, broadcast in a frame of type 0x0806.
abbrev question : NetworkInterface → Address → ArpMessage
question n next_hop = record {
  hardware_type = 1;
  protocol_type = 2048;
  hardware_address_size = 6;
  protocol_address_size = 4;
  opcode = 1;
  sender_ethernet_address = n.ethernet_address;
  sender_ip_address = n.ip_address.ipv4_numeric;
  target_ethernet_address = 0 ∷ 0 ∷ 0 ∷ 0 ∷ 0 ∷ 0 ∷ [];
  target_ip_address = next_hop.ipv4_numeric;
}

abbrev pub request_frame : NetworkInterface → Address → EthernetFrame
request_frame n next_hop = record {
  header = record {
    dst = 255 ∷ 255 ∷ 255 ∷ 255 ∷ 255 ∷ 255 ∷ [];
    src = n.ethernet_address;
    type = 2054;
  };
  payload = finish (ArpMessage.serialize_fields (question n next_hop) Serial.new);
}

send_arp_request_frame :
    (n : NetworkInterface) (next_hop : Address)
    → send_arp_request n next_hop ≡ some (request_frame n next_hop)
unfolding send_arp_request ArpMessage.supported
send_arp_request_frame n next_hop = rw (supported-serialize (request_for n next_hop) refl) refl

-- The interface with a datagram in its queue.
abbrev pub awaiting : NetworkInterface → Ipv4Datagram → Address → NetworkInterface
awaiting n d next_hop = record n { arp_queue = add_pending n.arp_queue d next_hop }

abbrev pub requests_for : NetworkInterface → Address → List EthernetFrame
requests_for n next_hop =
    if not (has_pending n.arp_queue next_hop.ipv4_numeric)
    then request_frame n next_hop ∷ []
    else []

await_lem :
    (n : NetworkInterface) (d : Ipv4Datagram) (next_hop : Address)
    → await n d next_hop ≡ some (awaiting n d next_hop, requests_for n next_hop)
unfolding await
await_lem n d next_hop = elim (Bool-cases (has_pending n.arp_queue next_hop.ipv4_numeric)) [
  | inl queried ↦ rw queried refl
  | inr fresh ↦ rw fresh rw (send_arp_request_frame (awaiting n d next_hop) next_hop) refl
]

-- What `send_datagram` does, by what the table knows of the next hop.
abbrev pub sends :
    NetworkInterface
    → Ipv4Datagram
    → Address
    → Option EthernetAddress
    → NetworkInterface × List EthernetFrame
sends n d next_hop (some mac) = (n, frame_for n mac d ∷ [])
sends n d next_hop none = (awaiting n d next_hop, requests_for n next_hop)

-- With a valid table and a datagram of version 4: a known next hop is sent the datagram at once;
-- else the datagram waits, and a request is broadcast unless one is under way.
pub send_datagram-sends :
    (n : NetworkInterface) (d : Ipv4Datagram) (next_hop : Address)
    → TableInv.IsValid n.arp_table
    → d.header.ver ≡ 4
    → send_datagram n d next_hop
      ≡ some (sends n d next_hop (TableInv.mac_of (find next_hop.ipv4_numeric n.arp_table)))
unfolding send_datagram
send_datagram-sends n d next_hop v four =
    rw (TableInv.lookup-IsValid n.arp_table next_hop.ipv4_numeric v)
      (go (find next_hop.ipv4_numeric n.arp_table))
  where
    go :
        (o : Option Entry)
        → send_or_await n d next_hop (TableInv.mac_of o)
          ≡ some (sends n d next_hop (TableInv.mac_of o))
    go none = await_lem n d next_hop
    go (some e) = rw (send_ipv4-frame_for n d e.mac four) refl

module _ (m : Queues Ipv4Datagram) (d : Ipv4Datagram) (next_hop : Address) where
  pop_queue_of :
      (q : Queues Ipv4Datagram) (ip : ℕ) → (pop_pending q ip).0 ≡ QueueInv.queue_of (find ip q)
  unfolding pop_pending
  pop_queue_of q ip = elim (Option-cases (find ip q)) [
    | inl missing ↦ rw (missing, pop_pending) refl
    | inr found ↦ rw (found.1, pop_pending) refl
  ]

  pop-add_pending :
      (pop_pending (add_pending m d next_hop) next_hop.ipv4_numeric).0
      ≡ (pop_pending m next_hop.ipv4_numeric).0 ++ (pending_of d next_hop ∷ [])
  unfolding add_pending
  pop-add_pending =
      pop_queue_of (add_pending m d next_hop) next_hop.ipv4_numeric
      ∙ ap QueueInv.queue_of
          (QueueInv.find-enqueue-here (pending_of d next_hop) m next_hop.ipv4_numeric)
      ∙ ap (◌++ (pending_of d next_hop ∷ [])) (sym (pop_queue_of m next_hop.ipv4_numeric))

  add_pending-IsValid : QueueInv.IsValid m → QueueInv.IsValid (add_pending m d next_hop)
  unfolding add_pending Timer.start
  add_pending-IsValid v =
      QueueInv.enqueue-IsValid (pending_of d next_hop) m next_hop.ipv4_numeric v
        (refl, refl, omega arith, refl)

frames_for-snoc :
    (n : NetworkInterface) (mac : EthernetAddress) (ps : List (PendingDatagram Ipv4Datagram))
    (p : PendingDatagram Ipv4Datagram)
    → frames_for n mac (ps ++ (p ∷ [])) ≡ frames_for n mac ps ++ (frame_for n mac p.dgram ∷ [])
frames_for-snoc n mac [] p = refl
frames_for-snoc n mac (q ∷ ps) p = ap (frame_for n mac q.dgram ∷◌) (frames_for-snoc n mac ps p)

AllFour-snoc :
    (ps : List (PendingDatagram Ipv4Datagram)) (p : PendingDatagram Ipv4Datagram)
    → AllFour ps
    → p.dgram.header.ver ≡ 4
    → AllFour (ps ++ (p ∷ []))
AllFour-snoc [] p a h = (h, tt)
AllFour-snoc (q ∷ ps) p a h = (a.0, AllFour-snoc ps p a.1 h)

-- With a valid table and queue and datagrams of version 4, a datagram sent to a next hop that is
-- not known goes out, after those that waited for it before, when an ARP message from that next hop
-- is taken in; a request for the next hop's address was broadcast unless one was under way, and
-- nothing waits for the next hop any more.
pub send-learn :
    (n : NetworkInterface) (d : Ipv4Datagram) (next_hop : Address) (msg : ArpMessage)
    → TableInv.IsValid n.arp_table
    → QueueInv.IsValid n.arp_queue
    → find next_hop.ipv4_numeric n.arp_table ≡ none
    → d.header.ver ≡ 4
    → AllFour (pop_pending n.arp_queue next_hop.ipv4_numeric).0
    → msg.sender_ip_address ≡ next_hop.ipv4_numeric
    → (send_datagram n d next_hop ≡ some (awaiting n d next_hop, requests_for n next_hop))
      × (n' : NetworkInterface) × (learn (awaiting n d next_hop) msg
          ≡ some (
            n',
            replies_for n msg
                ++ (frames_for n msg.sender_ethernet_address
                      (pop_pending n.arp_queue next_hop.ipv4_numeric).0
                    ++ (frame_for n msg.sender_ethernet_address d ∷ [])),
          ))
      × (has_pending n'.arp_queue next_hop.ipv4_numeric ≡ false)
send-learn n d next_hop msg v q unknown four olds from =
    let queue = add_pending n.arp_queue d next_hop in
    let old = (pop_pending n.arp_queue next_hop.ipv4_numeric).0 in
    let waiting =
      ap (λ ip. (pop_pending queue ip).0) from ∙ pop-add_pending n.arp_queue d next_hop in
    let (n', gone, known, left, cleared, others) =
      learn-Learnt (awaiting n d next_hop) msg v (add_pending-IsValid n.arp_queue d next_hop q)
        (subst AllFour (sym waiting) (AllFour-snoc old (pending_of d next_hop) olds four)) in
    (
      send_datagram-sends n d next_hop v four
          ∙ ap (λ o. some (sends n d next_hop (TableInv.mac_of o))) unknown,
      n',
      gone
          ∙ ap (λ fs. some (n', replies_for n msg ++ fs))
              (frames_for-same n n.arp_table queue msg.sender_ethernet_address _
                ∙ ap (frames_for n msg.sender_ethernet_address) waiting
                ∙ frames_for-snoc n msg.sender_ethernet_address old (pending_of d next_hop)),
      ap (has_pending n'.arp_queue) (sym from) ∙ cleared,
    )
