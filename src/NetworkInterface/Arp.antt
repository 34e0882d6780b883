-- ===== src/NetworkInterface/Arp.antt =====
-- An ARP message received: the mapping is learnt, a request is answered, and the datagrams that wait
-- for the address go out.
use cs_144_minnow_tcp.Base.{
  ℕ, ◌<◌, ◌≡◌, refl, ap, sym, subst, ◌∙◌, Bool, true, false, not, ◌&&◌, ◌||◌, Option, some, List,
  [], ◌∷◌, ◌++◌, arith, length, flatten, mod64, Bool-cases, Option-cases, inl, inr, ◌==◌,
  if◌then◌else◌,
}
use mathlib.Core.Bool.{false≢true}
use cs_144_minnow_tcp.Ref.{objects}
use cs_144_minnow_tcp.Assoc.{find, find-erase-here}
use cs_144_minnow_tcp.Timer
use cs_144_minnow_tcp.ByteStream.{Bytes}
use cs_144_minnow_tcp.ByteStream.Inv.{AllProper}
use cs_144_minnow_tcp.ArpTable.{EthernetAddress, Entries, lookup, add_entry}
use cs_144_minnow_tcp.ArpTable.Inv as TableInv
use cs_144_minnow_tcp.ArpMessageQueue.{PendingDatagram, Queues, has_pending, pop_pending}
use cs_144_minnow_tcp.ArpMessageQueue.Inv as QueueInv
use cs_144_minnow_tcp.Parser.{owned_all}
use cs_144_minnow_tcp.Parser.Rest.{over, over-IsValid, new_owned}
use cs_144_minnow_tcp.ByteStream.Inv.{held-zero}
use cs_144_minnow_tcp.Serializer as Serial
use cs_144_minnow_tcp.Serializer.{buffer_all, finish}
use cs_144_minnow_tcp.Ethernet.{EthernetFrame, ethernet_broadcast, type_ipv4, type_arp}
use cs_144_minnow_tcp.ArpMessage.{ArpMessage, opcode_request}
use cs_144_minnow_tcp.ArpMessage
use cs_144_minnow_tcp.ArpMessage.RoundTrip.{IsMessage, parse-serialize, supported-serialize}
use cs_144_minnow_tcp.Ipv4.{Ipv4Datagram, serialize_fields}
use cs_144_minnow_tcp.Ipv4.Datagram.{serialized_four}
use cs_144_minnow_tcp.NetworkInterface.{
  NetworkInterface, send_ipv4, send_arp_reply, reply_to, send_all, flush_pending_for, answer, learn,
  recv_arp, recv_frame, same_address,
}

-- The table finds what it has just learnt, and keeps it.
lookup-add_entry :
    (m : Entries) (ip : ℕ) (mac : EthernetAddress)
    → TableInv.IsValid m
    → lookup (add_entry m ip mac) ip ≡ (some mac, add_entry m ip mac)
unfolding lookup Timer.is_expired
lookup-add_entry m ip mac v =
    let (e, found, is, timer) = TableInv.find-add_entry m ip mac v in
    rw (found, lookup) rw timer rw is refl

-- The frame that carries a datagram: from the interface to `mac`, of type 0x0800.
abbrev pub frame_for : NetworkInterface → EthernetAddress → Ipv4Datagram → EthernetFrame
frame_for n mac d = record {
  header = record { dst = mac; src = n.ethernet_address; type = 2048 };
  payload = finish (buffer_all d.payload (serialize_fields d.header Serial.new));
}

abbrev pub frames_for :
    NetworkInterface → EthernetAddress → List (PendingDatagram Ipv4Datagram) → List EthernetFrame
frames_for n mac [] = []
frames_for n mac (p ∷ ps) = frame_for n mac p.dgram ∷ frames_for n mac ps

pub frames_for-same :
    (n : NetworkInterface) (table : Entries) (queue : Queues Ipv4Datagram) (mac : EthernetAddress)
    (ps : List (PendingDatagram Ipv4Datagram))
    → frames_for (record n { arp_table = table; arp_queue = queue }) mac ps ≡ frames_for n mac ps
frames_for-same n table queue mac [] = refl
frames_for-same n table queue mac (p ∷ ps) =
    ap (frame_for n mac p.dgram ∷◌) (frames_for-same n table queue mac ps)

-- Only such datagrams can be serialized.
abbrev pub AllFour : List (PendingDatagram Ipv4Datagram) → Type 0
AllFour [] = Unit {0}
AllFour (p ∷ ps) = (p.dgram.header.ver ≡ 4) × AllFour ps

pub send_ipv4-frame_for :
    (n : NetworkInterface) (d : Ipv4Datagram) (mac : EthernetAddress)
    → d.header.ver ≡ 4
    → send_ipv4 n d mac ≡ some (frame_for n mac d)
unfolding send_ipv4
send_ipv4-frame_for n d mac h = rw (serialized_four d h) refl

send_all-frames_for :
    (n : NetworkInterface) (mac : EthernetAddress) (ps : List (PendingDatagram Ipv4Datagram))
    → AllFour ps
    → send_all n mac ps ≡ some (frames_for n mac ps)
unfolding send_all
send_all-frames_for n mac [] a = refl
send_all-frames_for n mac (p ∷ ps) a =
    rw (send_ipv4-frame_for n p.dgram mac a.0) rw (send_all-frames_for n mac ps a.1) refl

-- The answer to a message: one frame of type 0x0806 for a request for this interface's address, else none.
abbrev answer_to : NetworkInterface → ArpMessage → ArpMessage
answer_to n msg = record {
  hardware_type = 1;
  protocol_type = 2048;
  hardware_address_size = 6;
  protocol_address_size = 4;
  opcode = 2;
  sender_ethernet_address = n.ethernet_address;
  sender_ip_address = n.ip_address.ipv4_numeric;
  target_ethernet_address = msg.sender_ethernet_address;
  target_ip_address = msg.sender_ip_address;
}

abbrev pub reply_frame : NetworkInterface → ArpMessage → EthernetFrame
reply_frame n msg = record {
  header = record { dst = msg.sender_ethernet_address; src = n.ethernet_address; type = 2054 };
  payload = finish (ArpMessage.serialize_fields (answer_to n msg) Serial.new);
}

-- A request has opcode 1.
abbrev pub asks_for : NetworkInterface → ArpMessage → Bool
asks_for n msg = msg.opcode == 1 && msg.target_ip_address == n.ip_address.ipv4_numeric

abbrev pub replies_for : NetworkInterface → ArpMessage → List EthernetFrame
replies_for n msg = if asks_for n msg then reply_frame n msg ∷ [] else []

send_arp_reply_frame :
    (n : NetworkInterface) (msg : ArpMessage) → send_arp_reply n msg ≡ some (reply_frame n msg)
unfolding send_arp_reply ArpMessage.supported
send_arp_reply_frame n msg = rw (supported-serialize (reply_to n msg) refl) refl

pub answer-replies_for :
    (n : NetworkInterface) (msg : ArpMessage) → answer n msg ≡ some (replies_for n msg)
unfolding answer
answer-replies_for n msg = elim (Bool-cases (asks_for n msg)) [
  | inl asks ↦ rw asks rw (send_arp_reply_frame n msg) refl
  | inr other ↦ rw other refl
]

-- What an ARP message does to an interface.
abbrev pub Learnt :
    NetworkInterface → ArpMessage → Option (NetworkInterface × List EthernetFrame) → Type 0
Learnt n msg result =
    let ip = msg.sender_ip_address in
    let mac = msg.sender_ethernet_address in
    (n' : NetworkInterface) × (result
      ≡ some (n', replies_for n msg ++ frames_for n mac (pop_pending n.arp_queue ip).0))
    × ((lookup n'.arp_table ip).0 ≡ some mac)
    × (n'.arp_queue ≡ (pop_pending n.arp_queue ip).1)
    × (has_pending n'.arp_queue ip ≡ false)
    × (n'.datagrams_received ≡ n.datagrams_received)

pop_clears :
    (m : Queues Ipv4Datagram) (ip : ℕ)
    → QueueInv.IsValid m
    → has_pending (pop_pending m ip).1 ip ≡ false
unfolding pop_pending has_pending
pop_clears m ip v = elim (Option-cases (find ip m)) [
  | inl missing ↦ rw (missing, pop_pending) rw (missing, has_pending) refl
  | inr found ↦
      rw (found.1, pop_pending) rw
        (find-erase-here m ip (QueueInv.IsValid-Distinct m v), has_pending) refl
]

pub learn-Learnt :
    (n : NetworkInterface) (msg : ArpMessage)
    → TableInv.IsValid n.arp_table
    → QueueInv.IsValid n.arp_queue
    → AllFour (pop_pending n.arp_queue msg.sender_ip_address).0
    → Learnt n msg (learn n msg)
unfolding learn flush_pending_for
learn-Learnt n msg v q four =
    let ip = msg.sender_ip_address in
    let mac = msg.sender_ethernet_address in
    let table = add_entry n.arp_table ip mac in
    let known = lookup-add_entry n.arp_table ip mac v in
    let n' = record n { arp_table = table } in
    let n'' = record n' { arp_queue = (pop_pending n.arp_queue ip).1 } in
    (
      n'',
      rw (answer-replies_for n' msg) rw known rw
          (send_all-frames_for n'' mac (pop_pending n.arp_queue ip).0 four)
          (ap (λ fs. some (n'', replies_for n msg ++ fs))
            (frames_for-same n table n''.arp_queue mac (pop_pending n.arp_queue ip).0)),
      ap (λ r. r.0) known,
      refl,
      pop_clears n.arp_queue ip q,
      refl,
    )

-- The member initialisers' message.
new-IsMessage : IsMessage ArpMessage.new
new-IsMessage = omega arith

either_address : (a b : Bool) → (a || b) ≡ true → (not a && not b) ≡ false
either_address true b h = refl
either_address false true h = refl
either_address false false h = elim (false≢true h) [ ]

abbrev pub IsOurs : NetworkInterface → EthernetFrame → Type 0
IsOurs n frame =
    (same_address frame.header.dst n.ethernet_address
      || same_address frame.header.dst ethernet_broadcast)
    ≡ true

recv_frame-recv_arp :
    (n : NetworkInterface) (frame : EthernetFrame)
    → IsOurs n frame
    → frame.header.type ≡ type_arp
    → recv_frame n frame ≡ recv_arp n frame.payload
unfolding recv_frame
recv_frame-recv_arp n frame ours arp =
    rw (either_address (same_address frame.header.dst n.ethernet_address) _ ours) rw
      (ap (◌== type_ipv4) arp) rw (ap (◌== type_arp) arp) refl

recv_arp-learn :
    (n : NetworkInterface) (xs : List Bytes) (msg : ArpMessage) (s : Serial.Serializer)
    (padding : Bytes)
    → AllProper xs
    → length (flatten xs) < mod64
    → IsMessage msg
    → ArpMessage.serialize msg Serial.new ≡ some s
    → flatten xs ≡ flatten (objects (finish s)) ++ padding
    → recv_arp n (owned_all xs) ≡ learn n msg
unfolding recv_arp
recv_arp-learn n xs msg s padding proper small fits sent bytes =
    let (p', got, w, d, e) =
      parse-serialize ArpMessage.new msg s (over xs) padding new-IsMessage fits sent
        (over-IsValid xs proper small) refl (held-zero xs ∙ bytes) in
    rw (new_owned xs small) rw got rw e refl

-- Let a frame for this interface, or for all, carry an ARP message and any padding in any nonempty
-- buffers, and let the table and the queue be valid and the datagrams that wait for its sender be
-- of version 4. Then recv_frame returns; the table has the sender's address; a request for this
-- interface's address, and nothing else, is answered, by an ARP reply from this interface to the
-- sender; all datagrams that waited for the sender go out to it in order, and none waits any more.
pub recv_frame-Learnt :
    (n : NetworkInterface) (frame : EthernetFrame) (xs : List Bytes) (msg : ArpMessage)
    (s : Serial.Serializer) (padding : Bytes)
    → TableInv.IsValid n.arp_table
    → QueueInv.IsValid n.arp_queue
    → AllFour (pop_pending n.arp_queue msg.sender_ip_address).0
    → IsOurs n frame
    → frame.header.type ≡ type_arp
    → frame.payload ≡ owned_all xs
    → AllProper xs
    → length (flatten xs) < mod64
    → IsMessage msg
    → ArpMessage.serialize msg Serial.new ≡ some s
    → flatten xs ≡ flatten (objects (finish s)) ++ padding
    → Learnt n msg (recv_frame n frame)
recv_frame-Learnt n frame xs msg s padding v q four ours arp owned proper small fits sent bytes =
    subst (Learnt n msg)
      (sym (
        recv_frame-recv_arp n frame ours arp
        ∙ ap (recv_arp n) owned
        ∙ recv_arp-learn n xs msg s padding proper small fits sent bytes))
      (learn-Learnt n msg v q four)
