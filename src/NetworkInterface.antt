-- ===== src/NetworkInterface.antt =====
-- src/network_interface.{hh,cc}: the bridge between IP and Ethernet. The frames that an operation
-- transmits are a list in its result, in order. `none` stands for an exception, and for what the
-- parser does not define.
pub mod Arp
pub mod Send
mod Tests
use cs_144_minnow_tcp.Base.{
  ℕ, Bool, true, false, not, ◌&&◌, ◌==◌, if◌then◌else◌, Option, none, some, List, [], ◌∷◌, ◌++◌,
  ◌>>=◌,
}
use mathlib.Core.Option.{map}
use cs_144_minnow_tcp.Ref.{Ref}
use cs_144_minnow_tcp.ByteStream.{Bytes}
use cs_144_minnow_tcp.ArpTable.{EthernetAddress, Entries}
use cs_144_minnow_tcp.ArpTable
use cs_144_minnow_tcp.ArpMessageQueue.{Address, PendingDatagram, Queues}
use cs_144_minnow_tcp.ArpMessageQueue
use cs_144_minnow_tcp.Parser
use cs_144_minnow_tcp.Serializer as Serial
use cs_144_minnow_tcp.Ethernet.{EthernetFrame, ethernet_broadcast, type_ipv4, type_arp}
use cs_144_minnow_tcp.ArpMessage.{ArpMessage, opcode_request, opcode_reply}
use cs_144_minnow_tcp.ArpMessage
use cs_144_minnow_tcp.Ipv4.{Ipv4Datagram, parse_datagram, serialize_datagram}
use cs_144_minnow_tcp.Ipv4

pub record NetworkInterface : Type 0 where
  pub ethernet_address : EthernetAddress
  pub ip_address : Address
  pub arp_table : Entries
  pub arp_queue : Queues Ipv4Datagram
  pub datagrams_received : List Ipv4Datagram
  pub initialized : Bool

unfoldable pub new : EthernetAddress → Address → NetworkInterface
new ethernet_address ip_address = record {
  ethernet_address = ethernet_address;
  ip_address = ip_address;
  arp_table = [];
  arp_queue = [];
  datagrams_received = [];
  initialized = false;
}

-- From here on a timeout of the queue calls `send_arp_request`.
abbrev pub initialize : NetworkInterface → NetworkInterface
initialize n = if n.initialized then n else record n { initialized = true }

abbrev pub make_frame : NetworkInterface → ℕ → EthernetAddress → List (Ref Bytes) → EthernetFrame
make_frame n type dst payload = record {
  header = record { dst = dst; src = n.ethernet_address; type = type };
  payload = payload;
}

-- `serialize( obj )` of util/helpers.hh, for an object that can refuse.
abbrev pub serialized : Option Serial.Serializer → Option (List (Ref Bytes))
serialized s = map Serial.finish s

unfoldable pub send_ipv4 : NetworkInterface → Ipv4Datagram → EthernetAddress → Option EthernetFrame
send_ipv4 n dgram dst =
    map (make_frame n type_ipv4 dst) (serialized (serialize_datagram dgram Serial.new))

abbrev pub request_for : NetworkInterface → Address → ArpMessage
request_for n next_hop = record ArpMessage.new {
  opcode = opcode_request;
  sender_ethernet_address = n.ethernet_address;
  sender_ip_address = n.ip_address.ipv4_numeric;
  target_ip_address = next_hop.ipv4_numeric;
}

unfoldable pub send_arp_request : NetworkInterface → Address → Option EthernetFrame
send_arp_request n next_hop =
    map (make_frame n type_arp ethernet_broadcast)
      (serialized (ArpMessage.serialize (request_for n next_hop) Serial.new))

abbrev pub reply_to : NetworkInterface → ArpMessage → ArpMessage
reply_to n request = record ArpMessage.new {
  opcode = opcode_reply;
  sender_ethernet_address = n.ethernet_address;
  sender_ip_address = n.ip_address.ipv4_numeric;
  target_ethernet_address = request.sender_ethernet_address;
  target_ip_address = request.sender_ip_address;
}

unfoldable pub send_arp_reply : NetworkInterface → ArpMessage → Option EthernetFrame
send_arp_reply n request =
    map (make_frame n type_arp request.sender_ethernet_address)
      (serialized (ArpMessage.serialize (reply_to n request) Serial.new))

-- The datagram waits; the first one for its address asks for the address.
unfoldable pub await :
    NetworkInterface → Ipv4Datagram → Address → Option (NetworkInterface × List EthernetFrame)
unfolding send_arp_request
await n dgram next_hop =
    let waiting = record n { arp_queue = ArpMessageQueue.add_pending n.arp_queue dgram next_hop } in
    if not (ArpMessageQueue.has_pending n.arp_queue next_hop.ipv4_numeric)
    then map (λ request. (waiting, request ∷ [])) (send_arp_request waiting next_hop)
    else some (waiting, [])

abbrev pub send_or_await :
    NetworkInterface
    → Ipv4Datagram
    → Address
    → Option EthernetAddress
    → Option (NetworkInterface × List EthernetFrame)
send_or_await n dgram next_hop (some mac) = map (λ frame. (n, frame ∷ [])) (send_ipv4 n dgram mac)
send_or_await n dgram next_hop none = await n dgram next_hop

unfoldable pub send_datagram :
    NetworkInterface → Ipv4Datagram → Address → Option (NetworkInterface × List EthernetFrame)
unfolding send_ipv4 await
send_datagram n dgram next_hop =
    let (mac, table) = ArpTable.lookup n.arp_table next_hop.ipv4_numeric in
    send_or_await (record n { arp_table = table }) dgram next_hop mac

-- The loop of `flush_pending_for`
unfoldable pub send_all :
    NetworkInterface
    → EthernetAddress
    → List (PendingDatagram Ipv4Datagram)
    → Option (List EthernetFrame)
unfolding send_ipv4
send_all n mac [] = some []
send_all n mac (pending ∷ rest) = do
  frame ← send_ipv4 n pending.dgram mac
  frames ← send_all n mac rest
  some (frame ∷ frames)

abbrev pub flush_to :
    NetworkInterface → ℕ → Option EthernetAddress → Option (NetworkInterface × List EthernetFrame)
flush_to n ip none = some (n, [])
flush_to n ip (some mac) =
    let (pending, queue) = ArpMessageQueue.pop_pending n.arp_queue ip in
    let n' = record n { arp_queue = queue } in
    map (λ frames. (n', frames)) (send_all n' mac pending)

unfoldable pub flush_pending_for :
    NetworkInterface → ℕ → Option (NetworkInterface × List EthernetFrame)
unfolding send_all
flush_pending_for n ip =
    let (mac, table) = ArpTable.lookup n.arp_table ip in
    flush_to (record n { arp_table = table }) ip mac

-- The answer to a request for this interface's address.
unfoldable pub answer : NetworkInterface → ArpMessage → Option (List EthernetFrame)
unfolding send_arp_reply
answer n msg =
    if msg.opcode == opcode_request && msg.target_ip_address == n.ip_address.ipv4_numeric
    then map (λ frame. frame ∷ []) (send_arp_reply n msg)
    else some []

-- The ARP case of `recv_frame`, on a message that was parsed.
unfoldable pub learn :
    NetworkInterface → ArpMessage → Option (NetworkInterface × List EthernetFrame)
unfolding answer flush_pending_for
learn n msg = do
  let table = ArpTable.add_entry n.arp_table msg.sender_ip_address msg.sender_ethernet_address
  let n' = record n { arp_table = table }
  replies ← answer n' msg
  (n'', frames) ← flush_pending_for n' msg.sender_ip_address
  some (n'', replies ++ frames)

unfoldable pub recv_arp :
    NetworkInterface → List (Ref Bytes) → Option (NetworkInterface × List EthernetFrame)
unfolding learn
recv_arp n payload = do
  p ← Parser.new payload
  (msg, p') ← ArpMessage.parse ArpMessage.new p
  if p'.error then some (n, []) else learn n msg

abbrev empty_datagram : Ipv4Datagram
empty_datagram = record { header = Ipv4.new; payload = [] }

unfoldable pub recv_ipv4 :
    NetworkInterface → List (Ref Bytes) → Option (NetworkInterface × List EthernetFrame)
recv_ipv4 n payload = do
  p ← Parser.new payload
  (dgram, error) ← parse_datagram empty_datagram p
  let received = record n { datagrams_received = n.datagrams_received ++ (dgram ∷ []) }
  some (if error then n else received, [])

-- `==` on two addresses
unfoldable pub same_address : EthernetAddress → EthernetAddress → Bool
same_address [] [] = true
same_address [] (b ∷ bs) = false
same_address (a ∷ xs) [] = false
same_address (a ∷ xs) (b ∷ bs) = a == b && same_address xs bs

unfoldable pub recv_frame :
    NetworkInterface → EthernetFrame → Option (NetworkInterface × List EthernetFrame)
unfolding same_address recv_ipv4 recv_arp
recv_frame n frame =
    if not (same_address frame.header.dst n.ethernet_address)
      && not (same_address frame.header.dst ethernet_broadcast)
    then some (n, [])
    else if frame.header.type == type_ipv4
    then recv_ipv4 n frame.payload
    else if frame.header.type == type_arp
    then recv_arp n frame.payload
    else some (n, [])

-- The requests that the queue's callback sends for the next hops it reports.
unfoldable pub request_all : NetworkInterface → List Address → Option (List EthernetFrame)
unfolding send_arp_request
request_all n [] = some []
request_all n (next_hop ∷ rest) = do
  frame ← send_arp_request n next_hop
  frames ← request_all n rest
  some (frame ∷ frames)

unfoldable pub tick : NetworkInterface → ℕ → Option (NetworkInterface × List EthernetFrame)
unfolding request_all
tick n ms =
    let (queue, reported) = ArpMessageQueue.tick n.arp_queue ms in
    let n' = record n { arp_table = ArpTable.tick n.arp_table ms; arp_queue = queue } in
    map (λ frames. (n', frames)) (if n.initialized then request_all n' reported else some [])
