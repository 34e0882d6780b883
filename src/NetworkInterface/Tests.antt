-- ===== src/NetworkInterface/Tests.antt =====
-- The theorems of the interface at an interface with a datagram that waits.
use cs_144_minnow_tcp.Base.{◌≡◌, refl, true, false, some, List, [], ◌∷◌, ◌++◌, flatten, arith}
use cs_144_minnow_tcp.Assoc.{find}
use cs_144_minnow_tcp.Ref.{Ref, objects}
use cs_144_minnow_tcp.ByteStream.{Bytes}
use cs_144_minnow_tcp.Parser.{owned_all}
use cs_144_minnow_tcp.Serializer.{finish, flush, integer, integer_loop, integers}
use cs_144_minnow_tcp.Serializer as Serial
use cs_144_minnow_tcp.ArpTable.{EthernetAddress}
use cs_144_minnow_tcp.ArpMessageQueue.{Address, has_pending, pop_pending}
use cs_144_minnow_tcp.ArpMessageQueue.Inv as QueueInv
use cs_144_minnow_tcp.Ethernet.{EthernetFrame, type_arp}
use cs_144_minnow_tcp.ArpMessage.{ArpMessage, opcode_reply, serialize, supported}
use cs_144_minnow_tcp.ArpMessage
use cs_144_minnow_tcp.ArpMessage.RoundTrip.{IsMessage, supported-serialize}
use cs_144_minnow_tcp.Ipv4.{Ipv4Datagram}
use cs_144_minnow_tcp.Ipv4
use cs_144_minnow_tcp.NetworkInterface.{
  NetworkInterface, send_datagram, learn, recv_frame, same_address,
}
use cs_144_minnow_tcp.NetworkInterface.Arp.{Learnt, IsOurs, AllFour, frame_for, recv_frame-Learnt}
use cs_144_minnow_tcp.NetworkInterface.Send.{awaiting, request_frame, send-learn}

abbrev ours : EthernetAddress
ours = 2 ∷ 0 ∷ 0 ∷ 0 ∷ 0 ∷ 1 ∷ []

abbrev theirs : EthernetAddress
theirs = 2 ∷ 0 ∷ 0 ∷ 0 ∷ 0 ∷ 2 ∷ []

abbrev neighbour : Address
neighbour = record { ipv4_numeric = 167772162 }

abbrev datagram : Ipv4Datagram
datagram = record {
  header = record Ipv4.new { len = 23; src = 167772161; dst = 167772162 };
  payload = Ref.owned (1 ∷ 2 ∷ 3 ∷ []) ∷ [];
}

abbrev interface : NetworkInterface
interface = record {
  ethernet_address = ours;
  ip_address = record { ipv4_numeric = 167772161 };
  arp_table = [];
  arp_queue = [];
  datagrams_received = [];
  initialized = true;
}

-- A datagram for the neighbour has waited for 900 ms.
abbrev waiting : NetworkInterface
waiting = record interface {
  arp_queue =
      (
        167772162,
        record {
          dgram = datagram;
          next_hop = neighbour;
          timer = record { timeout_ms = 5000; elapsed_ms = 900; running = true };
        }
            ∷ [],
      )
      ∷ [];
}

-- The neighbour's answer
abbrev answer : ArpMessage
answer = record ArpMessage.new {
  opcode = opcode_reply;
  sender_ethernet_address = theirs;
  sender_ip_address = 167772162;
  target_ethernet_address = ours;
  target_ip_address = 167772161;
}

-- Its bytes, and two bytes of padding
abbrev buffers : List Bytes
buffers =
    (0 ∷ 1 ∷ 8 ∷ 0 ∷ 6 ∷ 4 ∷ 0 ∷ 2 ∷ 2 ∷ 0 ∷ 0 ∷ 0 ∷ 0 ∷ 2 ∷ 10 ∷ 0 ∷ 0 ∷ 2 ∷ 2 ∷ 0 ∷ 0 ∷ 0 ∷ 0 ∷ 1
      ∷ 10 ∷ 0 ∷ 0 ∷ 1 ∷ 0 ∷ 0 ∷ [])
    ∷ []

abbrev frame : EthernetFrame
frame = record {
  header = record { dst = ours; src = theirs; type = type_arp };
  payload = owned_all buffers;
}

waiting-IsValid : QueueInv.IsValid waiting.arp_queue
unfolding find
waiting-IsValid = (refl, (refl, refl, omega arith, refl), tt)

four : AllFour (pop_pending waiting.arp_queue 167772162).0
unfolding pop_pending find
four = (refl, tt)

for_us : IsOurs waiting frame
unfolding same_address
for_us = refl

answer-IsMessage : IsMessage answer
answer-IsMessage = omega arith

known : supported answer ≡ true
unfolding supported
known = refl

serialized :
    flatten buffers
    ≡ flatten (objects (finish (ArpMessage.serialize_fields answer Serial.new))) ++ (0 ∷ 0 ∷ [])
unfolding finish flush integer integer_loop integers
serialized = refl

recv_frame-Learnt_example : Learnt waiting answer (recv_frame waiting frame)
recv_frame-Learnt_example =
    recv_frame-Learnt waiting frame buffers answer (ArpMessage.serialize_fields answer Serial.new)
      (0 ∷ 0 ∷ []) tt waiting-IsValid four for_us refl refl (omega arith) (omega arith)
      answer-IsMessage (supported-serialize answer known) serialized

send-learn_example :
    (send_datagram interface datagram neighbour
      ≡ some (awaiting interface datagram neighbour, request_frame interface neighbour ∷ []))
    × (n' : NetworkInterface) × (learn (awaiting interface datagram neighbour) answer
        ≡ some (n', frame_for interface theirs datagram ∷ []))
    × (has_pending n'.arp_queue 167772162 ≡ false)
unfolding find has_pending pop_pending
send-learn_example = send-learn interface datagram neighbour answer tt tt refl refl tt refl
