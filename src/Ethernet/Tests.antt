-- ===== src/Ethernet/Tests.antt =====
-- Runs of the frame's parser, and its theorem at a concrete frame.
use cs_144_minnow_tcp.Base.{◌≡◌, refl, false, some, List, [], ◌∷◌, flatten, arith}
use cs_144_minnow_tcp.Ref.{Ref, objects}
use cs_144_minnow_tcp.ByteStream.{Bytes}
use cs_144_minnow_tcp.Parser.Rest.{over, over-IsValid}
use cs_144_minnow_tcp.Serializer.{
  new, finish, flush, integer, integer_loop, integers, buffer, buffer_all,
}
use cs_144_minnow_tcp.Ethernet.{
  EthernetFrame, ethernet_broadcast, type_arp, parse_frame, serialize, serialize_frame,
}
use cs_144_minnow_tcp.Ethernet.RoundTrip.{IsHeader, parse_frame-serialize_frame}

abbrev frame : EthernetFrame
frame = record {
  header = record { dst = ethernet_broadcast; src = 2 ∷ 0 ∷ 0 ∷ 0 ∷ 0 ∷ 9 ∷ []; type = type_arp };
  payload = Ref.borrowed (7 ∷ 8 ∷ []) ∷ Ref.owned [] ∷ Ref.owned (9 ∷ []) ∷ [];
}

abbrev old : EthernetFrame
old = record { header = frame.header; payload = [] }

-- The frame arrives in two buffers that split its header.
abbrev buffers : List Bytes
buffers =
    (255 ∷ 255 ∷ 255 ∷ 255 ∷ 255 ∷ 255 ∷ 2 ∷ []) ∷ (0 ∷ 0 ∷ 0 ∷ 0 ∷ 9 ∷ 8 ∷ 6 ∷ 7 ∷ 8 ∷ 9 ∷ []) ∷ []

serialized : flatten buffers ≡ flatten (objects (finish (serialize_frame frame new)))
unfolding serialize_frame serialize finish flush integer integer_loop integers buffer buffer_all
serialized = refl

header-IsHeader : IsHeader frame.header
header-IsHeader = omega arith

parse_frame-serialize_frame_example :
    (g : EthernetFrame) × (parse_frame old (over buffers) ≡ some (g, false))
    × (g.header ≡ frame.header)
    × (flatten (objects g.payload) ≡ 7 ∷ 8 ∷ 9 ∷ [])
parse_frame-serialize_frame_example =
    parse_frame-serialize_frame old frame (over buffers) header-IsHeader header-IsHeader
      (over-IsValid buffers (omega arith) (omega arith)) refl serialized
