-- ===== src/Ethernet.antt =====
-- util/ethernet_header.{hh,cc} and util/ethernet_frame.hh. The strings that `to_string` prints are
-- not modelled.
pub mod RoundTrip
mod Tests
use cs_144_minnow_tcp.Base.{ℕ, Bool, Option, List, [], ◌∷◌}
use mathlib.Core.Option.{map}
use cs_144_minnow_tcp.Ref.{Ref}
use cs_144_minnow_tcp.ByteStream.{Bytes}
use cs_144_minnow_tcp.ArpTable.{EthernetAddress}
use cs_144_minnow_tcp.Parser.{Parser, Parse, all_remaining}
use cs_144_minnow_tcp.Parser
use cs_144_minnow_tcp.Parser.Chain.{◌>>=◌, return, ending, integers}
use cs_144_minnow_tcp.Serializer.{Serializer, buffer_all}
use cs_144_minnow_tcp.Serializer as Serial

abbrev pub ethernet_broadcast : EthernetAddress
ethernet_broadcast = 255 ∷ 255 ∷ 255 ∷ 255 ∷ 255 ∷ 255 ∷ []

abbrev pub type_ipv4 : ℕ
type_ipv4 = 2048

abbrev pub type_arp : ℕ
type_arp = 2054

pub record EthernetHeader : Type 0 where
  pub dst : EthernetAddress
  pub src : EthernetAddress
  pub type : ℕ

-- `EthernetHeader::parse` and `EthernetHeader::serialize`
unfoldable pub parse : EthernetHeader → Parse EthernetHeader
parse h = do
  dst ← integers h.dst
  src ← integers h.src
  type ← Parser.integer 2 h.type
  return (record { dst = dst; src = src; type = type })

unfoldable pub serialize : EthernetHeader → Serializer → Serializer
serialize h s = Serial.integer 2 h.type (Serial.integers h.src (Serial.integers h.dst s))

pub record EthernetFrame : Type 0 where
  pub header : EthernetHeader
  pub payload : List (Ref Bytes)

-- `EthernetFrame::parse`, and the parser's error flag after it
unfoldable pub parse_frame : EthernetFrame → Parser → Option (EthernetFrame × Bool)
unfolding parse
parse_frame f =
    ending (parse f.header)
      (λ header p. map (λ payload. record { header = header; payload = payload }) (all_remaining p))

-- `EthernetFrame::serialize`
unfoldable pub serialize_frame : EthernetFrame → Serializer → Serializer
unfolding serialize
serialize_frame f s = buffer_all f.payload (serialize f.header s)
