-- ===== src/Ipv4/Tests.antt =====
-- Runs of the header's checksum, and the round trip of a concrete datagram.
use cs_144_minnow_tcp.Base.{◌≡◌, refl, false, some, List, [], ◌∷◌, flatten, arith}
use cs_144_minnow_tcp.Ref.{Ref, objects}
use cs_144_minnow_tcp.ByteStream.{Bytes}
use cs_144_minnow_tcp.Parser.Rest.{over, over-IsValid}
use cs_144_minnow_tcp.Serializer.{
  Serializer, finish, flush, integer, integer_loop, buffer, buffer_all,
}
use cs_144_minnow_tcp.Serializer as Serial
use cs_144_minnow_tcp.Checksum.{value, add_all, add, fold_loop}
use cs_144_minnow_tcp.Ipv4.{
  Ipv4Header, Ipv4Datagram, compute_checksum, serialize, serialize_fields, parse_datagram,
  serialize_datagram,
}
use cs_144_minnow_tcp.Ipv4
use cs_144_minnow_tcp.Ipv4.Header.{IsHeader}
use cs_144_minnow_tcp.Ipv4.Datagram.{serialized_four, parse_datagram-serialize_datagram}

-- From 10.0.0.1 to 10.0.0.2, with three bytes.
abbrev header : Ipv4Header
header = record Ipv4.new { len = 23; cksum = 59102; src = 167772161; dst = 167772162 }

abbrev datagram : Ipv4Datagram
datagram = record { header = header; payload = Ref.owned (1 ∷ 2 ∷ []) ∷ Ref.borrowed (3 ∷ []) ∷ [] }

abbrev old : Ipv4Datagram
old = record { header = Ipv4.new; payload = [] }

header-IsHeader : IsHeader header
header-IsHeader = record {
  ver_four = refl;
  hlen_five = refl;
  tos_fits = omega arith;
  len_fits = omega arith;
  id_fits = omega arith;
  offset_fits = omega arith;
  ttl_fits = omega arith;
  proto_fits = omega arith;
  cksum_fits = omega arith;
  src_fits = omega arith;
  dst_fits = omega arith;
}

checksummed : compute_checksum header ≡ some header
unfolding compute_checksum serialize finish flush integer integer_loop value add_all add fold_loop
checksummed = refl

abbrev buffers : List Bytes
buffers =
    (69 ∷ 0 ∷ 0 ∷ 23 ∷ 0 ∷ 0 ∷ 64 ∷ 0 ∷ 128 ∷ 6 ∷ 230 ∷ 222 ∷ 10 ∷ 0 ∷ 0 ∷ [])
    ∷ (1 ∷ 10 ∷ 0 ∷ 0 ∷ 2 ∷ 1 ∷ 2 ∷ 3 ∷ [])
    ∷ []

abbrev sent : Serializer
sent = buffer_all datagram.payload (serialize_fields header Serial.new)

serialized : flatten buffers ≡ flatten (objects (finish sent))
unfolding finish flush integer integer_loop buffer buffer_all
serialized = refl

parse_datagram-serialize_datagram_example :
    (g : Ipv4Datagram) × (parse_datagram old (over buffers) ≡ some (g, false))
    × (g.header ≡ header)
    × (flatten (objects g.payload) ≡ 1 ∷ 2 ∷ 3 ∷ [])
parse_datagram-serialize_datagram_example =
    parse_datagram-serialize_datagram old datagram sent (over buffers) header-IsHeader checksummed
      refl (serialized_four datagram refl) (over-IsValid buffers (omega arith) (omega arith)) refl
      serialized
