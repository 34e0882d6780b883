-- ===== src/Ipv4.antt =====
-- util/ipv4_header.{hh,cc} and util/ipv4_datagram.hh. The string that `to_string` prints is not
-- modelled. `none` stands for an exception, and for what the parser does not define.
pub mod Header
pub mod Datagram
pub mod Checksummed
mod Tests
use cs_144_minnow_tcp.Base.{
  ℕ, ◌+◌, ◌-◌, ◌*◌, ◌/◌, ◌%◌, ◌^◌, Bool, true, false, not, ◌==◌, if◌then◌else◌, Option, none, some,
  List, ltb, mod16, add32,
}
use cs_144_minnow_tcp.Base
use mathlib.Core.Option.{map}
use cs_144_minnow_tcp.Ref.{Ref, objects}
use cs_144_minnow_tcp.ByteStream.{Bytes}
use cs_144_minnow_tcp.Parser.{
  Parser, Parse, has_error, set_error, remove_prefix, truncate, all_remaining,
}
use cs_144_minnow_tcp.Parser
use cs_144_minnow_tcp.Parser.Chain.{◌>>=◌, ◌>>◌, return, lift, ending}
use cs_144_minnow_tcp.Serializer.{Serializer, buffer_all, finish}
use cs_144_minnow_tcp.Serializer as Serial
use cs_144_minnow_tcp.Checksum.{add_all, value}
use cs_144_minnow_tcp.Checksum

-- `IPv4Header::LENGTH`
abbrev pub header_length : ℕ
header_length = 20

abbrev pub proto_tcp : ℕ
proto_tcp = 6

pub record Ipv4Header : Type 0 where
  pub ver : ℕ
  pub hlen : ℕ
  pub tos : ℕ
  pub len : ℕ
  pub id : ℕ
  pub df : Bool
  pub mf : Bool
  pub offset : ℕ
  pub ttl : ℕ
  pub proto : ℕ
  pub cksum : ℕ
  pub src : ℕ
  pub dst : ℕ

-- A header as its member initialisers leave it.
abbrev pub new : Ipv4Header
new = record {
  ver = 4;
  hlen = 5;
  tos = 0;
  len = 0;
  id = 0;
  df = true;
  mf = false;
  offset = 0;
  ttl = 128;
  proto = proto_tcp;
  cksum = 0;
  src = 0;
  dst = 0;
}

-- `IPv4Header::payload_length`, cut to its uint16_t
unfoldable pub payload_length : Ipv4Header → ℕ
payload_length h = (h.len + mod16 - 4 * h.hlen) % mod16

-- `IPv4Header::pseudo_checksum`
unfoldable pub pseudo_checksum : Ipv4Header → ℕ
unfolding payload_length
pseudo_checksum h =
    add32
      (add32 (add32 (h.src / 2 ^ 16 + h.src % 2 ^ 16) (h.dst / 2 ^ 16 + h.dst % 2 ^ 16)) h.proto)
      (payload_length h)

-- The fields that share a byte or a word: the operands of `|` have no bit in common.
abbrev pub first_byte : Ipv4Header → ℕ
first_byte h = (h.ver * 2 ^ 4 + h.hlen % 2 ^ 4) % 2 ^ 8

abbrev pub fo_val : Ipv4Header → ℕ
fo_val h = (if h.df then 16384 else 0) + (if h.mf then 8192 else 0) + h.offset % 2 ^ 13

abbrev pub serialize_fields : Ipv4Header → Serializer → Serializer
serialize_fields h s = Serial.integer 4 h.dst (
    Serial.integer 4 h.src (
      Serial.integer 2 h.cksum (
        Serial.integer 1 h.proto (
          Serial.integer 1 h.ttl (
            Serial.integer 2 (fo_val h) (
              Serial.integer 2 h.id (
                Serial.integer 2 h.len
                  (Serial.integer 1 h.tos (Serial.integer 1 (first_byte h) s)))))))))

-- `IPv4Header::serialize`
unfoldable pub serialize : Ipv4Header → Serializer → Option Serializer
serialize h s = if not (h.ver == 4) then none else some (serialize_fields h s)

-- `IPv4Header::compute_checksum`
unfoldable pub compute_checksum : Ipv4Header → Option Ipv4Header
unfolding serialize add_all value
compute_checksum h =
    let cleared = record h { cksum = 0 } in
    Base.◌>>=◌ (serialize cleared Serial.new) (λ s.
      map (λ cksum. record cleared { cksum = cksum })
        (value (add_all (Checksum.new 0) (objects (finish s)))))

-- The end of `IPv4Header::parse`, on a header whose version and length are right
unfoldable pub verify : Ipv4Header → Parse Ipv4Header
verify h = do
  computed ← lift (compute_checksum h)
  if not (computed.cksum == h.cksum) then set_error >> return computed else return computed

-- `if ( bad ) parser.set_error();`
abbrev pub set_error_if : Bool → Parse (Unit {0})
set_error_if bad = if bad then set_error else return tt

-- `IPv4Header::parse` after its fields
unfoldable pub check : Ipv4Header → Parse Ipv4Header
check h = do
  set_error_if (not (h.ver == 4))
  set_error_if (ltb h.hlen 5)
  failed ← has_error
  if failed then return h else (remove_prefix (h.hlen * 4 - header_length) >> verify h)

-- `IPv4Header::parse`
unfoldable pub parse : Ipv4Header → Parse Ipv4Header
parse h = do
  first ← Parser.integer 1 0
  tos ← Parser.integer 1 h.tos
  len ← Parser.integer 2 h.len
  id ← Parser.integer 2 h.id
  fo ← Parser.integer 2 0
  ttl ← Parser.integer 1 h.ttl
  proto ← Parser.integer 1 h.proto
  cksum ← Parser.integer 2 h.cksum
  src ← Parser.integer 4 h.src
  dst ← Parser.integer 4 h.dst
  check (record {
    ver = first / 2 ^ 4;
    hlen = first % 2 ^ 4;
    tos = tos;
    len = len;
    id = id;
    df = fo / 2 ^ 14 % 2 == 1;
    mf = fo / 2 ^ 13 % 2 == 1;
    offset = fo % 2 ^ 13;
    ttl = ttl;
    proto = proto;
    cksum = cksum;
    src = src;
    dst = dst;
  })

pub record Ipv4Datagram : Type 0 where
  pub header : Ipv4Header
  pub payload : List (Ref Bytes)

-- `IPv4Datagram::parse`, and the parser's error flag after it
unfoldable pub parse_datagram : Ipv4Datagram → Parser → Option (Ipv4Datagram × Bool)
parse_datagram d =
    ending (do header ← parse d.header; truncate (payload_length header); return header)
      (λ header p. map (λ payload. record { header = header; payload = payload }) (all_remaining p))

-- `IPv4Datagram::serialize`
unfoldable pub serialize_datagram : Ipv4Datagram → Serializer → Option Serializer
serialize_datagram d s = map (buffer_all d.payload) (serialize d.header s)
