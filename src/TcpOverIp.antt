-- ===== src/TcpOverIp.antt =====
-- util/tcp_over_ip.{hh,cc}, util/fd_adapter.hh, FdAdapterConfig of util/tcp_config.hh,
-- util/tuntap_adapter.cc and util/lossy_fd_adapter.hh: segments in IPv4 datagrams. The tunnel device
-- is the strings that are read from it and the buffers that are written to it; the random numbers
-- and the address that inet_ntoa and the resolver give back are parameters. `none` stands for an
-- exception of a parser or a serializer.
pub mod Wrapped
mod Tests
use cs_144_minnow_tcp.Base.{
  ℕ, ◌+◌, ◌*◌, ◌%◌, Bool, true, false, not, ◌&&◌, ◌||◌, Option, none, some, List, [], ◌>>=◌, ltb,
  ◌==◌, if◌then◌else◌, length, mod16,
}
use mathlib.Core.Option.{map}
use cs_144_minnow_tcp.Ref.{Ref}
use cs_144_minnow_tcp.ByteStream.{Bytes}
use cs_144_minnow_tcp.Parser.{owned_all}
use cs_144_minnow_tcp.Parser
use cs_144_minnow_tcp.Serializer.{finish}
use cs_144_minnow_tcp.Serializer as Serial
use cs_144_minnow_tcp.Messages.{TcpSenderMessage, TcpReceiverMessage}
use cs_144_minnow_tcp.Ipv4.{
  Ipv4Header, Ipv4Datagram, proto_tcp, pseudo_checksum, parse_datagram, serialize_datagram,
}
use cs_144_minnow_tcp.Ipv4
use cs_144_minnow_tcp.TcpSegment.{TcpMessage, UserDatagramInfo, TcpSegment}
use cs_144_minnow_tcp.TcpSegment

-- An `Address` with its port.
pub record Endpoint : Type 0 where
  pub ipv4_numeric : ℕ
  pub port : ℕ

pub record FdAdapterConfig : Type 0 where
  pub source : Endpoint
  pub destination : Endpoint
  pub loss_rate_dn : ℕ
  pub loss_rate_up : ℕ

-- `FdAdapterBase`
pub record FdAdapter : Type 0 where
  pub cfg : FdAdapterConfig
  pub listen : Bool

abbrev any_address : Endpoint
any_address = record { ipv4_numeric = 0; port = 0 }

-- The member initialisers
abbrev pub new : FdAdapter
new = record {
  cfg = record {
    source = any_address;
    destination = any_address;
    loss_rate_dn = 0;
    loss_rate_up = 0;
  };
  listen = false;
}

abbrev pub set_listening : Bool → FdAdapter → FdAdapter
set_listening l a = record a { listen = l }

-- A segment as `TCPSegment tcp_seg;` leaves it: `parse` sets what is not initialised before it is
-- used, or fails.
abbrev pub empty_segment : TcpSegment
empty_segment = record {
  message = record {
    sender = record {
      seqno = record { raw_value = 0 };
      syn = false;
      payload = [];
      fin = false;
      rst = false;
    };
    receiver = record { ackno = none; window_size = 0; rst = false };
  };
  udinfo = record { src_port = 0; dst_port = 0; cksum = 0 };
}

-- The last test of `unwrap_tcp_in_ip`
abbrev pub from_peer : FdAdapter → TcpSegment → FdAdapter × Option TcpMessage
from_peer a seg =
    if not (seg.udinfo.src_port == a.cfg.destination.port) then (a, none) else (a, some seg.message)

-- The tests of the datagram's header
abbrev pub is_unrelated : FdAdapter → Ipv4Header → Bool
is_unrelated a header =
    (not a.listen && not (header.dst == a.cfg.source.ipv4_numeric))
    || ((not a.listen && not (header.src == a.cfg.destination.ipv4_numeric))
        || not (header.proto == proto_tcp))

module _ (resolve : ℕ → ℕ) where
  -- The adapter of a listener that takes the sender of a datagram for its peer.
  abbrev pub connect : FdAdapter → Ipv4Header → ℕ → FdAdapter
  connect a header src_port = record {
    cfg = record a.cfg {
      source = record { ipv4_numeric = resolve header.dst; port = a.cfg.source.port };
      destination = record { ipv4_numeric = resolve header.src; port = src_port };
    };
    listen = false;
  }

  -- `unwrap_tcp_in_ip` on a segment that was parsed
  unfoldable pub accept : FdAdapter → Ipv4Header → TcpSegment → FdAdapter × Option TcpMessage
  accept a header seg =
      if not (seg.udinfo.dst_port == a.cfg.source.port)
      then (a, none)
      else if a.listen
      then if seg.message.sender.syn && not seg.message.sender.rst
        then from_peer (connect a header seg.udinfo.src_port) seg
        else (a, none)
      else from_peer a seg

  unfoldable pub unwrap_tcp_in_ip :
      FdAdapter → Ipv4Datagram → Option (FdAdapter × Option TcpMessage)
  unfolding accept
  unwrap_tcp_in_ip a dgram = if is_unrelated a dgram.header then some (a, none) else do
    p ← Parser.new dgram.payload
    (seg, failed) ← TcpSegment.parse empty_segment (pseudo_checksum dgram.header) p
    some (if failed then (a, none) else accept a dgram.header seg)

  abbrev empty_datagram : Ipv4Datagram
  empty_datagram = record { header = Ipv4.new; payload = [] }

  -- `TCPOverIPv4OverTunFdAdapter::read`, on the strings that the tunnel gave
  unfoldable pub read : FdAdapter → List Bytes → Option (FdAdapter × Option TcpMessage)
  unfolding unwrap_tcp_in_ip
  read a strs = do
    p ← Parser.new (owned_all strs)
    (dgram, failed) ← parse_datagram empty_datagram p
    if failed then some (a, none) else unwrap_tcp_in_ip a dgram

-- The segment of a message with the adapter's ports
abbrev pub addressed : FdAdapter → TcpMessage → TcpSegment
addressed a msg = record {
  message = msg;
  udinfo = record { src_port = a.cfg.source.port; dst_port = a.cfg.destination.port; cksum = 0 };
}

-- The header that `wrap_tcp_in_ip` starts from; its length is cut to a uint16_t.
abbrev pub header_of : FdAdapter → TcpMessage → Ipv4Header
header_of a msg = record Ipv4.new {
  src = a.cfg.source.ipv4_numeric;
  dst = a.cfg.destination.ipv4_numeric;
  len = (5 * 4 + 20 + length msg.sender.payload) % mod16;
}

unfoldable pub wrap_tcp_in_ip : FdAdapter → TcpMessage → Option Ipv4Datagram
wrap_tcp_in_ip a msg = do
  seg ← TcpSegment.compute_checksum (addressed a msg) (pseudo_checksum (header_of a msg))
  header ← Ipv4.compute_checksum (header_of a msg)
  some (record { header = header; payload = finish (TcpSegment.serialize seg Serial.new) })

-- `TCPOverIPv4OverTunFdAdapter::write`: the buffers that go to the tunnel
unfoldable pub write : FdAdapter → TcpMessage → Option (List (Ref Bytes))
unfolding wrap_tcp_in_ip
write a msg = do dgram ← wrap_tcp_in_ip a msg; map finish (serialize_datagram dgram Serial.new)

-- `LossyFdAdapter::_should_drop`; `draw` is what the random engine gives.
unfoldable pub should_drop : FdAdapter → Bool → ℕ → Bool
should_drop a uplink draw =
    let loss = if uplink then a.cfg.loss_rate_up else a.cfg.loss_rate_dn in
    not (loss == 0) && ltb (draw % mod16) loss

-- `LossyFdAdapter::read` and `write`
unfoldable pub lossy_read :
    (ℕ → ℕ) → FdAdapter → List Bytes → ℕ → Option (FdAdapter × Option TcpMessage)
unfolding read should_drop
lossy_read resolve a strs draw = do
  (a', ret) ← read resolve a strs
  some (if should_drop a' false draw then (a', none) else (a', ret))

unfoldable pub lossy_write : FdAdapter → TcpMessage → ℕ → Option (List (Ref Bytes))
unfolding write should_drop
lossy_write a msg draw = if should_drop a true draw then some [] else write a msg
