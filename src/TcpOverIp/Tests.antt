-- ===== src/TcpOverIp/Tests.antt =====
-- Runs of the adapter, and its theorem at a SYN that reaches a listener.
use cs_144_minnow_tcp.Base.{◌≡◌, refl, true, false, none, some, [], ◌∷◌, arith, inr}
use cs_144_minnow_tcp.Ref.{Ref}
use cs_144_minnow_tcp.ByteStream.{Bytes}
use cs_144_minnow_tcp.Parser.{owned_all}
use cs_144_minnow_tcp.Serializer.{finish, flush, integer, integer_loop, buffer_string}
use cs_144_minnow_tcp.Checksum.{value, add_all, add, fold_loop}
use cs_144_minnow_tcp.Ipv4.{Ipv4Datagram, pseudo_checksum, payload_length}
use cs_144_minnow_tcp.Ipv4
use cs_144_minnow_tcp.TcpSegment.{TcpMessage}
use cs_144_minnow_tcp.TcpSegment
use cs_144_minnow_tcp.TcpOverIp.{
  FdAdapter, Endpoint, new, wrap_tcp_in_ip, unwrap_tcp_in_ip, should_drop,
}
use cs_144_minnow_tcp.TcpOverIp.Wrapped.{FitsDatagram, Hears, unwrap_tcp_in_ip-wrap_tcp_in_ip}

abbrev client : Endpoint
client = record { ipv4_numeric = 167772161; port = 5000 }

abbrev server : Endpoint
server = record { ipv4_numeric = 167772162; port = 80 }

abbrev sending : FdAdapter
sending = record new { cfg = record new.cfg { source = client; destination = server } }

abbrev listening : FdAdapter
listening = record {
  cfg = record new.cfg { source = record { ipv4_numeric = 0; port = 80 } };
  listen = true;
}

abbrev opening : TcpMessage
opening = record {
  sender = record {
    seqno = record { raw_value = 100 };
    syn = true;
    payload = 7 ∷ 8 ∷ [];
    fin = false;
    rst = false;
  };
  receiver = record { ackno = none; window_size = 1000; rst = false };
}

abbrev head : Bytes
head =
    19 ∷ 136 ∷ 0 ∷ 80 ∷ 0 ∷ 0 ∷ 0 ∷ 100 ∷ 0 ∷ 0 ∷ 0 ∷ 0 ∷ 80 ∷ 2 ∷ 3 ∷ 232 ∷ 124 ∷ 178 ∷ 0 ∷ 0 ∷ []

abbrev datagram : Ipv4Datagram
datagram = record {
  header = record Ipv4.new { len = 42; cksum = 59083; src = 167772161; dst = 167772162 };
  payload = Ref.owned head ∷ Ref.owned (7 ∷ 8 ∷ []) ∷ [];
}

wraps : wrap_tcp_in_ip sending opening ≡ some datagram
unfolding wrap_tcp_in_ip pseudo_checksum payload_length TcpSegment.compute_checksum
    TcpSegment.serialize Ipv4.compute_checksum Ipv4.serialize finish flush integer integer_loop
    buffer_string value add_all add fold_loop
wraps = refl

opening-FitsDatagram : FitsDatagram sending opening
opening-FitsDatagram = (
  record {
    src_fits = omega arith;
    dst_fits = omega arith;
    seqno_fits = omega arith;
    ackno_fits = omega arith;
    window_fits = omega arith;
    payload_fits = omega arith;
  },
  omega arith,
  omega arith,
  omega arith,
)

listening-Hears : Hears listening sending opening
listening-Hears = inr (refl, refl, refl, refl)

-- A rate of 0 never drops; a draw below the rate does.
drops :
    should_drop (record sending { cfg = record sending.cfg { loss_rate_up = 9 } }) true 65540 ≡ true
unfolding should_drop
drops = refl

unwrap_tcp_in_ip-wrap_tcp_in_ip_example :
    unwrap_tcp_in_ip
      (λ ip. ip)
      listening
      (record datagram { payload = owned_all (head ∷ (7 ∷ 8 ∷ []) ∷ []) })
    ≡ some (
      record { cfg = record new.cfg { source = server; destination = client }; listen = false },
      some opening,
    )
unwrap_tcp_in_ip-wrap_tcp_in_ip_example =
    unwrap_tcp_in_ip-wrap_tcp_in_ip (λ ip. ip) sending listening opening datagram
      (head ∷ (7 ∷ 8 ∷ []) ∷ []) opening-FitsDatagram listening-Hears wraps (omega arith)
      (omega arith) refl
