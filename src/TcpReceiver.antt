-- ===== src/TcpReceiver.antt =====
-- src/tcp_receiver.{hh,cc}: the receiving half of a connection.
pub mod Cases
pub mod Accept
pub mod Receive
pub mod Decode
pub mod Reset
pub mod Send
mod Tests
use cs_144_minnow_tcp.Base.{
  ℕ, ◌%◌, Bool, true, false, not, Option, none, some, if◌then◌else◌, min, mod16, add64, sub64,
}
use cs_144_minnow_tcp.Wrap32.{Wrap32, wrap, unwrap}
use cs_144_minnow_tcp.ByteStream
use cs_144_minnow_tcp.ByteStream.{available_capacity}
use cs_144_minnow_tcp.Reassembler.{Reassembler, insert}
use cs_144_minnow_tcp.Messages.{TcpSenderMessage, TcpReceiverMessage, bit}

pub record TcpReceiver : Type 0 where
  pub reassembler : Reassembler
  pub isn : Option Wrap32

abbrev pub new : Reassembler → TcpReceiver
new reassembler = record { reassembler = reassembler; isn = none }

-- `Reassembler::set_error` and `Reassembler::close`
abbrev pub set_error : Reassembler → Reassembler
set_error r = record r { output = ByteStream.set_error r.output }

abbrev pub close : Reassembler → Reassembler
close r = record r { output = ByteStream.close r.output }

-- The index in the stream of the first byte of the payload; the SYN occupies number 0.
unfoldable pub stream_index : Wrap32 → ℕ → TcpSenderMessage → ℕ
stream_index isn checkpoint msg =
    let abs_seqno = unwrap msg.seqno isn checkpoint in
    if msg.syn then abs_seqno else sub64 abs_seqno 1

-- The end of `receive`, once the initial sequence number is known.
unfoldable pub accept : Reassembler → Wrap32 → TcpSenderMessage → TcpReceiver
accept r isn msg =
    let checkpoint = r.output.bytes_pushed in
    record {
      reassembler = insert r (stream_index isn checkpoint msg) msg.payload msg.fin;
      isn = some isn;
    }

unfoldable pub receive_from : Option Wrap32 → TcpReceiver → TcpSenderMessage → TcpReceiver
unfolding accept
receive_from none t msg = if not msg.syn then t else accept t.reassembler msg.seqno msg
receive_from (some isn) t msg = accept t.reassembler isn msg

unfoldable pub receive : TcpReceiver → TcpSenderMessage → TcpReceiver
unfolding receive_from
receive t msg =
    if msg.rst
    then record t { reassembler = close (set_error t.reassembler) }
    else receive_from t.isn t msg

-- `static_cast<uint16_t>( min( available_capacity(), UINT16_MAX ) )`
unfoldable pub window_size : Reassembler → ℕ
window_size r = min (available_capacity r.output) 65535 % mod16

-- The absolute number of the next byte, or of what follows the FIN.
unfoldable pub next_seqno : Reassembler → ℕ
next_seqno r = add64 (add64 1 r.output.bytes_pushed) (bit r.output.closed)

unfoldable pub ackno : Reassembler → Option Wrap32 → Option Wrap32
ackno r none = none
ackno r (some isn) = some (wrap (next_seqno r) isn)

unfoldable pub send : TcpReceiver → TcpReceiverMessage
unfolding window_size ackno
send t =
    if t.reassembler.output.error
    then record { ackno = none; window_size = 0; rst = true }
    else record {
      ackno = ackno t.reassembler t.isn;
      window_size = window_size t.reassembler;
      rst = false;
    }
