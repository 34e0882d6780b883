-- ===== src/TcpPeer/Tests.antt =====
-- A run of a peer, and its theorem at a new peer that receives a SYN.
use cs_144_minnow_tcp.Base.{◌≡◌, refl, true, false, none, some, List, [], ◌∷◌, arith}
use cs_144_minnow_tcp.Reassembler
use cs_144_minnow_tcp.ByteStream
use cs_144_minnow_tcp.ByteStream.{is_finished}
use cs_144_minnow_tcp.ByteStream.Inv as StreamInv
use cs_144_minnow_tcp.TcpSender
use cs_144_minnow_tcp.TcpSender.Inv
use cs_144_minnow_tcp.TcpReceiver
use cs_144_minnow_tcp.TcpSegment.{TcpMessage}
use cs_144_minnow_tcp.TcpPeer.{TcpConfig, TcpPeer, new, active, receive}
use cs_144_minnow_tcp.TcpPeer.Reply.{Replied, receive-Replied}

abbrev config : TcpConfig
config = record {
  rt_timeout = 1000;
  recv_capacity = 64000;
  send_capacity = 64000;
  isn = record { raw_value = 137 };
}

-- A SYN with two bytes
abbrev opening : TcpMessage
opening = record {
  sender = record {
    seqno = record { raw_value = 100 };
    syn = true;
    payload = 7 ∷ 8 ∷ [];
    fin = false;
    rst = false;
  };
  receiver = record { ackno = none; window_size = 1000; rst = false };
}

new-active : active (new config) ≡ true
unfolding active new TcpSender.new is_finished TcpReceiver.new Reassembler.new ByteStream.new
new-active = refl

sender-IsValid : TcpSender.Inv.IsValid (new config).sender
unfolding new
sender-IsValid =
    Inv.new-IsValid (ByteStream.new 64000) (record { raw_value = 137 }) 1000
      (StreamInv.new-IsValid 64000 (omega arith)) (omega arith)

start_far : (new config).sender.next_seqno ≡ 0
unfolding new TcpSender.new
start_far = refl

receive-Replied_example :
    (p' : TcpPeer) × (out : List TcpMessage) × (receive (new config) opening ≡ some (p', out))
    × Replied (new config) opening p' out
receive-Replied_example =
    receive-Replied (new config) opening new-active sender-IsValid (omega (arith, start_far))
      (omega arith) (omega arith)
