-- ===== src/MinnowSocket/Tests.antt =====
-- The theorems of the socket at a new socket, and at one with inbound bytes.
use cs_144_minnow_tcp.Base.{◌≡◌, ◌≤◌, refl, true, false, some, List, [], ◌∷◌, ◌++◌, length, arith}
use cs_144_minnow_tcp.Ref.{Ref}
use cs_144_minnow_tcp.ByteStream
use cs_144_minnow_tcp.ByteStream.{Bytes, ByteStream, available_capacity}
use cs_144_minnow_tcp.ByteStream.Inv as StreamInv
use cs_144_minnow_tcp.ByteStream.Inv.{contents}
use cs_144_minnow_tcp.TcpSender
use cs_144_minnow_tcp.TcpSender.Inv
use cs_144_minnow_tcp.TcpPeer
use cs_144_minnow_tcp.TcpPeer.{TcpConfig}
use cs_144_minnow_tcp.TcpOverIp
use cs_144_minnow_tcp.TcpOverIp.{FdAdapterConfig}
use cs_144_minnow_tcp.MinnowSocket.{
  MinnowSocket, initialized, with_inbound, inbound, outbound, push_bytes,
}
use cs_144_minnow_tcp.MinnowSocket.Delivery.{deliver_all, deliver_all_in_order}
use cs_144_minnow_tcp.MinnowSocket.Sending.{Sent, push_bytes_carries}

abbrev config : TcpConfig
config = record {
  rt_timeout = 1000;
  recv_capacity = 64000;
  send_capacity = 64000;
  isn = record { raw_value = 137 };
}

abbrev ends : FdAdapterConfig
ends = record {
  source = record { ipv4_numeric = 167772161; port = 5000 };
  destination = record { ipv4_numeric = 167772162; port = 80 };
  loss_rate_dn = 0;
  loss_rate_up = 0;
}

abbrev fresh : MinnowSocket
fresh = initialized TcpOverIp.new config ends

-- Three bytes have arrived.
abbrev arrived : ByteStream
arrived = record {
  capacity = 8;
  segments = (4 ∷ 5 ∷ []) ∷ (6 ∷ []) ∷ [];
  skip_in_front = 0;
  bytes_pushed = 3;
  bytes_popped = 0;
  closed = false;
  error = false;
}

arrived-IsValid : StreamInv.IsValid arrived
arrived-IsValid = omega arith

fresh-IsValid : Inv.IsValid fresh.tcp.sender
unfolding TcpPeer.new
fresh-IsValid =
    Inv.new-IsValid (ByteStream.new 64000) (record { raw_value = 137 }) 1000
      (StreamInv.new-IsValid 64000 (omega arith)) (omega arith)

fresh_start : (fresh.tcp.sender.next_seqno ≡ 0) × (available_capacity (outbound fresh) ≡ 64000)
unfolding TcpPeer.new TcpSender.new ByteStream.new
fresh_start = (refl, refl)

-- The owner's socket accepts one byte of two, and then all that it is shown.
deliver_all_in_order_example :
    (s' : MinnowSocket) × (written : Bytes) × (deliver_all
        (1 ∷ 9 ∷ 9 ∷ [])
        (with_inbound fresh arrived)
      ≡ some (s', written))
    × StreamInv.IsValid (inbound s')
    × (4 ∷ 5 ∷ 6 ∷ [] ≡ written ++ contents (inbound s'))
    × (3 ≤ length written)
deliver_all_in_order_example =
    deliver_all_in_order (with_inbound fresh arrived) (1 ∷ 9 ∷ 9 ∷ []) arrived-IsValid
      (omega arith, (omega arith, (omega arith, tt)))

push_bytes_carries_example :
    (s' : MinnowSocket) × (out : List (List (Ref Bytes))) × (push_bytes fresh (7 ∷ 8 ∷ []) true
      ≡ some (s', out))
    × Sent fresh (7 ∷ 8 ∷ []) true s' out
push_bytes_carries_example =
    push_bytes_carries fresh (7 ∷ 8 ∷ []) true fresh-IsValid (omega (arith, fresh_start.0))
      (omega (arith, fresh_start.1))
