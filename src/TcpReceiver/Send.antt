-- ===== src/TcpReceiver/Send.antt =====
-- What `send` tells the peer.
use cs_144_minnow_tcp.Base.{
  ◌==◌, ◌||◌, ℕ, ◌+◌, ◌^◌, ◌≤◌, ◌<◌, ◌≡◌, ap, ◌∙◌, false, some, arith, mod64,
}
use cs_144_minnow_tcp.Wrap32.{Wrap32, wrap, unwrap, distance}
use cs_144_minnow_tcp.Wrap32.Nearest.{unwrap-wrap}
use cs_144_minnow_tcp.ByteStream.{available_capacity}
use cs_144_minnow_tcp.Reassembler.{Reassembler}
use cs_144_minnow_tcp.Reassembler.Flush.{window_end}
use cs_144_minnow_tcp.Reassembler.Insert.{received, received_next}
use cs_144_minnow_tcp.Messages.{bit, bit_le}
use cs_144_minnow_tcp.TcpReceiver.{TcpReceiver, next_seqno, ackno, window_size, send}
use cs_144_minnow_tcp.TcpReceiver.Accept.{IsValid}

-- The window that a valid receiver advertises fits in 16 bits and in the reassembler's window, and
-- is zero exactly when an error is set or no room is left.
pub send-window :
    (t : TcpReceiver)
    → IsValid t
    → let w = (send t).window_size in
      (w ≤ 65535)
      × (t.reassembler.output.bytes_pushed + w ≤ window_end t.reassembler.output)
      × ((w == 0) ≡ (t.reassembler.output.error || available_capacity t.reassembler.output == 0))
unfolding send window_size
send-window t v = ground arith

next_seqno_lem :
    (r : Reassembler)
    → r.output.bytes_pushed + 2 < mod64
    → next_seqno r ≡ 1 + r.output.bytes_pushed + bit r.output.closed
unfolding next_seqno
next_seqno_lem r h = omega (arith, bit_le r.output.closed)

send_ackno_known :
    (t : TcpReceiver) (z : Wrap32)
    → t.isn ≡ some z
    → t.reassembler.output.error ≡ false
    → (send t).ackno ≡ some (wrap (next_seqno t.reassembler) z)
unfolding send ackno
send_ackno_known t z known fine = ground arith

-- For a valid receiver with a known initial sequence number, no error and fewer than 2 ^ 64 - 2
-- bytes, the ackno decodes, for a checkpoint within half a round, to the number after the SYN, the
-- bytes delivered and the FIN if closed, and the next byte has not been received.
pub send-ackno :
    (t : TcpReceiver) (z : Wrap32) (checkpoint : ℕ)
    → IsValid t
    → t.isn ≡ some z
    → t.reassembler.output.error ≡ false
    → t.reassembler.output.bytes_pushed + 2 < mod64
    → checkpoint < mod64
    → let next = 1 + t.reassembler.output.bytes_pushed + bit t.reassembler.output.closed in
      distance checkpoint next < 2 ^ 31
      → (a : Wrap32) × ((send t).ackno ≡ some a)
        × (unwrap a z checkpoint ≡ next)
        × (received t.reassembler t.reassembler.output.bytes_pushed ≡ false)
send-ackno t z c v known fine room hc near =
    let at = next_seqno_lem t.reassembler room in
    (
      wrap (next_seqno t.reassembler) z,
      send_ackno_known t z known fine,
      ap (λ n. unwrap (wrap n z) z c) at
          ∙ unwrap-wrap _ z c (v.isn_word z known)
              (omega (arith, bit_le t.reassembler.output.closed)) hc near,
      received_next t.reassembler v.reassembler_valid,
    )
