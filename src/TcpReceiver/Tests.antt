-- ===== src/TcpReceiver/Tests.antt =====
-- The theorems of the receiver at concrete segments.
use mathlib.Core.Option.{some-injective}
use cs_144_minnow_tcp.Base.{
  none, subst, ℕ, ◌+◌, ◌≤◌, ◌≡◌, ◌==◌, ◌&&◌, ◌||◌, refl, true, false, some, [], ◌∷◌, arith, ltb,
}
use cs_144_minnow_tcp.Wrap32.{Wrap32, IsWord, wrap, unwrap, distance}
use cs_144_minnow_tcp.ByteStream.{ByteStream}
use cs_144_minnow_tcp.Reassembler.{insert}
use cs_144_minnow_tcp.Reassembler.Segments.{inside}
use cs_144_minnow_tcp.Reassembler.Flush.{window_end}
use cs_144_minnow_tcp.Reassembler.Insert.{received}
use cs_144_minnow_tcp.Messages.{TcpSenderMessage}
use cs_144_minnow_tcp.TcpReceiver.{TcpReceiver, receive, send}
use cs_144_minnow_tcp.TcpReceiver.Accept.{IsValid}
use cs_144_minnow_tcp.TcpReceiver.Receive.{Received, receive-Received}
use cs_144_minnow_tcp.TcpReceiver.Decode.{receive-decodes, invalid_fin-closes}
use cs_144_minnow_tcp.TcpReceiver.Reset.{receive_each, send_after_reset}
use cs_144_minnow_tcp.TcpReceiver.Send.{send-ackno, send-window}

abbrev isn : Wrap32
isn = record { raw_value = 4294967290 }

abbrev stream : ByteStream
stream = record {
  capacity = 8;
  segments = (1 ∷ 2 ∷ []) ∷ [];
  skip_in_front = 0;
  bytes_pushed = 2;
  bytes_popped = 0;
  closed = false;
  error = false;
}

-- Two bytes have been received after the SYN.
abbrev connected : TcpReceiver
connected = record {
  reassembler = record { output = stream; pending = []; end_index = 0; eof_seen = false };
  isn = some isn;
}

abbrev reset : TcpSenderMessage
reset = record { seqno = isn; syn = false; payload = []; fin = false; rst = true }

abbrev segment : TcpSenderMessage
segment = record { seqno = wrap 4 isn; syn = false; payload = 4 ∷ 5 ∷ []; fin = false; rst = false }

abbrev bad_fin : TcpSenderMessage
bad_fin = record { seqno = isn; syn = false; payload = 7 ∷ 8 ∷ 9 ∷ []; fin = true; rst = false }

connected-IsValid : IsValid connected
connected-IsValid = record {
  reassembler_valid = record { output_valid = omega arith; in_range = omega arith; apart = tt };
  isn_word = λ z e. subst IsWord (some-injective isn z e) (omega arith);
}

receive-Received_example : Received connected bad_fin (receive connected bad_fin)
receive-Received_example =
    receive-Received connected bad_fin connected-IsValid (omega arith) (omega arith)

receive-decodes_example :
    (receive connected segment
      ≡ record { reassembler = insert connected.reassembler 3 (4 ∷ 5 ∷ []) false; isn = some isn })
    × ((i : ℕ)
        → received (receive connected segment).reassembler i ≡ (
            received connected.reassembler i
            || (inside 3 (4 ∷ 5 ∷ []) i && ltb i (window_end connected.reassembler.output))))
unfolding distance
receive-decodes_example =
    receive-decodes connected isn 4 segment connected-IsValid refl (omega arith) (omega arith)
      (omega arith) refl refl refl

invalid_fin-closes_example :
    ((receive connected bad_fin).reassembler.output.closed ≡ true)
    × ((receive connected bad_fin).reassembler.output.bytes_pushed ≡ 2)
    × ((i : ℕ)
        → received (receive connected bad_fin).reassembler i ≡ received connected.reassembler i)
invalid_fin-closes_example =
    invalid_fin-closes connected isn bad_fin connected-IsValid refl (omega arith) refl refl refl
      refl refl

send-ackno_example :
    (a : Wrap32) × ((send connected).ackno ≡ some a)
    × (unwrap a isn 9 ≡ 3)
    × (received connected.reassembler 2 ≡ false)
unfolding distance
send-ackno_example =
    send-ackno connected isn 9 connected-IsValid refl refl (omega arith) (omega arith) (omega arith)

send-window_example :
    ((send connected).window_size ≤ 65535)
    × (2 + (send connected).window_size ≤ 8)
    × (((send connected).window_size == 0) ≡ false)
send-window_example = send-window connected connected-IsValid

send_after_reset_example :
    send (receive_each (receive connected reset) (segment ∷ bad_fin ∷ []))
    ≡ record { ackno = none; window_size = 0; rst = true }
send_after_reset_example = send_after_reset connected reset (segment ∷ bad_fin ∷ []) refl
