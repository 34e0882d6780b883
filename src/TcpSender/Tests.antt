-- ===== src/TcpSender/Tests.antt =====
-- Runs of the sender, and its theorems at a sender with two outstanding segments.
use cs_144_minnow_tcp.Base.{◌≡◌, refl, Bool, true, false, some, List, [], ◌∷◌, arith}
use cs_144_minnow_tcp.Wrap32.{Wrap32, wrap}
use cs_144_minnow_tcp.ByteStream.{ByteStream}
use cs_144_minnow_tcp.Retransmission
use cs_144_minnow_tcp.Timer
use cs_144_minnow_tcp.Retransmission.{Retransmission}
use cs_144_minnow_tcp.Messages.{TcpSenderMessage, TcpReceiverMessage}
use cs_144_minnow_tcp.TcpSender.{TcpSender, send_segment, push, receive, tick}
use cs_144_minnow_tcp.TcpSender.Inv.{IsValid}
use cs_144_minnow_tcp.TcpSender.Segment.{Outcome, send_segment-Outcome}
use cs_144_minnow_tcp.TcpSender.Push.{Filled, push-Filled}
use cs_144_minnow_tcp.TcpSender.Receive.{Handled, receive-Handled, receive_all}
use cs_144_minnow_tcp.TcpSender.Tick.{Ticked, tick-Ticked}

abbrev isn : Wrap32
isn = record { raw_value = 4294967290 }

abbrev first : TcpSenderMessage
first = record { seqno = wrap 1 isn; syn = false; payload = 1 ∷ 2 ∷ []; fin = false; rst = false }

abbrev second : TcpSenderMessage
second = record { seqno = wrap 3 isn; syn = false; payload = 3 ∷ []; fin = false; rst = false }

-- Three bytes wait, and the stream ends after them.
abbrev stream : ByteStream
stream = record {
  capacity = 8;
  segments = (4 ∷ 5 ∷ 6 ∷ []) ∷ [];
  skip_in_front = 0;
  bytes_pushed = 6;
  bytes_popped = 3;
  closed = true;
  error = false;
}

abbrev running : Retransmission
running = record {
  initial_rto_ms = 1000;
  timer = record { timeout_ms = 1000; elapsed_ms = 700; running = true };
  consecutive_retransmissions = 0;
}

abbrev sender : TcpSender
sender = record {
  input = stream;
  isn = isn;
  timer = running;
  window_size = 20;
  zero_window = false;
  next_seqno = 4;
  bytes_in_flight = 3;
  syn_sent = true;
  fin_sent = false;
  outstanding = first ∷ second ∷ [];
}

sender-IsValid : IsValid sender
sender-IsValid = record {
  input_valid = omega arith;
  isn_word = omega arith;
  next_fits = omega arith;
  flight_le = omega arith;
  flight_small = omega arith;
  chain = (refl, omega arith, omega arith, (refl, omega arith, omega arith, refl));
  window_fits = omega arith;
  zero_noted = refl;
  syn_first = refl;
  timer_runs = refl;
}

-- The message acknowledges the first segment.
abbrev partial : TcpReceiverMessage
partial = record { ackno = some (wrap 3 isn); window_size = 9; rst = false }

tick_retransmits : (tick sender 300).1 ≡ first ∷ []
unfolding tick Retransmission.tick Retransmission.is_expired Timer.tick Timer.is_expired
tick_retransmits = refl

send_segment-Outcome_example :
    (r : TcpSender × List TcpSenderMessage × Bool) × (send_segment sender 2 ≡ some r)
    × Outcome sender 2 r
send_segment-Outcome_example =
    send_segment-Outcome sender 2 sender-IsValid (omega arith) (omega arith) (omega arith)

push-Filled_example :
    (s' : TcpSender) × (msgs : List TcpSenderMessage) × (push sender ≡ some (s', msgs))
    × Filled sender 21 s' msgs
push-Filled_example = push-Filled sender sender-IsValid (omega arith)

receive-Handled_example :
    IsValid (receive sender partial) × Handled sender partial (receive sender partial)
receive-Handled_example = receive-Handled sender partial sender-IsValid (omega arith)

receive_all_example :
    let s' = receive sender (record { ackno = some (wrap 4 isn); window_size = 9; rst = false }) in
    (s'.outstanding ≡ []) × (s'.bytes_in_flight ≡ 0) × (Retransmission.is_running s'.timer ≡ false)
receive_all_example = receive_all sender 9 sender-IsValid (omega arith)

tick-Ticked_example : Ticked sender 300 (tick sender 300).0 (tick sender 300).1
tick-Ticked_example = tick-Ticked sender 300 sender-IsValid
