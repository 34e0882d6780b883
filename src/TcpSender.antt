-- ===== src/TcpSender.antt =====
-- src/tcp_sender.{hh,cc}: the sending half of a connection. The messages that an operation hands to
-- its `transmit` function are a list in its result, in order. `none` stands for a fault of the
-- reader, or for fuel that ran out.
pub mod Inv
pub mod Payload
pub mod Flags
pub mod Segment
pub mod Push
pub mod Ack
pub mod Acked
pub mod Receive
pub mod Tick
mod Tests
use cs_144_minnow_tcp.Base.{
  ℕ, zero, suc, ◌+◌, ◌-◌, ◌%◌, Bool, true, false, not, ◌&&◌, ◌||◌, Option, none, some, List, [],
  ◌∷◌, ◌++◌, ◌>>=◌, if◌then◌else◌, ltb, ◌==◌, min, mod32, add64, sub64, length, take, is_empty,
}
use cs_144_minnow_tcp.Wrap32.{Wrap32, plus, unwrap}
use cs_144_minnow_tcp.ByteStream.{Bytes, ByteStream, bytes_buffered, peek, pop, set_error}
use cs_144_minnow_tcp.Retransmission
use cs_144_minnow_tcp.Retransmission.{Retransmission}
use cs_144_minnow_tcp.Messages.{TcpSenderMessage, TcpReceiverMessage, bit, sequence_length}

-- `TCPConfig::MAX_PAYLOAD_SIZE`
abbrev pub max_payload_size : ℕ
max_payload_size = 1000

pub record TcpSender : Type 0 where
  pub input : ByteStream
  pub isn : Wrap32
  pub timer : Retransmission
  pub window_size : ℕ
  pub zero_window : Bool
  pub next_seqno : ℕ
  pub bytes_in_flight : ℕ
  pub syn_sent : Bool
  pub fin_sent : Bool
  pub outstanding : List TcpSenderMessage

unfoldable pub new : ByteStream → Wrap32 → ℕ → TcpSender
new input isn initial_rto_ms = record {
  input = input;
  isn = isn;
  timer = Retransmission.new initial_rto_ms;
  window_size = 1;
  zero_window = false;
  next_seqno = 0;
  bytes_in_flight = 0;
  syn_sent = false;
  fin_sent = false;
  outstanding = [];
}

-- The absolute number is cut to the uint32_t of `operator+`.
unfoldable pub make_empty_message : TcpSender → TcpSenderMessage
unfolding plus
make_empty_message s = record {
  seqno = plus s.isn (s.next_seqno % mod32);
  syn = false;
  payload = [];
  fin = false;
  rst = s.input.error;
}

-- The loop of `send_segment` that pulls payload out of the input.
unfoldable pub payload_loop : ℕ → ℕ → ByteStream → Bytes → Option (Bytes × ByteStream)
unfolding peek pop
payload_loop zero room input payload = none
payload_loop (suc fuel) room input payload =
    elim (ltb (length payload) room && not (bytes_buffered input == 0)) [
      | false ↦ some (payload, input)
      | true ↦ do
        peeked ← peek input
        let view = take (room - length payload) peeked
        input' ← pop input (length view)
        payload_loop fuel room input' (payload ++ view)
    ]

-- Every round takes a byte, so one round more than the bytes buffered is enough.
unfoldable pub pull_payload : ℕ → ByteStream → Option (Bytes × ByteStream)
unfolding payload_loop
pull_payload room input = payload_loop (suc (bytes_buffered input)) room input []

-- What is sent: the segment's flags, from the state and the input after the payload was pulled.
abbrev pub fin_fits : TcpSender → ByteStream → ℕ → ℕ → Bool
fin_fits s input size window_remaining =
    not s.fin_sent && input.closed && bytes_buffered input == 0 && ltb size window_remaining

abbrev pub record_sent : TcpSender → ByteStream → TcpSenderMessage → ℕ → TcpSender
record_sent s input msg size = record s {
  input = input;
  next_seqno = add64 s.next_seqno size;
  bytes_in_flight = add64 s.bytes_in_flight size;
  syn_sent = s.syn_sent || msg.syn;
  fin_sent = s.fin_sent || msg.fin;
  outstanding = s.outstanding ++ (msg ∷ []);
  timer = if Retransmission.is_running s.timer then s.timer else Retransmission.start s.timer;
}

-- The numbers taken by the SYN and the payload, and the segment with the FIN if it fits.
abbrev pub size_of : TcpSender → Bytes → ℕ
size_of s payload = add64 (bit (not s.syn_sent)) (length payload)

unfoldable pub segment_of : TcpSender → ℕ → Bytes → ByteStream → TcpSenderMessage
unfolding make_empty_message
segment_of s window_remaining payload input = record (make_empty_message s) {
  syn = not s.syn_sent;
  payload = payload;
  fin = fin_fits s input (size_of s payload) window_remaining;
}

-- The rest of `send_segment` once the payload is pulled: the new state, the messages and the result.
unfoldable pub finish_segment :
    TcpSender → ℕ → Bytes → ByteStream → TcpSender × List TcpSenderMessage × Bool
unfolding segment_of
finish_segment s window_remaining payload input =
    let msg = segment_of s window_remaining payload input in
    let size = add64 (size_of s payload) (bit msg.fin) in
    if size == 0
    then (record s { input = input }, [], false)
    else (record_sent s input msg size, msg ∷ [], true)

-- `window_remaining - length` runs only at `0 < window_remaining`, with `length` at most 1.
abbrev pub payload_room : TcpSender → ℕ → ℕ
payload_room s window_remaining = min (window_remaining - bit (not s.syn_sent)) max_payload_size

unfoldable pub send_segment : TcpSender → ℕ → Option (TcpSender × List TcpSenderMessage × Bool)
unfolding pull_payload finish_segment
send_segment s window_remaining = if window_remaining == 0 then some (s, [], false) else (do
  (payload, input) ← pull_payload (payload_room s window_remaining) s.input
  some (finish_segment s window_remaining payload input))

-- The loop of `push`; `sent` is what was transmitted before.
unfoldable pub push_loop :
    ℕ → ℕ → TcpSender → List TcpSenderMessage → Option (TcpSender × List TcpSenderMessage)
unfolding send_segment
push_loop zero right_edge s sent = none
push_loop (suc fuel) right_edge s sent = elim (ltb s.next_seqno right_edge && not s.fin_sent) [
  | false ↦ some (s, sent)
  | true ↦ do
    (s', msgs, more) ← send_segment s (right_edge - s.next_seqno)
    elim more [
      | false ↦ some (s', sent ++ msgs)
      | true ↦ push_loop fuel right_edge s' (sent ++ msgs)
    ]
]

abbrev pub effective_window : TcpSender → ℕ
effective_window s = if s.zero_window then 1 else s.window_size

abbrev pub right_edge : TcpSender → ℕ
right_edge s = add64 (sub64 s.next_seqno s.bytes_in_flight) (effective_window s)

-- Every round but the last sends a sequence number of the window.
unfoldable pub push : TcpSender → Option (TcpSender × List TcpSenderMessage)
unfolding push_loop
push s = push_loop (suc (effective_window s)) (right_edge s) s []

-- The loop of `receive` over the outstanding segments.
unfoldable pub ack_loop :
    ℕ → Wrap32 → ℕ → List TcpSenderMessage → ℕ → Bool → List TcpSenderMessage × ℕ × Bool
ack_loop abs_ackno isn next_seqno [] flight acked = ([], flight, acked)
ack_loop abs_ackno isn next_seqno (seg ∷ rest) flight acked =
    let seg_end = add64 (unwrap seg.seqno isn next_seqno) (sequence_length seg) in
    let next = ack_loop abs_ackno isn next_seqno rest (sub64 flight (sequence_length seg)) true in
    if ltb abs_ackno seg_end then (seg ∷ rest, flight, acked) else next

-- The timer after an acknowledgment of something new.
abbrev pub restart_timer : Retransmission → List TcpSenderMessage → Retransmission
restart_timer timer outstanding =
    let fresh = Retransmission.reset_backoff timer in
    if is_empty outstanding then Retransmission.stop fresh else Retransmission.start fresh

abbrev pub record_acked : TcpSender → List TcpSenderMessage × ℕ × Bool → TcpSender
record_acked s (outstanding, flight, acked) = record s {
  outstanding = outstanding;
  bytes_in_flight = flight;
  timer = if acked then restart_timer s.timer outstanding else s.timer;
}

unfoldable pub take_ack : TcpSender → Option Wrap32 → TcpSender
unfolding ack_loop
take_ack s none = s
take_ack s (some ackno) =
    let abs_ackno = unwrap ackno s.isn s.next_seqno in
    if ltb s.next_seqno abs_ackno
    then s
    else record_acked s
        (ack_loop abs_ackno s.isn s.next_seqno s.outstanding s.bytes_in_flight false)

abbrev pub abort : TcpSender → TcpSender
abort s = record s {
  outstanding = [];
  bytes_in_flight = 0;
  timer = Retransmission.stop s.timer;
  input = set_error s.input;
}

abbrev pub note_window : TcpSender → ℕ → TcpSender
note_window s window_size = record s { zero_window = window_size == 0; window_size = window_size }

unfoldable pub receive : TcpSender → TcpReceiverMessage → TcpSender
unfolding take_ack
receive s msg = if msg.rst then abort s else take_ack (note_window s msg.window_size) msg.ackno

-- The retransmission of `tick`.
abbrev pub retransmit : TcpSender → List TcpSenderMessage → TcpSender × List TcpSenderMessage
retransmit s [] = (s, [])
retransmit s (seg ∷ rest) = (
  record s {
    timer =
        Retransmission.start
          (if not s.zero_window then Retransmission.record_retransmission s.timer else s.timer);
  },
  seg ∷ [],
)

unfoldable pub tick : TcpSender → ℕ → TcpSender × List TcpSenderMessage
tick s ms =
    let s' = record s { timer = Retransmission.tick s.timer ms } in
    if not (Retransmission.is_expired s'.timer) || is_empty s'.outstanding
    then (s', [])
    else retransmit s' s'.outstanding
