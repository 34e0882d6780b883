-- ===== src/TcpPeer.antt =====
-- util/tcp_peer.hh and the TCPConfig of util/tcp_config.hh: a connection, made of a sender and a
-- receiver. The messages that an operation hands to its `transmit` function are a list in its
-- result, in order.
pub mod Reply
pub mod Halves
mod Tests
use cs_144_minnow_tcp.Base.{
  ℕ, ◌*◌, Bool, true, false, not, ◌&&◌, ◌||◌, Option, none, some, List, [], ◌∷◌, ◌++◌, ◌>>=◌,
  if◌then◌else◌, ltb, ◌==◌, is_empty, add64, mul64,
}
use cs_144_minnow_tcp.Wrap32.{Wrap32, plus, same}
use cs_144_minnow_tcp.ByteStream
use cs_144_minnow_tcp.ByteStream.{is_finished}
use cs_144_minnow_tcp.Reassembler
use cs_144_minnow_tcp.Messages.{TcpSenderMessage, TcpReceiverMessage, sequence_length}
use cs_144_minnow_tcp.TcpSender
use cs_144_minnow_tcp.TcpSender.{TcpSender, make_empty_message}
use cs_144_minnow_tcp.TcpReceiver
use cs_144_minnow_tcp.TcpReceiver.{TcpReceiver}
use cs_144_minnow_tcp.TcpSegment.{TcpMessage}

-- `TCPConfig`
pub record TcpConfig : Type 0 where
  pub rt_timeout : ℕ
  pub recv_capacity : ℕ
  pub send_capacity : ℕ
  pub isn : Wrap32

pub record TcpPeer : Type 0 where
  pub cfg : TcpConfig
  pub sender : TcpSender
  pub receiver : TcpReceiver
  pub need_send : Bool
  pub linger_after_streams_finish : Bool
  pub cumulative_time : ℕ
  pub time_of_last_receipt : ℕ

unfoldable pub new : TcpConfig → TcpPeer
new cfg = record {
  cfg = cfg;
  sender = TcpSender.new (ByteStream.new cfg.send_capacity) cfg.isn cfg.rt_timeout;
  receiver = TcpReceiver.new (Reassembler.new (ByteStream.new cfg.recv_capacity));
  need_send = false;
  linger_after_streams_finish = true;
  cumulative_time = 0;
  time_of_last_receipt = 0;
}

abbrev pub has_ackno : TcpPeer → Bool
has_ackno p = elim (TcpReceiver.send p.receiver).ackno [ none ↦ false | some ackno ↦ true ]

-- `active`, with its four local variables.
abbrev pub any_errors : TcpPeer → Bool
any_errors p = p.receiver.reassembler.output.error || p.sender.input.error

abbrev pub sender_active : TcpPeer → Bool
sender_active p = not (p.sender.bytes_in_flight == 0) || not (is_finished p.sender.input)

abbrev pub receiver_active : TcpPeer → Bool
receiver_active p = not p.receiver.reassembler.output.closed

abbrev pub lingering : TcpPeer → Bool
lingering p =
    p.linger_after_streams_finish
    && ltb p.cumulative_time (add64 p.time_of_last_receipt (mul64 10 p.cfg.rt_timeout))

unfoldable pub active : TcpPeer → Bool
active p = not (any_errors p) && (sender_active p || receiver_active p || lingering p)

-- `TCPPeer::send`
abbrev pub send : TcpPeer → TcpSenderMessage → TcpPeer × List TcpMessage
send p msg = (
  record p { need_send = false },
  record { sender = msg; receiver = TcpReceiver.send p.receiver } ∷ [],
)

-- What `make_send` does with each message of the sender.
unfoldable pub send_each : TcpPeer → List TcpSenderMessage → TcpPeer × List TcpMessage
send_each p [] = (p, [])
send_each p (msg ∷ msgs) =
    let (p', sent) = send p msg in let (p'', more) = send_each p' msgs in (p'', sent ++ more)

-- The sender's messages do not depend on what `send` does to the peer.
unfoldable pub push : TcpPeer → Option (TcpPeer × List TcpMessage)
unfolding send_each
push p = do
  (sender, msgs) ← TcpSender.push p.sender
  some (send_each (record p { sender = sender }) msgs)

unfoldable pub tick : TcpPeer → ℕ → TcpPeer × List TcpMessage
unfolding send_each
tick p t =
    let (sender, msgs) = TcpSender.tick p.sender t in
    send_each (record p { cumulative_time = add64 p.cumulative_time t; sender = sender }) msgs

-- A segment just below the ackno
abbrev pub keep_alive : TcpPeer → TcpSenderMessage → Bool
keep_alive p msg = elim (TcpReceiver.send p.receiver).ackno [
  | none ↦ false
  | some our_ackno ↦ same (plus msg.seqno 1) our_ackno
]

-- `receive` up to its reply: the two halves of the message are handed on.
abbrev pub take_message : TcpPeer → TcpMessage → TcpPeer
take_message p msg = record p {
  time_of_last_receipt = p.cumulative_time;
  need_send = p.need_send || not (sequence_length msg.sender == 0) || keep_alive p msg.sender;
  receiver = TcpReceiver.receive p.receiver msg.sender;
  sender = TcpSender.receive p.sender msg.receiver;
}

abbrev pub reply : TcpPeer → TcpPeer × List TcpMessage
reply p = if p.need_send then send p (make_empty_message p.sender) else (p, [])

abbrev pub stop_lingering : TcpPeer → TcpPeer
stop_lingering p =
    if p.receiver.reassembler.output.closed && not (is_finished p.sender.input)
    then record p { linger_after_streams_finish = false }
    else p

unfoldable pub receive : TcpPeer → TcpMessage → Option (TcpPeer × List TcpMessage)
receive p msg = if not (active p) then some (p, []) else (do
  (p', sent) ← push (take_message p msg)
  let (p'', answer) = reply p'
  some (stop_lingering p'', sent ++ answer))
