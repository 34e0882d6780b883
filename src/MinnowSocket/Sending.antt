-- ===== src/MinnowSocket/Sending.antt =====
-- The bytes that come from the owner's socket.
use cs_144_minnow_tcp.Base.{
  ◌+◌, ◌-◌, ◌≤◌, ◌<◌, ◌≡◌, refl, ap, sym, ◌∙◌, Bool, true, false, ◌||◌, some, List, ◌++◌, arith,
  length, take_all, is_empty, if◌then◌else◌, mod64,
}
use cs_144_minnow_tcp.Ref.{Ref}
use cs_144_minnow_tcp.ByteStream.{Bytes, ByteStream, available_capacity}
use cs_144_minnow_tcp.ByteStream
use cs_144_minnow_tcp.ByteStream.Inv as StreamInv
use cs_144_minnow_tcp.ByteStream.Inv.{contents}
use cs_144_minnow_tcp.ByteStream.Ops.{Pushed, push-Pushed}
use cs_144_minnow_tcp.Messages.{TcpSenderMessage}
use cs_144_minnow_tcp.TcpSender.{TcpSender}
use cs_144_minnow_tcp.TcpSender.Inv
use cs_144_minnow_tcp.TcpSender.Push.{Filled, window_of, payloads, push-Filled}
use cs_144_minnow_tcp.TcpReceiver
use cs_144_minnow_tcp.TcpPeer.{TcpPeer, push}
use cs_144_minnow_tcp.TcpPeer.Halves.{with_half, send_each-with_half}
use cs_144_minnow_tcp.MinnowSocket.{
  MinnowSocket, outbound, with_outbound, close_outbound, transmitted, push_bytes,
}
use cs_144_minnow_tcp.MinnowSocket.Written.{AllWritten, write_all-AllWritten}

-- The peer fills the window from the outbound stream of `x`, and each segment is written to the
-- tunnel with the receiver's half.
record Flushed (x : MinnowSocket) (s' : MinnowSocket) (sent : List TcpSenderMessage)
    (out : List (List (Ref Bytes))) : Type 0 where
  filled :
      Filled x.tcp.sender
        (x.tcp.sender.next_seqno - x.tcp.sender.bytes_in_flight + window_of x.tcp.sender)
        s'.tcp.sender
        sent
  written : AllWritten x.adapter (with_half (TcpReceiver.send x.tcp.receiver) sent) out
  received : s'.tcp.receiver ≡ x.tcp.receiver
  owed : s'.tcp.need_send ≡ (if is_empty sent then x.tcp.need_send else false)
  shutdown : s'.outbound_shutdown ≡ x.outbound_shutdown

transmitted-Flushed :
    (x : MinnowSocket)
    → Inv.IsValid x.tcp.sender
    → x.tcp.sender.next_seqno + 65536 < mod64
    → (s' : MinnowSocket) × (sent : List TcpSenderMessage) × (out : List (List (Ref Bytes)))
      × (transmitted x (push x.tcp) ≡ some (s', out))
      × Flushed x s' sent out
unfolding push
transmitted-Flushed x v far =
    let (sender, sent, e, filled) = push-Filled x.tcp.sender v far in
    let msgs = with_half (TcpReceiver.send x.tcp.receiver) sent in
    let p : TcpPeer = record x.tcp {
      sender = sender;
      need_send = if is_empty sent then x.tcp.need_send else false;
    } in
    let (out, all, written) = write_all-AllWritten x.adapter msgs in
    (
      record x { tcp = p },
      sent,
      out,
      rw e (
          ap (λ r. transmitted x (some r))
            (send_each-with_half (record x.tcp { sender = sender }) sent)
          ∙ rw all refl),
      record { filled = filled; written = written; received = refl; owed = refl; shutdown = refl },
    )

with_input :
    (s : TcpSender) (input : ByteStream)
    → Inv.IsValid s
    → StreamInv.IsValid input
    → Inv.IsValid (record s { input = input })
with_input s input v i = record {
  input_valid = i;
  isn_word = v.isn_word;
  next_fits = v.next_fits;
  flight_le = v.flight_le;
  flight_small = v.flight_small;
  chain = v.chain;
  window_fits = v.window_fits;
  zero_noted = v.zero_noted;
  syn_first = v.syn_first;
  timer_runs = v.timer_runs;
}

module _ (s : MinnowSocket) (data_read : Bytes) (v : Inv.IsValid s.tcp.sender)
    (room : length data_read ≤ available_capacity (outbound s)) where
  abbrev filled : ByteStream
  filled = ByteStream.push (outbound s) data_read

  all_pushed : Pushed (outbound s) data_read filled
  all_pushed =
      push-Pushed (outbound s) data_read v.input_valid
        (omega (arith, room, v.input_valid.capacity_fits))

  filled_bytes : contents (outbound s) ++ data_read ≡ contents filled
  filled_bytes =
      ap (contents (outbound s) ++◌)
        (sym (take_all (available_capacity (outbound s)) data_read room))
      ∙ sym all_pushed.bytes

-- What `push_bytes` gives for the bytes read and the end of the owner's stream: a stream with the
-- bytes appended, closed if it ended, from which the peer fills the window; each segment is written
-- to the tunnel with the receiver's half.
pub record Sent (s : MinnowSocket) (data_read : Bytes) (eof : Bool) (s' : MinnowSocket)
    (out : List (List (Ref Bytes))) : Type 0 where
  pub stream : ByteStream
  pub sent : List TcpSenderMessage
  pub appended : contents stream ≡ contents (outbound s) ++ data_read
  pub ended : stream.closed ≡ (eof || (outbound s).closed)
  pub filled :
      Filled
        (record s.tcp.sender { input = stream })
        (s.tcp.sender.next_seqno - s.tcp.sender.bytes_in_flight + window_of s.tcp.sender)
        s'.tcp.sender
        sent
  pub written : AllWritten s.adapter (with_half (TcpReceiver.send s.tcp.receiver) sent) out
  pub bytes : contents (outbound s) ++ data_read ≡ payloads sent ++ contents (outbound s')
  pub closed : (outbound s').closed ≡ (eof || (outbound s).closed)
  pub received : s'.tcp.receiver ≡ s.tcp.receiver
  pub owed : s'.tcp.need_send ≡ (if is_empty sent then s.tcp.need_send else false)
  pub shutdown : s'.outbound_shutdown ≡ (eof || s.outbound_shutdown)

-- For a socket whose sender is valid and far from 2 ^ 64, and bytes read from its owner that fit
-- the outbound stream, push_bytes returns: the bytes are appended to the stream, which is closed at
-- the end of the owner's, and the sender fills the window from it; what is written to the tunnel
-- are exactly the sender's segments, in order, each with the receiver's half. The bytes that they
-- carry and then those still in the stream are what it held and then the bytes read, and the end of
-- the owner's stream is noted.
pub push_bytes_carries :
    (s : MinnowSocket) (data_read : Bytes) (eof : Bool)
    → Inv.IsValid s.tcp.sender
    → s.tcp.sender.next_seqno + 65536 < mod64
    → length data_read ≤ available_capacity (outbound s)
    → (s' : MinnowSocket) × (out : List (List (Ref Bytes))) × (push_bytes s data_read eof
        ≡ some (s', out))
      × Sent s data_read eof s' out
unfolding push_bytes
push_bytes_carries s data_read true v far room =
    let stream = filled s data_read v room in
    let done = StreamInv.close-IsValid stream (all_pushed s data_read v room).valid in
    let appended = filled_bytes s data_read v room in
    let (s', sent, out, e, c) =
      transmitted-Flushed (close_outbound (with_outbound s stream))
        (with_input s.tcp.sender (ByteStream.close stream) v done) far in
    (
      s',
      out,
      e,
      record {
        stream = ByteStream.close stream;
        sent = sent;
        appended = sym appended;
        ended = refl;
        filled = c.filled;
        written = c.written;
        bytes = appended ∙ c.filled.bytes;
        closed = c.filled.closed;
        received = c.received;
        owed = c.owed;
        shutdown = c.shutdown;
      },
    )
push_bytes_carries s data_read false v far room =
    let stream = filled s data_read v room in
    let pushed = all_pushed s data_read v room in
    let appended = filled_bytes s data_read v room in
    let (s', sent, out, e, c) =
      transmitted-Flushed (with_outbound s stream) (with_input s.tcp.sender stream v pushed.valid)
        far in
    (
      s',
      out,
      e,
      record {
        stream = stream;
        sent = sent;
        appended = sym appended;
        ended = pushed.same_closed;
        filled = c.filled;
        written = c.written;
        bytes = appended ∙ c.filled.bytes;
        closed = c.filled.closed ∙ pushed.same_closed;
        received = c.received;
        owed = c.owed;
        shutdown = c.shutdown;
      },
    )
