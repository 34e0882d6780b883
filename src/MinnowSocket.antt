-- ===== src/MinnowSocket.antt =====
-- util/tcp_minnow_socket_impl.hh: the event handlers of a TCPMinnowSocket over a tunnel, and what its
-- loop does between two events. What the system gives is an argument: the strings read from the
-- tunnel, the bytes read from the owner's socket, whether that is at its end, and how many bytes it
-- accepts. The buffers written to the tunnel are a list in the result, one entry for each datagram.
-- The event loop's choice of a handler, the threads and the messages on cerr are not modelled.
pub mod Written
pub mod Delivery
pub mod Sending
mod Tests
use cs_144_minnow_tcp.Base.{
  ℕ, Bool, true, false, not, ◌&&◌, ◌||◌, Option, none, some, List, [], ◌∷◌, ◌>>=◌, ltb, ◌==◌,
  if◌then◌else◌, length, take, min,
}
use cs_144_minnow_tcp.Ref.{Ref}
use cs_144_minnow_tcp.ByteStream
use cs_144_minnow_tcp.ByteStream.{
  Bytes, ByteStream, available_capacity, bytes_buffered, is_finished, peek, pop,
}
use cs_144_minnow_tcp.TcpSegment.{TcpMessage}
use cs_144_minnow_tcp.TcpPeer
use cs_144_minnow_tcp.TcpPeer.{TcpConfig, TcpPeer, active, has_ackno}
use cs_144_minnow_tcp.TcpOverIp.{FdAdapter, FdAdapterConfig, read, write}

pub record MinnowSocket : Type 0 where
  pub tcp : TcpPeer
  pub adapter : FdAdapter
  pub inbound_shutdown : Bool
  pub outbound_shutdown : Bool
  pub fully_acked : Bool

-- `outbound_writer` and `inbound_reader` of the peer
abbrev pub outbound : MinnowSocket → ByteStream
outbound s = s.tcp.sender.input

abbrev pub inbound : MinnowSocket → ByteStream
inbound s = s.tcp.receiver.reassembler.output

abbrev pub with_outbound : MinnowSocket → ByteStream → MinnowSocket
with_outbound s stream = record s {
  tcp = record s.tcp { sender = record s.tcp.sender { input = stream } };
}

abbrev pub with_inbound : MinnowSocket → ByteStream → MinnowSocket
with_inbound s stream = record s {
  tcp = record s.tcp {
    receiver = record s.tcp.receiver {
      reassembler = record s.tcp.receiver.reassembler { output = stream };
    };
  };
}

-- The transmit function on each message in turn
unfoldable pub write_all : FdAdapter → List TcpMessage → Option (List (List (Ref Bytes)))
unfolding write
write_all a [] = some []
write_all a (msg ∷ msgs) = do buffers ← write a msg; rest ← write_all a msgs; some (buffers ∷ rest)

-- What an operation of the peer gives to the socket
abbrev pub transmitted :
    MinnowSocket
    → Option (TcpPeer × List TcpMessage)
    → Option (MinnowSocket × List (List (Ref Bytes)))
transmitted s result = do
  (tcp, msgs) ← result
  out ← write_all s.adapter msgs
  some (record s { tcp = tcp }, out)

-- Rule 1, on the strings that the tunnel gave: a segment goes to the peer.
abbrev pub take_segment :
    MinnowSocket → Option TcpMessage → Option (MinnowSocket × List (List (Ref Bytes)))
take_segment s none = some (s, [])
take_segment s (some seg) = transmitted s (TcpPeer.receive s.tcp seg)

abbrev pub note_acked : Bool → MinnowSocket → MinnowSocket
note_acked eof s =
    if eof && s.tcp.sender.bytes_in_flight == 0 && not s.fully_acked
    then record s { fully_acked = true }
    else s

unfoldable pub receive_segment :
    (ℕ → ℕ) → MinnowSocket → List Bytes → Bool → Option (MinnowSocket × List (List (Ref Bytes)))
unfolding read write_all
receive_segment resolve s strs eof = do
  (adapter, seg) ← read resolve s.adapter strs
  (s', out) ← take_segment (record s { adapter = adapter }) seg
  some (note_acked eof s', out)

abbrev pub wants_segment : MinnowSocket → Bool
wants_segment s = active s.tcp

-- The cancellation of rule 2, and what it does at the end of the owner's stream
abbrev pub close_outbound : MinnowSocket → MinnowSocket
close_outbound s = record (with_outbound s (ByteStream.close (outbound s))) {
  outbound_shutdown = true;
}

-- Rule 2, on the bytes that were read from the owner's socket
unfoldable pub push_bytes :
    MinnowSocket → Bytes → Bool → Option (MinnowSocket × List (List (Ref Bytes)))
unfolding write_all
push_bytes s data_read eof =
    let s' = with_outbound s (ByteStream.push (outbound s) data_read) in
    let s'' = if eof then close_outbound s' else s' in transmitted s'' (TcpPeer.push s''.tcp)

abbrev pub wants_bytes : MinnowSocket → Bool
wants_bytes s = active s.tcp && not s.outbound_shutdown && ltb 0 (available_capacity (outbound s))

-- The error of rule 2
abbrev pub fail_outbound : MinnowSocket → MinnowSocket
fail_outbound s = with_outbound s (ByteStream.set_error (outbound s))

-- Rule 3: the owner's socket takes no more than `accepted` bytes of the view.
unfoldable pub write_view : ByteStream → ℕ → Option (ByteStream × Bytes)
unfolding peek pop
write_view stream accepted = if bytes_buffered stream == 0 then some (stream, []) else do
  view ← peek stream
  let bytes_written = min accepted (length view)
  stream' ← pop stream bytes_written
  some (stream', take bytes_written view)

abbrev pub note_finished : MinnowSocket → MinnowSocket
note_finished s =
    if is_finished (inbound s) || (inbound s).error then record s { inbound_shutdown = true } else s

unfoldable pub deliver : MinnowSocket → ℕ → Option (MinnowSocket × Bytes)
unfolding write_view
deliver s accepted = do
  (stream, written) ← write_view (inbound s) accepted
  some (note_finished (with_inbound s stream), written)

abbrev pub wants_delivery : MinnowSocket → Bool
wants_delivery s =
    not (bytes_buffered (inbound s) == 0)
    || ((is_finished (inbound s) || (inbound s).error) && not s.inbound_shutdown)

-- The error of rule 3
abbrev pub fail_inbound : MinnowSocket → MinnowSocket
fail_inbound s = with_inbound s (ByteStream.set_error (inbound s))

-- The end of a round of `_tcp_loop`, `elapsed` milliseconds after the last
unfoldable pub pass_time : MinnowSocket → ℕ → Option (MinnowSocket × List (List (Ref Bytes)))
unfolding write_all
pass_time s elapsed =
    if active s.tcp then transmitted s (some (TcpPeer.tick s.tcp elapsed)) else some (s, [])

-- A socket as `_initialize_TCP` and the configuration leave it
abbrev pub initialized : FdAdapter → TcpConfig → FdAdapterConfig → MinnowSocket
initialized adapter c_tcp c_ad = record {
  tcp = TcpPeer.new c_tcp;
  adapter = record adapter { cfg = c_ad };
  inbound_shutdown = false;
  outbound_shutdown = false;
  fully_acked = false;
}

-- `connect` up to its loop; that goes on while `is_connecting`.
unfoldable pub connect :
    FdAdapter → TcpConfig → FdAdapterConfig → Option (MinnowSocket × List (List (Ref Bytes)))
unfolding write_all
connect adapter c_tcp c_ad = do
  let s = initialized adapter c_tcp c_ad
  (s', out) ← transmitted s (TcpPeer.push s.tcp)
  if s'.tcp.sender.bytes_in_flight == 1 then some (s', out) else none

abbrev pub is_connecting : MinnowSocket → Bool
is_connecting s = s.tcp.sender.bytes_in_flight == 1

-- `listen_and_accept` up to its loop; that goes on while `is_accepting`.
abbrev pub listen : FdAdapter → TcpConfig → FdAdapterConfig → MinnowSocket
listen adapter c_tcp c_ad =
    let s = initialized adapter c_tcp c_ad in
    record s { adapter = record s.adapter { listen = true } }

abbrev pub is_accepting : MinnowSocket → Bool
is_accepting s = not (has_ackno s.tcp) || not (s.tcp.sender.bytes_in_flight == 0)
