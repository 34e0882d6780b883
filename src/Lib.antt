-- ===== src/Lib.antt =====
-- A model of the TCP stack in src/ and util/, with the theorems that make it correct.
--
-- Parts, bottom up, and the files that model them:
--   src/byte_stream.{hh,cc}, src/byte_stream_helpers.cc: ByteStream.antt. The deque of strings is a
--     list; a string is a list of bytes. `peek` and `read` can throw and `pop` can meet an empty
--     deque: these return an Option, and `none` is the fault.
--   src/wrapping_integers.{hh,cc}: Wrap32.antt. Bit masks are written as `/` and `%`.
--   src/reassembler.{hh,cc}: Reassembler.antt. The std::map is the list of its entries in key order;
--     `insert` is `note_end`, `clip`, `store` (merging with the predecessor and absorbing the
--     successors), `flush` and `close_at_end`, in the order of the code.
--   src/timer.hh: Timer.antt (`Timer`) and Retransmission.antt (`RetransmissionTimer`).
--   util/tcp_sender_message.hh, util/tcp_receiver_message.hh: Messages.antt.
--   src/tcp_receiver.{hh,cc}: TcpReceiver.antt. `receive` decodes a segment with Wrap32 and hands it
--     to the reassembler; `send` reads the reassembler's output.
--   src/tcp_sender.{hh,cc}: TcpSender.antt. `push`, `receive` and `tick` over a byte stream and a
--     retransmission timer; what the code hands to its `transmit` function is a list of messages.
--   src/arp_table.{hh,cc}: ArpTable.antt, and src/arp_message_queue.{hh,cc}: ArpMessageQueue.antt. Their
--     std::unordered_map is an association list (Assoc.antt) in the order of its iteration.
--   src/router.{hh,cc}: Router.antt, the forwarding table, whose next hops are opaque, and below it
--     Router/Forward.antt, the router over its network interfaces.
--   util/ref.hh: Ref.antt. util/parser.{hh,cc}: Parser.antt, a parser over a list of buffers whose
--     operations return an Option, and Serializer.antt.
--   util/ethernet_header.{hh,cc}, util/ethernet_frame.hh: Ethernet.antt. util/arp_message.{hh,cc}:
--     ArpMessage.antt. util/checksum.hh: Checksum.antt. util/ipv4_header.{hh,cc},
--     util/ipv4_datagram.hh: Ipv4.antt. util/tcp_segment.{hh,cc}, util/udinfo.hh: TcpSegment.antt.
--   src/network_interface.{hh,cc}: NetworkInterface.antt, over the ARP table and queue; frames that
--     are transmitted are a list in the result.
--   util/tcp_peer.hh: TcpPeer.antt, a sender and a receiver. util/tcp_over_ip.{hh,cc},
--     util/fd_adapter.hh, util/tuntap_adapter.cc, util/lossy_fd_adapter.hh: TcpOverIp.antt; what the
--     tunnel, the random engine and the resolver give are arguments.
--   util/tcp_minnow_socket.hh, util/tcp_minnow_socket_impl.hh: MinnowSocket.antt, the handlers of the
--     events that drive a peer and an adapter; what the system calls give are arguments.
--
-- Base.antt and the files below it hold the shared tests, words and list lemmas. In the folder of a
-- component are its invariant (an IsValid), what its operations do, and its tests.
--
-- Numbers: uint64_t, size_t and uint32_t are natural numbers with the wrap-around written out
-- (add64, sub64, mul64, add32, sub32). Theorems assume that a stream or a sequence number stays short
-- of 2 ^ 64 where the code does; each says how far.
--
-- Fuel: the loop of `pop` goes down the deque. The loops of `read` and `send_segment` run on the
-- bytes buffered and one more round, and every round takes a byte; the loop of `push` runs on the
-- window and one more round, and every round but the last sends a number of the window; the loop of
-- the parser's `string` runs on the length of the span and one more round, and every round copies a
-- byte; the folding of the checksum takes three rounds at most. That the fuel is enough is part of
-- the theorems: they state that the result is `some`.
--
-- Not modelled: sockets, file descriptors, event loops and the choice of the next event, threads,
-- addresses as text, the strings that `to_string` prints, logging (these are system calls and
-- output), the programs in apps/ and demo/ (glue around the library), and the tests.
pub mod Base
pub mod Wrap32
pub mod ByteStream
pub mod Reassembler
pub mod Timer
pub mod Retransmission
pub mod Messages
pub mod TcpReceiver
pub mod TcpSender
pub mod Router
pub mod Assoc
pub mod ArpTable
pub mod ArpMessageQueue
pub mod Ref
pub mod Parser
pub mod Serializer
pub mod Ethernet
pub mod ArpMessage
pub mod Checksum
pub mod Ipv4
pub mod TcpSegment
pub mod TcpPeer
pub mod NetworkInterface
pub mod TcpOverIp
pub mod MinnowSocket
