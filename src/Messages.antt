-- ===== src/Messages.antt =====
-- util/tcp_sender_message.hh and util/tcp_receiver_message.hh: what the two halves of a connection
-- exchange.
use cs_144_minnow_tcp.Base.{ℕ, Bool, true, false, Option, length, add64, ◌≤◌, arith}
use cs_144_minnow_tcp.Wrap32.{Wrap32}
use cs_144_minnow_tcp.ByteStream.{Bytes}

pub record TcpSenderMessage : Type 0 where
  pub seqno : Wrap32
  pub syn : Bool
  pub payload : Bytes
  pub fin : Bool
  pub rst : Bool

-- A bool in arithmetic.
abbrev pub bit : Bool → ℕ
bit true = 1
bit false = 0

pub bit_le : (b : Bool) → bit b ≤ 1
bit_le true = omega arith
bit_le false = omega arith

abbrev pub sequence_length : TcpSenderMessage → ℕ
sequence_length msg = add64 (add64 (bit msg.syn) (length msg.payload)) (bit msg.fin)

pub record TcpReceiverMessage : Type 0 where
  pub ackno : Option Wrap32
  pub window_size : ℕ
  pub rst : Bool
