-- ===== src/TcpReceiver/Accept.antt =====
-- A segment that is accepted: where its payload goes.
use cs_144_minnow_tcp.Base.{
  if◌then◌else◌, ℕ, ◌+◌, ◌≤◌, ◌<◌, ◌≡◌, ◌⊎◌, inl, inr, Bool, true, false, ◌==◌, ==_iff, some, arith,
  length, Bool-cases, mod32, mod64, if◌then◌else◌, sub64,
}
use cs_144_minnow_tcp.Wrap32.{Wrap32, IsWord}
use cs_144_minnow_tcp.Wrap32.Nearest.{unwrap_upper}
use cs_144_minnow_tcp.Reassembler.{Reassembler}
use cs_144_minnow_tcp.Reassembler.Flush.{window_end}
use cs_144_minnow_tcp.Reassembler.Clip.{IsIndexed}
use cs_144_minnow_tcp.Reassembler.Insert.{Inserted, insert-Inserted, received}
use cs_144_minnow_tcp.Reassembler.Insert
use cs_144_minnow_tcp.Messages.{TcpSenderMessage}
use cs_144_minnow_tcp.TcpReceiver.{TcpReceiver, stream_index, accept}

-- The reassembler is valid, and the initial sequence number is a 32-bit number.
pub record IsValid (t : TcpReceiver) : Type 0 where
  pub reassembler_valid : Insert.IsValid t.reassembler
  pub isn_word : (z : Wrap32) → t.isn ≡ some z → IsWord z

-- The stream is more than a round, and the payload, short of 2 ^ 64 bytes.
abbrev pub HasRoom : TcpReceiver → TcpSenderMessage → Type 0
HasRoom t msg = t.reassembler.output.bytes_pushed + mod32 + length msg.payload ≤ mod64

index_range :
    (abs_seqno pushed size limit : ℕ) (syn : Bool)
    → abs_seqno < pushed + mod32
    → pushed + mod32 + size ≤ mod64
    → limit < mod64
    → let i = if syn then abs_seqno else sub64 abs_seqno 1 in (limit ≤ i) ⊎ (i + size < mod64)
index_range a pushed size limit true h k l = inr (omega arith)
index_range a pushed size limit false h k l = elim (Bool-cases (a == 0)) [
  | inl first ↦ inl (omega (arith, (==_iff a 0).0 first))
  | inr later ↦ inr (ground arith)
]

-- The index of a payload is either an index that fits, or 2 ^ 64 - 1, which the window refuses.
pub stream_index-IsIndexed :
    (r : Reassembler) (isn : Wrap32) (msg : TcpSenderMessage)
    → Insert.IsValid r
    → IsWord isn
    → IsWord msg.seqno
    → r.output.bytes_pushed + mod32 + length msg.payload ≤ mod64
    → IsIndexed (window_end r.output) (stream_index isn r.output.bytes_pushed msg) msg.payload
unfolding stream_index
stream_index-IsIndexed r isn msg v hz hw room =
    index_range _ r.output.bytes_pushed (length msg.payload) (window_end r.output) msg.syn
      (unwrap_upper msg.seqno isn r.output.bytes_pushed hw hz) room v.in_range

-- A segment that is accepted goes to the reassembler at its index.
pub accept-Inserted :
    (r : Reassembler) (isn : Wrap32) (msg : TcpSenderMessage)
    → Insert.IsValid r
    → IsWord isn
    → IsWord msg.seqno
    → r.output.bytes_pushed + mod32 + length msg.payload ≤ mod64
    → Inserted r
        (stream_index isn r.output.bytes_pushed msg)
        msg.payload
        (accept r isn msg).reassembler
unfolding accept
accept-Inserted r isn msg v hz hw room =
    insert-Inserted r (stream_index isn r.output.bytes_pushed msg) msg.payload msg.fin v
      (stream_index-IsIndexed r isn msg v hz hw room)
