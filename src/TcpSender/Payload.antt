-- ===== src/TcpSender/Payload.antt =====
-- The payload of `send_segment`.
use cs_144_minnow_tcp.Base.{
  ℕ, suc, ◌-◌, ◌<◌, ◌≡◌, true, false, not, ◌&&◌, ◌==◌, ltb, some, ◌++◌, arith, length, take, min,
}
use cs_144_minnow_tcp.ByteStream.{Bytes, ByteStream, bytes_buffered}
use cs_144_minnow_tcp.ByteStream.Inv.{contents}
use cs_144_minnow_tcp.ByteStream.Inv
use cs_144_minnow_tcp.ByteStream.Ops.{Popped}
use cs_144_minnow_tcp.ByteStream.Chunks.{Chunk, loop_reads_all}
use cs_144_minnow_tcp.TcpSender.{payload_loop, pull_payload}

module _ (room fuel : ℕ) (input : ByteStream) (payload : Bytes) where
  payload_loop-stop :
      Inv.IsValid input
      → min (room - length payload) (length (contents input)) ≡ 0
      → payload_loop (suc fuel) room input payload ≡ some (payload, input)
  unfolding payload_loop
  payload_loop-stop v e =
      let stop : (ltb (length payload) room && not (bytes_buffered input == 0)) ≡ false =
        ground (arith, v.counted) in
      rw (stop, payload_loop)

  payload_loop-round :
      Inv.IsValid input
      → 0 < length (contents input)
      → length payload < room
      → (c : Chunk input (room - length payload))
      → payload_loop (suc fuel) room input payload
        ≡ payload_loop fuel room c.after (payload ++ take (room - length payload) c.view)
  unfolding payload_loop
  payload_loop-round v h k c =
      let go : (ltb (length payload) room && not (bytes_buffered input == 0)) ≡ true =
        ground (arith, v.counted) in
      rw (go, payload_loop) (rw c.peeks (rw c.pops))

-- The payload is the oldest bytes of the input, as many as there is room for; the loop ends.
pub pull_payload-take :
    (room : ℕ) (input : ByteStream)
    → Inv.IsValid input
    → (input' : ByteStream) × (pull_payload room input ≡ some (take room (contents input), input'))
      × Popped input room input'
unfolding pull_payload
pull_payload-take room input =
    loop_reads_all (λ fuel. payload_loop fuel room) room (payload_loop-stop room)
      (payload_loop-round room) input

-- A segment sent with `window` numbers of room: it starts at the next number, has as much of the
