-- ===== src/ByteStream/Reading.antt =====
-- `read` of byte_stream_helpers.cc.
use cs_144_minnow_tcp.Base.{
  ℕ, suc, ◌-◌, ◌<◌, ◌≡◌, true, false, not, ◌&&◌, ◌==◌, ltb, some, ◌++◌, arith, min, length, take,
}
use cs_144_minnow_tcp.ByteStream.{Bytes, ByteStream, bytes_buffered, read, read_loop}
use cs_144_minnow_tcp.ByteStream.Inv.{IsValid, contents}
use cs_144_minnow_tcp.ByteStream.Ops.{Popped}
use cs_144_minnow_tcp.ByteStream.Chunks.{Chunk, loop_reads_all}

module _ (max_len fuel : ℕ) (s : ByteStream) (out : Bytes) where
  read_loop-stop :
      IsValid s
      → min (max_len - length out) (length (contents s)) ≡ 0
      → read_loop (suc fuel) max_len s out ≡ some (out, s)
  unfolding read_loop
  read_loop-stop v e =
      let stop : (not (bytes_buffered s == 0) && ltb (length out) max_len) ≡ false =
        ground (arith, v.counted) in
      rw (stop, read_loop)

  read_loop-round :
      IsValid s
      → 0 < length (contents s)
      → length out < max_len
      → (c : Chunk s (max_len - length out))
      → read_loop (suc fuel) max_len s out
        ≡ read_loop fuel max_len c.after (out ++ take (max_len - length out) c.view)
  unfolding read_loop
  read_loop-round v h k c =
      let go : (not (bytes_buffered s == 0) && ltb (length out) max_len) ≡ true =
        ground (arith, v.counted) in
      rw (go, read_loop) (rw c.peeks (rw c.nonempty (rw c.pops)))

-- read of a valid stream never throws; it returns the oldest `max_len` bytes, or all, and pops
-- exactly those.
pub read-take :
    (s : ByteStream) (max_len : ℕ)
    → IsValid s
    → (s' : ByteStream) × (read s max_len ≡ some (take max_len (contents s), s'))
      × Popped s max_len s'
unfolding read
read-take s max_len =
    loop_reads_all (λ fuel. read_loop fuel max_len) max_len (read_loop-stop max_len)
      (read_loop-round max_len) s
