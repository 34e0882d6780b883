-- ===== src/ByteStream/Tests.antt =====
-- Runs of the byte stream, and its theorems at concrete streams.
use cs_144_minnow_tcp.Base.{◌≡◌, refl, false, some, List, [], ◌∷◌, ◌++◌, arith, is_empty}
use cs_144_minnow_tcp.ByteStream.{
  Bytes, ByteStream, push, pop, peek, read, push, pop_loop, peek_segments, substr, read_loop,
}
use cs_144_minnow_tcp.ByteStream.Inv.{IsValid, contents}
use cs_144_minnow_tcp.ByteStream.Chunks.{peek-prefix}
use cs_144_minnow_tcp.ByteStream.Refine.{
  Call, pushes, pops, reads, closes, run, view, channel_run, run_refines,
}

-- Two segments, the first with a byte gone: 2, 3, 4 are held, one more fits.
abbrev half_full : ByteStream
half_full = record {
  capacity = 4;
  segments = (1 ∷ 2 ∷ 3 ∷ []) ∷ (4 ∷ []) ∷ [];
  skip_in_front = 1;
  bytes_pushed = 4;
  bytes_popped = 1;
  closed = false;
  error = false;
}

half_full-IsValid : IsValid half_full
half_full-IsValid = omega arith

contents-half_full : contents half_full ≡ 2 ∷ 3 ∷ 4 ∷ []
contents-half_full = refl

push_cuts : contents (push half_full (7 ∷ 8 ∷ [])) ≡ 2 ∷ 3 ∷ 4 ∷ 7 ∷ []
unfolding push
push_cuts = refl

read_takes :
    read half_full 2
    ≡ some (
      2 ∷ 3 ∷ [],
      record half_full { segments = (4 ∷ []) ∷ []; skip_in_front = 0; bytes_popped = 3 },
    )
unfolding read read_loop peek pop pop_loop peek_segments substr
read_takes = refl

peek-prefix_example :
    (front : Bytes) × (rest : Bytes) × (peek half_full ≡ some front)
    × (contents half_full ≡ front ++ rest)
    × (is_empty front ≡ false)
peek-prefix_example = peek-prefix half_full half_full-IsValid

abbrev script : List Call
script = pushes (7 ∷ 8 ∷ []) ∷ reads 3 ∷ closes ∷ pops 5 ∷ []

run_refines_example : run half_full script ≡ some (channel_run (view half_full) script)
run_refines_example =
    run_refines half_full script half_full-IsValid (omega arith, (tt, (tt, (tt, tt))))
