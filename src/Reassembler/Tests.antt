-- ===== src/Reassembler/Tests.antt =====
-- Runs of the reassembler, and its theorems at concrete substrings.
use cs_144_minnow_tcp.Base.{
  ℕ, ◌+◌, ◌≤◌, ◌≡◌, ◌==◌, ◌&&◌, refl, inl, inr, true, false, [], ◌∷◌, arith,
}
use cs_144_minnow_tcp.ByteStream.{ByteStream, push}
use cs_144_minnow_tcp.ByteStream.Inv.{contents}
use cs_144_minnow_tcp.Reassembler.{
  Reassembler, new, insert, clip, find_prev, erase, merge_prev, absorb_loop, absorb, emplace, store,
  flush, count_bytes_pending,
}
use cs_144_minnow_tcp.Reassembler.Insert.{IsValid}
use cs_144_minnow_tcp.Reassembler.Deliver.{
  Segment, insert_all, Delivered, insert_all-Delivered, insert_all_order, count_bytes_pending-le,
}
use cs_144_minnow_tcp.Reassembler.Closing.{insert_all-closes}

abbrev empty_stream : ByteStream
empty_stream = record {
  capacity = 8;
  segments = [];
  skip_in_front = 0;
  bytes_pushed = 0;
  bytes_popped = 0;
  closed = false;
  error = false;
}

-- Index 3 has arrived, 0 to 2 are missing.
abbrev waiting : Reassembler
waiting = record {
  output = empty_stream;
  pending = (3, 13 ∷ []) ∷ [];
  end_index = 0;
  eof_seen = false;
}

waiting-IsValid : IsValid waiting
waiting-IsValid = record {
  output_valid = omega arith;
  in_range = omega arith;
  apart = (omega arith, omega arith, omega arith, tt);
}

-- The byte at index `i` of the stream of the tests.
abbrev stream : ℕ → ℕ
stream i = i + 10

abbrev late : Segment
late = record { first = 2; bytes = 12 ∷ 13 ∷ []; is_last = false }

abbrev last : Segment
last = record { first = 3; bytes = 13 ∷ 14 ∷ []; is_last = true }

abbrev early : Segment
early = record { first = 0; bytes = 10 ∷ 11 ∷ 12 ∷ []; is_last = false }

insert_joins :
    (insert waiting 0 (10 ∷ 11 ∷ 12 ∷ []) false).output.segments ≡ (10 ∷ 11 ∷ 12 ∷ 13 ∷ []) ∷ []
unfolding insert clip store find_prev erase merge_prev absorb_loop absorb emplace flush push
insert_joins = refl

insert_waits :
    (insert waiting 5 (15 ∷ 16 ∷ []) false).pending ≡ (3, 13 ∷ []) ∷ (5, 15 ∷ 16 ∷ []) ∷ []
unfolding insert clip store find_prev erase merge_prev absorb_loop absorb emplace flush push
insert_waits = refl

insert_all-Delivered_example :
    Delivered stream waiting (late ∷ early ∷ []) (insert_all waiting (late ∷ early ∷ []))
insert_all-Delivered_example =
    insert_all-Delivered stream waiting (late ∷ early ∷ []) waiting-IsValid ((refl, tt), tt)
      (omega arith, (refl, (refl, tt)), (omega arith, (refl, (refl, (refl, tt))), tt))

insert_all_order_example :
    (contents (insert_all waiting (late ∷ early ∷ [])).output
      ≡ contents (insert_all waiting (early ∷ late ∷ late ∷ [])).output)
    × ((insert_all waiting (late ∷ early ∷ [])).output.bytes_pushed
        ≡ (insert_all waiting (early ∷ late ∷ late ∷ [])).output.bytes_pushed)
insert_all_order_example =
    insert_all_order stream waiting (late ∷ early ∷ []) (early ∷ late ∷ late ∷ []) waiting-IsValid
      ((refl, tt), tt)
      (omega arith, (refl, (refl, tt)), (omega arith, (refl, (refl, (refl, tt))), tt))
      (
        omega arith,
        (refl, (refl, (refl, tt))),
        (omega arith, (refl, (refl, tt)), (omega arith, (refl, (refl, tt)), tt)),
      )
      (λ i. ground arith)

insert_all-closes_example :
    (insert_all (new empty_stream) (last ∷ early ∷ [])).output.closed
    ≡ (true && (insert_all (new empty_stream) (last ∷ early ∷ [])).output.bytes_pushed == 5)
insert_all-closes_example =
    insert_all-closes empty_stream 5 (last ∷ early ∷ []) (omega arith) (omega arith) (omega arith)
      refl (omega arith) (omega arith, inr refl, (omega arith, inl refl, tt))

count_bytes_pending-le_example : count_bytes_pending waiting ≤ 8
count_bytes_pending-le_example = count_bytes_pending-le waiting waiting-IsValid
