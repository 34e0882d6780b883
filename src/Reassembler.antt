-- ===== src/Reassembler.antt =====
-- src/reassembler.{hh,cc}: substrings of a stream, in any order, go into a ByteStream.
-- The std::map of pending substrings is the list of its entries in key order.
pub mod Segments
pub mod Absorb
pub mod Behind
pub mod Store
pub mod Flush
pub mod Clip
pub mod Insert
pub mod Deliver
pub mod Closing
mod Tests
use cs_144_minnow_tcp.Base.{
  ℕ, ◌-◌, Bool, true, false, ◌&&◌, ◌||◌, Option, none, some, List, [], ◌∷◌, ◌++◌, ltb, leb, ◌==◌,
  if◌then◌else◌, is_empty, length, take, drop, add64,
}
use cs_144_minnow_tcp.ByteStream.{Bytes, ByteStream, available_capacity, push, close}

abbrev pub Pending : Type 0
Pending = List (ℕ × Bytes)

pub record Reassembler : Type 0 where
  pub output : ByteStream
  pub pending : Pending
  pub end_index : ℕ
  pub eof_seen : Bool

unfoldable pub new : ByteStream → Reassembler
new output = record { output = output; pending = []; end_index = 0; eof_seen = false }

-- `first_index + bytes.size()` on uint64_t: the end of a substring.
abbrev pub end_of : ℕ → Bytes → ℕ
end_of first bytes = add64 first (length bytes)

-- The cut in front; the subtraction runs only at `first < first_unassembled`.
abbrev pub clip_front : ℕ → ℕ → Bytes → ℕ × Bytes
clip_front first_unassembled first bytes =
    if ltb first first_unassembled
    then (first_unassembled, drop (first_unassembled - first) bytes)
    else (first, bytes)

-- The cut at the end, where `resize` only shrinks.
abbrev pub clip_back : ℕ → ℕ → Bytes → ℕ × Bytes
clip_back first_unacceptable first bytes =
    if ltb first_unacceptable (end_of first bytes)
    then (first, take (first_unacceptable - first) bytes)
    else (first, bytes)

-- Step 1 of `insert`: clip a substring to the acceptable window.
unfoldable pub clip : ℕ → ℕ → ℕ → Bytes → ℕ × Bytes
clip first_unassembled first_unacceptable first bytes =
    if leb first_unacceptable first || leb (end_of first bytes) first_unassembled
    then (first, [])
    else let (f, b) = clip_front first_unassembled first bytes in clip_back first_unacceptable f b

-- `std::prev( pending_.upper_bound( k ) )`, if there is one: the last entry whose key is at most `k`.
unfoldable pub find_prev : ℕ → Pending → Option (ℕ × Bytes)
find_prev k [] = none
find_prev k ((j, b) ∷ m) =
    if leb j k then elim (find_prev k m) [ none ↦ some (j, b) | some e ↦ some e ] else none

-- `pending_.erase( prev )`
unfoldable pub erase : ℕ → Pending → Pending
erase k [] = []
erase k ((j, b) ∷ m) = if j == k then m else (j, b) ∷ erase k m

abbrev pub join_prev : ℕ → Bytes → Pending → ℕ × Bytes → ℕ × Bytes × Pending
join_prev first bytes m (prev, b) =
    let prev_end = end_of prev b in
    if leb first prev_end
    then if leb (end_of first bytes) prev_end
      then (first, [], m)
      else (prev, b ++ drop (prev_end - first) bytes, erase prev m)
    else (first, bytes, m)

-- Step 2: merge with the predecessor if it touches or overlaps the new substring.
unfoldable pub merge_prev : ℕ → Bytes → Pending → ℕ × Bytes × Pending
unfolding find_prev erase
merge_prev first bytes m = elim (find_prev first m) [
  | none ↦ (first, bytes, m)
  | some e ↦ join_prev first bytes m e
]

abbrev pub extend : ℕ → Bytes → ℕ → Bytes → Bytes
extend first bytes j b =
    if ltb (end_of first bytes) (end_of j b)
    then bytes ++ drop (end_of first bytes - j) b
    else bytes

-- The loop of step 3, from the iterator on: the grown substring, and the entries that stay.
unfoldable pub absorb_loop : ℕ → Bytes → Pending → Bytes × Pending
absorb_loop first bytes [] = (bytes, [])
absorb_loop first bytes ((j, b) ∷ m) =
    let next = absorb_loop first (extend first bytes j b) m in
    if leb j (end_of first bytes) then next else (bytes, (j, b) ∷ m)

-- The loop starts at `pending_.lower_bound( first )`.
unfoldable pub absorb : ℕ → Bytes → Pending → Bytes × Pending
unfolding absorb_loop
absorb first bytes [] = (bytes, [])
absorb first bytes ((j, b) ∷ m) =
    let (grown, rest) = absorb first bytes m in
    if ltb j first then (grown, (j, b) ∷ rest) else absorb_loop first bytes ((j, b) ∷ m)

-- `pending_.emplace`, which leaves an entry of the same key alone.
unfoldable pub emplace : ℕ → Bytes → Pending → Pending
emplace k bytes [] = (k, bytes) ∷ []
emplace k bytes ((j, b) ∷ m) =
    if ltb k j
    then (k, bytes) ∷ (j, b) ∷ m
    else if k == j
    then (j, b) ∷ m
    else (j, b) ∷ emplace k bytes m

abbrev pub absorb_all : ℕ × Bytes × Pending → Pending
absorb_all (first, bytes, m) =
    if is_empty bytes
    then m
    else (let (grown, rest) = absorb first bytes m in emplace first grown rest)

-- Steps 2 and 3: the map after the clipped substring is merged in.
unfoldable pub store : ℕ → Bytes → Pending → Pending
unfolding merge_prev absorb emplace
store first bytes m = if is_empty bytes then m else absorb_all (merge_prev first bytes m)

-- Step 4: flush the contiguous prefix into the output stream.
unfoldable pub flush : ByteStream → Pending → ByteStream × Pending
unfolding push
flush out [] = (out, [])
flush out ((k, b) ∷ m) =
    let next = flush (push out b) m in if k == out.bytes_pushed then next else (out, (k, b) ∷ m)

abbrev pub note_end : Reassembler → ℕ → Bytes → Bool → Reassembler
note_end r first bytes is_last =
    if is_last then record r { end_index = end_of first bytes; eof_seen = true } else r

abbrev pub close_at_end : ByteStream → ℕ → Bool → ByteStream
close_at_end out end_index eof_seen =
    if eof_seen && out.bytes_pushed == end_index then close out else out

unfoldable pub insert : Reassembler → ℕ → Bytes → Bool → Reassembler
unfolding clip store flush
insert r first bytes is_last =
    let r' = note_end r first bytes is_last in
    let first_unassembled = r.output.bytes_pushed in
    let first_unacceptable = add64 first_unassembled (available_capacity r.output) in
    let (f, b) = clip first_unassembled first_unacceptable first bytes in
    let (out, rest) = flush r.output (store f b r.pending) in
    record r' { output = close_at_end out r'.end_index r'.eof_seen; pending = rest }

-- `count_bytes_pending`; the sum is a uint64_t.
unfoldable pub count_from : ℕ → Pending → ℕ
count_from total [] = total
count_from total ((k, b) ∷ m) = count_from (add64 total (length b)) m

unfoldable pub count_bytes_pending : Reassembler → ℕ
unfolding count_from
count_bytes_pending r = count_from 0 r.pending
