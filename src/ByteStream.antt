-- ===== src/ByteStream.antt =====
-- src/byte_stream.{hh,cc} and `read` of src/byte_stream_helpers.cc: a bounded byte stream kept as a
-- chain of pushed buffers. The reader() and writer() views carry no state of their own, so their
-- methods are functions on the stream. `none` stands for undefined behaviour or an exception.
pub mod Inv
pub mod Ops
pub mod Chunks
pub mod Reading
pub mod Refine
mod Tests
use cs_144_minnow_tcp.Base.{
  ℕ, zero, suc, ◌-◌, Bool, true, false, not, ◌&&◌, ◌||◌, Option, none, some, List, [], ◌∷◌, ◌++◌,
  ◌>>=◌, ltb, leb, ◌==◌, if◌then◌else◌, min, is_empty, length, take, drop, add64, sub64,
}

-- A std::string holds bytes; they are only moved, never computed with.
abbrev pub Bytes : Type 0
Bytes = List ℕ

pub record ByteStream : Type 0 where
  pub capacity : ℕ
  pub segments : List Bytes
  pub skip_in_front : ℕ
  pub bytes_pushed : ℕ
  pub bytes_popped : ℕ
  pub error : Bool
  pub closed : Bool

unfoldable pub new : ℕ → ByteStream
new capacity = record {
  capacity = capacity;
  segments = [];
  skip_in_front = 0;
  bytes_pushed = 0;
  bytes_popped = 0;
  error = false;
  closed = false;
}

abbrev pub set_error : ByteStream → ByteStream
set_error s = record s { error = true }

-- `Writer::close`
abbrev pub close : ByteStream → ByteStream
close s = record s { closed = true }

-- `Reader::bytes_buffered`
abbrev pub bytes_buffered : ByteStream → ℕ
bytes_buffered s = sub64 s.bytes_pushed s.bytes_popped

-- `Writer::available_capacity`
abbrev pub available_capacity : ByteStream → ℕ
available_capacity s = sub64 s.capacity (sub64 s.bytes_pushed s.bytes_popped)

-- `Reader::is_finished`
abbrev pub is_finished : ByteStream → Bool
is_finished s = s.closed && s.bytes_pushed == s.bytes_popped

-- `data.resize( avail )` under its test.
abbrev pub truncate : ℕ → Bytes → Bytes
truncate avail bytes = if ltb avail (length bytes) then take avail bytes else bytes

abbrev append_segment : ByteStream → Bytes → ByteStream
append_segment s bytes = record s {
  bytes_pushed = add64 s.bytes_pushed (length bytes);
  segments = s.segments ++ (bytes ∷ []);
}

-- `Writer::push`
unfoldable pub push : ByteStream → Bytes → ByteStream
push s bytes =
    let avail = available_capacity s in
    if is_empty bytes || avail == 0 then s else append_segment s (truncate avail bytes)

-- `substr( pos )`, which throws past the end.
unfoldable pub substr : ℕ → Bytes → Option Bytes
substr pos bytes = if ltb (length bytes) pos then none else some (drop pos bytes)

unfoldable pub peek_segments : List Bytes → ℕ → Option Bytes
unfolding substr
peek_segments [] skip = some []
peek_segments (front ∷ rest) skip = substr skip front

-- `Reader::peek`
unfoldable pub peek : ByteStream → Option Bytes
unfolding peek_segments
peek s = peek_segments s.segments s.skip_in_front

-- The loop of `Reader::pop`, on the segments and the skip. `front()` of no segment is a fault.
unfoldable pub pop_loop : ℕ → List Bytes → ℕ → Option (List Bytes × ℕ)
pop_loop len [] skip = if len == 0 then some ([], skip) else none
pop_loop len (front ∷ rest) skip =
    let front_remaining = sub64 (length front) skip in
    let next = pop_loop (len - front_remaining) rest 0 in
    if len == 0
    then some (front ∷ rest, skip)
    else if leb front_remaining len
    then next
    else some (front ∷ rest, add64 skip len)

-- `Reader::pop`
unfoldable pub pop : ByteStream → ℕ → Option ByteStream
unfolding pop_loop
pop s n = do
  let len = min n (bytes_buffered s)
  (segments, skip) ← pop_loop len s.segments s.skip_in_front
  some (record s {
    bytes_popped = add64 s.bytes_popped len;
    segments = segments;
    skip_in_front = skip;
  })

-- The exception that `read` throws on an empty view.
abbrev pub checked : Bytes → Option Bytes
checked view = if is_empty view then none else some view

-- The loop of `read`: each round appends a peeked view to `out`. Fuel running out is a fault too.
unfoldable pub read_loop : ℕ → ℕ → ByteStream → Bytes → Option (Bytes × ByteStream)
unfolding peek pop
read_loop zero max_len s out = none
read_loop (suc fuel) max_len s out =
    elim (not (bytes_buffered s == 0) && ltb (length out) max_len) [
      | false ↦ some (out, s)
      | true ↦ do
        peeked ← peek s
        view ← checked peeked
        let piece = take (max_len - length out) view
        s' ← pop s (length piece)
        read_loop fuel max_len s' (out ++ piece)
    ]

-- `read`: every round but the last takes a byte, so one round more than the bytes buffered is enough.
unfoldable pub read : ByteStream → ℕ → Option (Bytes × ByteStream)
unfolding read_loop
read s max_len = read_loop (suc (bytes_buffered s)) max_len s []
