-- ===== src/Serializer.antt =====
-- util/parser.hh and util/parser.cc: the serializer, which gathers integers in a string of its own
-- and passes buffers on as they are.
pub mod Writing
pub mod Written
use cs_144_minnow_tcp.Base.{
  ℕ, zero, suc, ◌*◌, ◌/◌, ◌%◌, ◌^◌, List, [], ◌∷◌, ◌++◌, if◌then◌else◌, is_empty,
}
use cs_144_minnow_tcp.Ref.{Ref, get, borrow}
use cs_144_minnow_tcp.ByteStream.{Bytes}

pub record Serializer : Type 0 where
  pub output : List (Ref Bytes)
  pub buffer : Bytes

abbrev pub new : Serializer
new = record { output = []; buffer = [] }

unfoldable pub flush : Serializer → Serializer
flush s =
    if is_empty s.buffer
    then s
    else record { output = s.output ++ (Ref.owned s.buffer ∷ []); buffer = [] }

-- The loop of `Serializer::integer`, with `k` bytes to go: the `k`-th from the low end comes next.
unfoldable pub integer_loop : ℕ → ℕ → Bytes → Bytes
integer_loop zero val buffer = buffer
integer_loop (suc k) val buffer = integer_loop k val (buffer ++ (val / 2 ^ (k * 8) % 2 ^ 8 ∷ []))

-- `Serializer::integer` for an unsigned type of `w` bytes
unfoldable pub integer : ℕ → ℕ → Serializer → Serializer
unfolding integer_loop
integer w val s = record s { buffer = integer_loop w val s.buffer }

-- `Serializer::buffer( Ref<string> )`; on a string it does the same with the string as an owned
-- reference.
unfoldable pub buffer : Ref Bytes → Serializer → Serializer
unfolding flush
buffer buf s =
    let s' = flush s in
    if is_empty (get buf) then s else record s' { output = s'.output ++ (buf ∷ []) }

unfoldable pub buffer_string : Bytes → Serializer → Serializer
unfolding flush
buffer_string buf s =
    let s' = flush s in
    if is_empty buf then s else record s' { output = s'.output ++ (Ref.owned buf ∷ []) }

-- `Serializer::buffer( vector )`
unfoldable pub buffer_all : List (Ref Bytes) → Serializer → Serializer
unfolding buffer
buffer_all [] s = s
buffer_all (b ∷ bs) s = buffer_all bs (buffer (borrow b) s)

unfoldable pub finish : Serializer → List (Ref Bytes)
unfolding flush
finish s = (flush s).output

-- `integer` on each of some bytes in turn
unfoldable pub integers : List ℕ → Serializer → Serializer
unfolding integer
integers [] s = s
integers (b ∷ bs) s = integers bs (integer 1 b s)
