-- ===== src/Parser.antt =====
-- util/parser.hh and util/parser.cc: the parser over a list of buffers. Its constructor rejects a
-- borrowed buffer, so the list is kept as the strings themselves. `none` stands for an exception, a
-- failed assertion or undefined behaviour; running out of fuel is one of them.
pub mod Inv
pub mod Reading
pub mod Chain
pub mod Reads
pub mod Rest
pub mod Truncate
pub mod Copy
pub mod Checked
mod Tests
use cs_144_minnow_tcp.Base.{
  ℕ, zero, suc, ◌+◌, ◌-◌, ◌*◌, ◌%◌, ◌^◌, min, Bool, true, false, ◌||◌, Option, none, some, List, [],
  ◌∷◌, ◌++◌, ◌>>=◌, ltb, leb, ◌==◌, if◌then◌else◌, is_empty, length, take, add64, sub64,
}
use cs_144_minnow_tcp.Ref.{Ref, get_mut, release}
use cs_144_minnow_tcp.ByteStream.{Bytes, substr}

-- `Parser::BufferList`
pub record BufferList : Type 0 where
  pub size : ℕ
  pub buffer : List Bytes
  pub skip : ℕ

pub record Parser : Type 0 where
  pub input : BufferList
  pub error : Bool

-- The loop of the constructor: it throws at a borrowed buffer.
unfoldable pub collect : List (Ref Bytes) → ℕ → Option (List Bytes × ℕ)
collect [] size = some ([], size)
collect (Ref.borrowed x ∷ rs) size = none
collect (Ref.owned x ∷ rs) size = do
  (xs, total) ← collect rs (add64 size (length x))
  some (x ∷ xs, total)

unfoldable pub new : List (Ref Bytes) → Option Parser
unfolding collect
new refs = do
  (xs, total) ← collect refs 0
  some (record { input = record { size = total; buffer = xs; skip = 0 }; error = false })

abbrev pub peek_front : List Bytes → ℕ → Option Bytes
peek_front [] skip = none
peek_front (front ∷ rest) skip = substr skip front

-- `BufferList::peek`
unfoldable pub peek : BufferList → Option Bytes
unfolding substr
peek l = peek_front l.buffer l.skip

-- The loop of `BufferList::remove_prefix`. A round that leaves its buffer in place has removed the
-- last of the `len` bytes.
unfoldable pub remove_loop : ℕ → List Bytes → ℕ → ℕ → Option BufferList
unfolding substr
remove_loop len [] skip size = some (record { size = size; buffer = []; skip = skip })
remove_loop len (front ∷ rest) skip size =
    if len == 0 then some (record { size = size; buffer = front ∷ rest; skip = skip }) else do
      view ← substr skip front
      let to_pop_now = min len (length view)
      let next = remove_loop (len - to_pop_now) rest 0 (sub64 size to_pop_now)
      (if add64 skip to_pop_now == length front
          then next
          else some (record {
            size = sub64 size to_pop_now;
            buffer = front ∷ rest;
            skip = add64 skip to_pop_now;
          }))

unfoldable pub remove_bytes : BufferList → ℕ → Option BufferList
unfolding remove_loop
remove_bytes l len = remove_loop len l.buffer l.skip l.size

-- The loops of `BufferList::truncate`: walk to the buffer where `len` falls, cut it, drop the rest.
unfoldable pub cut_loop : ℕ → ℕ → List Bytes → Option (List Bytes)
cut_loop len size_so_far [] = some []
cut_loop len size_so_far (x ∷ xs) =
    let total = add64 size_so_far (length x) in
    let rest = cut_loop len total xs in
    let room = sub64 len size_so_far in
    if ltb total len
    then (rest >>= λ ys. some (x ∷ ys))
    else if total == len
    then some (x ∷ [])
    else if is_empty x || leb len size_so_far || leb (length x) room
    then none
    else some (take room x ∷ [])

unfoldable pub truncate_list : BufferList → ℕ → Option BufferList
unfolding cut_loop
truncate_list l len =
    if leb l.size len
    then some l
    else if len == 0
    then some (record l { buffer = []; size = 0 })
    else do xs ← cut_loop len 0 l.buffer; some (record l { buffer = xs; size = len })

abbrev pub owned_all : List Bytes → List (Ref Bytes)
owned_all [] = []
owned_all (x ∷ xs) = Ref.owned x ∷ owned_all xs

abbrev pub dump_front : List Bytes → ℕ → Option (List (Ref Bytes))
dump_front [] skip = none
dump_front (front ∷ rest) skip =
    if skip == 0
    then some (Ref.owned front ∷ owned_all rest)
    else (substr skip front >>= λ view. some (Ref.owned view ∷ owned_all rest))

-- `BufferList::dump_all`: the strings it moves out. No caller uses the parser after it.
unfoldable pub dump_all : BufferList → Option (List (Ref Bytes))
unfolding substr
dump_all l = if l.size == 0 then some [] else dump_front l.buffer l.skip

abbrev pub views : List Bytes → ℕ → Option (List Bytes)
views [] skip = some []
views (x ∷ xs) skip = do view ← substr skip x; rest ← views xs 0; some (view ∷ rest)

-- `BufferList::buffer`
unfoldable pub buffer : BufferList → Option (List Bytes)
unfolding substr
buffer l = if l.size == 0 then some [] else views l.buffer l.skip

-- The `Parser` itself: its operations change the parser, and those with an `out` parameter take its
-- old value and return the new one.
abbrev pub Parse {ℓ} : Type ℓ → Type ℓ
Parse A = Parser → Option (A × Parser)

abbrev pub check_size : ℕ → Parser → Parser
check_size n p = if ltb p.input.size n then record p { error = true } else p

abbrev pub has_error : Parse Bool
has_error p = some (p.error, p)

abbrev pub set_error : Parse (Unit {0})
set_error p = some (tt, record p { error = true })

unfoldable pub remove_prefix : ℕ → Parse (Unit {0})
unfolding remove_bytes
remove_prefix n p = do l ← remove_bytes p.input n; some (tt, record p { input = l })

unfoldable pub truncate : ℕ → Parse (Unit {0})
unfolding truncate_list
truncate len p = do l ← truncate_list p.input len; some (tt, record p { input = l })

-- `front()` of an empty view is undefined.
abbrev pub front : Bytes → Option ℕ
front [] = none
front (b ∷ bs) = some b

-- One round of `integer`'s loop on the input.
unfoldable pub next_byte : Parse ℕ
unfolding peek remove_prefix
next_byte p = do view ← peek p.input; b ← front view; (u, p') ← remove_prefix 1 p; some (b, p')

-- `out <<= 8` and `out |= byte` on an integer of `w` bytes: the eight low bits are zero in between.
unfoldable pub integer_loop : ℕ → ℕ → ℕ → Parse ℕ
unfolding next_byte
integer_loop w zero out p = some (out, p)
integer_loop w (suc k) out p = do
  (b, p') ← next_byte p
  integer_loop w k (out * 2 ^ 8 % 2 ^ (8 * w) + b) p'

-- `Parser::integer` for an unsigned type of `w` bytes. On one byte the loop's only round gives the
-- byte itself.
unfoldable pub integer : ℕ → ℕ → Parse ℕ
unfolding integer_loop
integer w out p =
    let p' = check_size w p in if p'.error then some (out, p') else integer_loop w w 0 p'

-- The loop of `Parser::string`; `n` bytes of the span are still to be written.
unfoldable pub string_loop : ℕ → ℕ → Bytes → Parse Bytes
unfolding peek remove_prefix
string_loop zero n out p = none
string_loop (suc fuel) n out p = elim (n == 0) [
  | true ↦ some (out, p)
  | false ↦ do
    peeked ← peek p.input
    let view = take n peeked
    (u, p') ← remove_prefix (length view) p
    string_loop fuel (n - length view) (out ++ view) p'
]

-- `Parser::string`: a round writes a byte at least, so one round more than the span is enough.
unfoldable pub string : Bytes → Parse Bytes
unfolding string_loop
string out p =
    let p' = check_size (length out) p in
    if p'.error then some (out, p') else string_loop (suc (length out)) (length out) [] p'

unfoldable pub append_all : Bytes → List (Ref Bytes) → Option Bytes
append_all out [] = some out
append_all out (r ∷ rs) = do s ← get_mut r; append_all (out ++ s) rs

abbrev pub concat_refs : List (Ref Bytes) → Option Bytes
concat_refs [] = some []
concat_refs (r ∷ rs) = append_all (release r) rs

-- `Parser::all_remaining` and `Parser::concatenate_all_remaining`, the last operation on a parser.
abbrev pub all_remaining : Parser → Option (List (Ref Bytes))
all_remaining p = dump_all p.input

unfoldable pub concatenate_all_remaining : Parser → Option Bytes
unfolding dump_all append_all
concatenate_all_remaining p = all_remaining p >>= concat_refs
