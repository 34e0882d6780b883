-- ===== src/ByteStream/Chunks.antt =====
-- `peek` of src/byte_stream.cc, and a rule for loops that peek and pop.
use cs_144_minnow_tcp.Base.{
  ℕ, zero, suc, ◌+◌, ◌-◌, ◌≤◌, ◌<◌, ◌≡◌, refl, subst, ap, ap₂, sym, ◌∙◌, false, ◌&&◌, Option, some,
  List, [], ◌∷◌, ◌++◌, append-nil, append_assoc, arith, min, length, take, drop, flatten,
  length-append, length-take, length-drop, drop-drop, take-add, is_empty, Bool-cases, ltb, inl, inr,
  ◌⊎◌,
}
use cs_144_minnow_tcp.ByteStream.{Bytes, ByteStream, bytes_buffered, pop, peek, peek_segments}
use cs_144_minnow_tcp.ByteStream.Inv.{IsValid, contents, held, Fits}
use cs_144_minnow_tcp.ByteStream.Ops.{Popped, pop-Popped, drop-min}

is_empty_of_pos : (b : Bytes) → 0 < length b → is_empty b ≡ false
is_empty_of_pos [] h = elim h [ ]
is_empty_of_pos (x ∷ b) h = refl

pos_of_not_empty : (b : Bytes) → is_empty b ≡ false → 0 < length b
pos_of_not_empty [] h = absurd (ground arith)
pos_of_not_empty (x ∷ b) h = omega arith

is_empty_append : (a b : Bytes) → is_empty a ≡ false → is_empty (a ++ b) ≡ false
is_empty_append [] b h = absurd (ground arith)
is_empty_append (x ∷ a) b h = refl

-- A peek of a stream that holds bytes.
peek_segments_front :
    (xs : List Bytes) (skip : ℕ)
    → Fits xs skip
    → (view : Bytes) × (rest : Bytes) × (peek_segments xs skip ≡ some view)
      × (held xs skip ≡ view ++ rest)
      × (is_empty view ≡ is_empty (held xs skip))
unfolding peek_segments
peek_segments_front [] skip f = ([], [], refl, refl, refl)
peek_segments_front (x ∷ xs) skip f =
    let some_left = is_empty_of_pos (drop skip x) (omega (arith, length-drop skip x)) in
    (
      drop skip x,
      flatten xs,
      ground arith,
      refl,
      some_left ∙ sym (is_empty_append (drop skip x) (flatten xs) some_left),
    )

-- A peek of a valid stream never throws; it shows a prefix of the bytes held, which is empty
-- exactly if no byte is held.
pub peek-prefix :
    (s : ByteStream)
    → IsValid s
    → (view : Bytes) × (rest : Bytes) × (peek s ≡ some view)
      × (contents s ≡ view ++ rest)
      × (is_empty view ≡ is_empty (contents s))
unfolding peek
peek-prefix s v = peek_segments_front s.segments s.skip_in_front v.segments_fit

-- One round of a loop that peeks, takes at most `room` bytes of the view and pops them.
pub record Chunk (s : ByteStream) (room : ℕ) : Type 0 where
  pub view : Bytes
  pub after : ByteStream
  pub peeks : peek s ≡ some view
  pub nonempty : is_empty view ≡ false
  pub pops : pop s (length (take room view)) ≡ some after
  pub popped : Popped s (length (take room view)) after
  pub oldest : take room view ≡ take (length (take room view)) (contents s)
  pub progress : 0 < length (take room view)
  pub fits : length (take room view) ≤ room
  pub held_enough : length (take room view) ≤ length (contents s)

take-length-take : (room : ℕ) (a b : Bytes) → take room a ≡ take (length (take room a)) (a ++ b)
take-length-take zero a b = refl
take-length-take (suc room) [] b = refl
take-length-take (suc room) (x ∷ a) b = ap (◌∷◌ x) (take-length-take room a b)

pub next-Chunk :
    (s : ByteStream) (room : ℕ) → IsValid s → 0 < length (contents s) → 0 < room → Chunk s room
next-Chunk s room v some_held some_room =
    let (view, rest, e, split, front) = peek-prefix s v in
    let (s', p, d) = pop-Popped s (length (take room view)) v in
    let size = length-take room view in
    let positive = pos_of_not_empty view (front ∙ is_empty_of_pos (contents s) some_held) in
    record {
      view = view;
      after = s';
      peeks = e;
      nonempty = is_empty_of_pos view positive;
      pops = p;
      popped = d;
      oldest = take-length-take room view rest ∙ ap (take (length (take room view))) (sym split);
      progress = omega (arith, size, positive);
      fits = omega (arith, size);
      held_enough = omega (arith, size, ap length split, length-append view rest);
    }

pub Popped-zero :
    (s : ByteStream) (n : ℕ) → IsValid s → min n (length (contents s)) ≡ 0 → Popped s n s
Popped-zero s n v e = record {
  valid = v;
  bytes = ap (λ k. drop k (contents s)) (sym e) ∙ drop-min n (contents s);
  count = omega (arith, v.popped_fits);
  same_pushed = refl;
  same_capacity = refl;
  same_closed = refl;
  same_error = refl;
}

-- Two pops in a row.
pub Popped-trans :
    {s s' s'' : ByteStream} (m n : ℕ)
    → m ≤ length (contents s)
    → Popped s m s'
    → Popped s' n s''
    → Popped s (m + n) s''
Popped-trans {s} {s'} {s''} m n h p q = record {
  valid = q.valid;
  bytes = q.bytes ∙ ap (drop n) p.bytes ∙ drop-drop n m (contents s);
  count = omega (arith, p.count, q.count, ap length p.bytes, length-drop m (contents s));
  same_pushed = q.same_pushed ∙ p.same_pushed;
  same_capacity = q.same_capacity ∙ p.same_capacity;
  same_closed = q.same_closed ∙ p.same_closed;
  same_error = q.same_error ∙ p.same_error;
}

-- Taking a chunk and then the rest is taking it all.
pub Chunk-take :
    {s : ByteStream} {room : ℕ} (c : Chunk s room)
    → let piece = take room c.view in
      piece ++ take (room - length piece) (contents c.after) ≡ take room (contents s)
Chunk-take {s} {room} c =
    let k = length (take room c.view) in
    ap₂ ◌++◌ c.oldest (ap (take (room - k)) c.popped.bytes)
    ∙ take-add k (room - k) (contents s)
    ∙ ap (λ k. take k (contents s)) (omega (arith, c.fits))

-- The tail of a loop that took a chunk pops what is left of the room.
pub Chunk-Popped :
    {s s' : ByteStream} {room : ℕ} (c : Chunk s room)
    → Popped c.after (room - length (take room c.view)) s'
    → Popped s room s'
Chunk-Popped {s} {s'} {room} c p =
    let k = length (take room c.view) in
    subst (λ m. Popped s m s') (omega (arith, c.fits))
      (Popped-trans k (room - k) c.held_enough c.popped p)

pub length-after :
    {s : ByteStream} {room : ℕ} (c : Chunk s room) → length (contents c.after) < length (contents s)
length-after {s} {room} c = omega (
  arith,
  c.progress,
  c.held_enough,
  ap length c.popped.bytes,
  length-drop (length (take room c.view)) (contents s),
)

take_none : (n : ℕ) (b : Bytes) → min n (length b) ≡ 0 → take n b ≡ []
take_none zero b e = refl
take_none (suc n) [] e = refl
take_none (suc n) (x ∷ b) e = absurd (omega arith)

-- A loop with fuel that stops when the room or the stream is used up, and otherwise takes a chunk.
module _ (loop : ℕ → ByteStream → Bytes → Option (Bytes × ByteStream)) (max_len : ℕ)
    (stops : (fuel : ℕ) (s : ByteStream) (out : Bytes)
      → IsValid s
      → min (max_len - length out) (length (contents s)) ≡ 0
      → loop (suc fuel) s out ≡ some (out, s))
    (rounds : (fuel : ℕ) (s : ByteStream) (out : Bytes)
      → IsValid s
      → 0 < length (contents s)
      → length out < max_len
      → (c : Chunk s (max_len - length out))
      → loop (suc fuel) s out ≡ loop fuel c.after (out ++ take (max_len - length out) c.view)) where
  min_cases :
      (out bytes : Bytes)
      → ((0 < length bytes) × (length out < max_len))
        ⊎ (min (max_len - length out) (length bytes) ≡ 0)
  min_cases out bytes = elim (Bool-cases (ltb (length out) max_len && ltb 0 (length bytes))) [
    | inl more ↦ inl (ground arith, ground arith)
    | inr done ↦ inr (ground arith)
  ]

  loop_reads :
      (fuel : ℕ) (s : ByteStream) (out : Bytes)
      → IsValid s
      → length (contents s) < fuel
      → (s' : ByteStream) × (loop fuel s out
          ≡ some (out ++ take (max_len - length out) (contents s), s'))
        × Popped s (max_len - length out) s'
  loop_reads zero s out v enough = elim enough [ ]
  loop_reads (suc fuel) s out v enough = elim (min_cases out (contents s)) [
    | inl (some_held, some_room) ↦
        let room = max_len - length out in
        let c = next-Chunk s room v some_held (omega arith) in
        let piece = take room c.view in
        let (s', e, p) =
          loop_reads fuel c.after (out ++ piece) c.popped.valid (omega (arith, length-after c)) in
        let left : max_len - length (out ++ piece) ≡ room - length piece =
          omega (arith, length-append out piece) in
        let whole = ap (λ k. piece ++ take k (contents c.after)) left ∙ Chunk-take c in
        (
          s',
          rounds fuel s out v some_held some_room c
              ∙ e
              ∙ ap (λ o. some (o, s')) (append_assoc out piece _ ∙ ap (◌++◌ out) whole),
          Chunk-Popped c (subst (λ k. Popped c.after k s') left p),
        )
    | inr nothing ↦
        let none_left = take_none (max_len - length out) (contents s) nothing in
        (
          s,
          stops fuel s out v nothing
              ∙ ap (λ o. some (o, s)) (sym (ap (◌++◌ out) none_left ∙ append-nil out)),
          Popped-zero s (max_len - length out) v nothing,
        )
  ]

  pub loop_reads_all :
      (s : ByteStream)
      → IsValid s
      → (s' : ByteStream) × (loop (suc (bytes_buffered s)) s []
          ≡ some (take max_len (contents s), s'))
        × Popped s max_len s'
  loop_reads_all s v =
      subst
        (λ k.
          (s' : ByteStream) × (loop (suc (bytes_buffered s)) s [] ≡ some (take k (contents s), s'))
          × Popped s k s')
        (let e : max_len - 0 ≡ max_len = omega arith in e)
        (loop_reads (suc (bytes_buffered s)) s [] v (omega (arith, v.counted)))
