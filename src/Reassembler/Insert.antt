-- ===== src/Reassembler/Insert.antt =====
-- `insert` as a whole: the invariant of the reassembler, the set of indices that it has received,
-- and the bytes that it delivers.
use native.Mathlib.Nat.{le_refl}
use mathlib.Core.Bool.{or_assoc, or_comm}
use cs_144_minnow_tcp.Base.{
  ℕ, suc, ◌+◌, ◌≤◌, ◌<◌, ◌≡◌, ◌==◌, refl, subst, ◌∙◌, ap, ap₂, sym, Bool, true, false, ◌&&◌, ◌||◌,
  [], ◌∷◌, ◌++◌, arith, ltb, inl, inr, Bool-cases, length, mod64, add64,
}
use cs_144_minnow_tcp.ByteStream.{Bytes, ByteStream, available_capacity}
use cs_144_minnow_tcp.ByteStream.Inv
use cs_144_minnow_tcp.ByteStream.Inv.{contents, close-IsValid}
use cs_144_minnow_tcp.Reassembler.{
  Reassembler, Pending, clip, end_of, store, flush, insert, new, note_end, close_at_end,
}
use cs_144_minnow_tcp.Reassembler.Segments.{
  Apart, inside, covers, Agrees, AllAgree, Apart-mono, covers_before,
}
use cs_144_minnow_tcp.Reassembler.Clip.{Clipped, clip-Clipped, IsIndexed}
use cs_144_minnow_tcp.Reassembler.Behind.{store_nothing}
use cs_144_minnow_tcp.Reassembler.Store.{store-Stored}
use cs_144_minnow_tcp.Reassembler.Flush.{flush-Flushed, window_end}

-- The output is a valid stream, the acceptable window is a range of 64-bit indices, and the pending
-- entries stand apart in it, behind the first missing byte.
pub record IsValid (r : Reassembler) : Type 0 where
  pub output_valid : Inv.IsValid r.output
  pub in_range : window_end r.output < mod64
  pub apart : Apart (suc r.output.bytes_pushed) (window_end r.output) r.pending

-- Has the byte at stream index `i` arrived and been kept?
abbrev pub received : Reassembler → ℕ → Bool
received r i = ltb i r.output.bytes_pushed || covers r.pending i

-- The map after steps 1 to 3.
store-Clipped :
    (lo hi first : ℕ) (bytes : Bytes) (m : Pending) (c : ℕ × Bytes)
    → hi < mod64
    → Clipped lo hi first bytes c
    → Apart lo hi m
    → Apart lo hi (store c.0 c.1 m)
      × ((i : ℕ) → covers (store c.0 c.1 m) i ≡ (inside c.0 c.1 i || covers m i))
      × ((stream : ℕ → ℕ)
          → Agrees stream first bytes
          → AllAgree stream m
          → AllAgree stream (store c.0 c.1 m))
store-Clipped lo hi first bytes m (f, []) bound c a =
    rw (store_nothing f m) (a, λ i. nothing f i (covers m i), λ stream p q. q)
  where
    nothing : (f i : ℕ) (x : Bool) → x ≡ (inside f [] i || x)
    nothing f i x = ground arith
store-Clipped lo hi first bytes m (f, x ∷ b) bound c a =
    let w = c.within (omega arith) in
    let s = store-Stored lo hi f (x ∷ b) m bound w.0 (omega arith) w.1 a in
    (s.apart, s.cover, λ stream p q. s.agree stream (c.agree stream p) q)

-- What an insertion does.
pub record Inserted (r : Reassembler) (first : ℕ) (bytes : Bytes) (r' : Reassembler) : Type 0 where
  pub valid : IsValid r'
  pub window : window_end r'.output ≡ window_end r.output
  pub cover :
      (i : ℕ)
      → received r' i ≡ (received r i || (inside first bytes i && ltb i (window_end r.output)))
  pub fresh : Bytes
  pub delivers : contents r'.output ≡ contents r.output ++ fresh
  pub count : r'.output.bytes_pushed ≡ r.output.bytes_pushed + length fresh
  pub agree :
      (stream : ℕ → ℕ)
      → Agrees stream first bytes
      → AllAgree stream r.pending
      → Agrees stream r.output.bytes_pushed fresh × AllAgree stream r'.pending
  pub closes :
      r'.output.closed
      ≡ (r.output.closed || (r'.eof_seen && r'.output.bytes_pushed == r'.end_index))
  pub same_popped : r'.output.bytes_popped ≡ r.output.bytes_popped
  pub same_capacity : r'.output.capacity ≡ r.output.capacity
  pub same_error : r'.output.error ≡ r.output.error

-- The last test of `insert` only closes the stream.
module _ (out : ByteStream) (end_index : ℕ) (eof_seen : Bool) where
  close_at_end-IsValid : Inv.IsValid out → Inv.IsValid (close_at_end out end_index eof_seen)
  close_at_end-IsValid v = elim (Bool-cases (eof_seen && out.bytes_pushed == end_index)) [
    | inl e ↦ rw e (close-IsValid out v)
    | inr e ↦ rw e v
  ]

  close_at_end_lem :
      let out' = close_at_end out end_index eof_seen in
      (out'.bytes_pushed ≡ out.bytes_pushed)
      × (contents out' ≡ contents out)
      × (window_end out' ≡ window_end out)
      × (out'.bytes_popped ≡ out.bytes_popped)
      × (out'.capacity ≡ out.capacity)
      × (out'.error ≡ out.error)
      × (out'.closed ≡ (out.closed || (eof_seen && out.bytes_pushed == end_index)))
  close_at_end_lem = elim (Bool-cases (eof_seen && out.bytes_pushed == end_index)) [
    | inl e ↦ rw e (refl, refl, refl, refl, refl, refl, or_comm true out.closed)
    | inr e ↦ rw e (refl, refl, refl, refl, refl, refl, or_comm false out.closed)
  ]

window_ordered : (r : Reassembler) → IsValid r → r.output.bytes_pushed ≤ window_end r.output
window_ordered r v = omega arith

or_right_comm : (a b c : Bool) → (a || b || c) ≡ (a || c || b)
or_right_comm a b c = or_assoc a b c ∙ ap (◌||◌ a) (or_comm b c) ∙ sym (or_assoc a c b)

-- An insertion keeps the invariant; it adds to the received indices exactly those of the substring
-- that the window accepts; it appends to the output the bytes up to the first missing index; and it
-- closes the output exactly when the noted end is reached.
pub insert-Inserted :
    (r : Reassembler) (first : ℕ) (bytes : Bytes) (is_last : Bool)
    → IsValid r
    → IsIndexed (window_end r.output) first bytes
    → Inserted r first bytes (insert r first bytes is_last)
unfolding insert
insert-Inserted r first bytes is_last v indexed =
    let lo = r.output.bytes_pushed in
    let hi = window_end r.output in
    let wide = add64 lo (available_capacity r.output) in
    let same : wide ≡ hi = omega (arith, v.in_range) in
    let clipped = clip lo wide first bytes in
    let c =
      subst (λ h. Clipped lo h first bytes clipped) same
        (clip-Clipped lo wide first bytes (omega (arith, same)) (omega arith)
          (subst (λ h. IsIndexed h first bytes) (sym same) indexed)) in
    let (apart, cover, agree) =
      store-Clipped lo hi first bytes r.pending clipped v.in_range c
        (Apart-mono (suc lo) lo hi hi r.pending (omega arith) (le_refl hi) v.apart) in
    let stored = store clipped.0 clipped.1 r.pending in
    let f = flush-Flushed r.output stored v.output_valid v.in_range apart in
    let out = (flush r.output stored).0 in
    let rest = (flush r.output stored).1 in
    let noted = note_end r first bytes is_last in
    let end = close_at_end out noted.end_index noted.eof_seen in
    let (pushed, held, window, popped, capacity, error, closed) =
      close_at_end_lem out noted.end_index noted.eof_seen in
    record {
      valid = record {
        output_valid = close_at_end-IsValid out noted.end_index noted.eof_seen f.valid;
        in_range = omega (arith, window, f.window, v.in_range);
        apart =
            subst (λ k. Apart (suc k) (window_end end) rest) (sym pushed)
              (subst (λ h. Apart (suc out.bytes_pushed) h rest) (sym (window ∙ f.window)) f.apart);
      };
      window = window ∙ f.window;
      cover = λ i.
          ap (λ k. ltb i k || covers rest i) pushed
          ∙ f.cover i
          ∙ ap (◌||◌ (ltb i lo)) (cover i)
          ∙ sym (or_assoc (ltb i lo) (inside clipped.0 clipped.1 i) (covers r.pending i))
          ∙ ap (λ x. x || covers r.pending i) (c.cover i)
          ∙ or_right_comm (ltb i lo) (inside first bytes i && ltb i hi) (covers r.pending i);
      fresh = f.fresh;
      delivers = held ∙ f.bytes;
      count = pushed ∙ f.count;
      agree = λ stream p q. f.agree stream (agree stream p q);
      closes =
          closed
          ∙ ap₂ (λ a k. a || (noted.eof_seen && k == noted.end_index)) f.same_closed (sym pushed);
      same_popped = popped ∙ f.same_popped;
      same_capacity = capacity ∙ f.same_capacity;
      same_error = error ∙ f.same_error;
    }

-- The next missing byte has not been received: the output never lags behind what has arrived.
pub received_next : (r : Reassembler) → IsValid r → received r r.output.bytes_pushed ≡ false
received_next r v = ground (
  arith,
  covers_before (suc r.output.bytes_pushed) (window_end r.output) r.output.bytes_pushed r.pending
      v.apart,
)

pub new-IsValid : (out : ByteStream) → Inv.IsValid out → window_end out < mod64 → IsValid (new out)
unfolding new
new-IsValid out v h = record { output_valid = v; in_range = h; apart = tt }

-- The last substring notes where the stream ends; any other leaves the note alone.
pub insert_end :
    (r : Reassembler) (first : ℕ) (bytes : Bytes)
    → ((insert r first bytes true).eof_seen ≡ true)
      × ((insert r first bytes true).end_index ≡ end_of first bytes)
      × ((insert r first bytes false).eof_seen ≡ r.eof_seen)
      × ((insert r first bytes false).end_index ≡ r.end_index)
unfolding insert
insert_end r first bytes = (refl, refl, refl, refl)

-- The bytes received determine how far the output has come.
pub pushed_le :
    (r r' : Reassembler)
    → IsValid r
    → ((i : ℕ) → received r i ≡ received r' i)
    → r'.output.bytes_pushed ≤ r.output.bytes_pushed
pushed_le r r' v e = ground (arith, received_next r v, e r.output.bytes_pushed)

-- A substring that starts at the end of the window or behind it leaves what is received alone.
pub insert_refused :
    (r : Reassembler) (first : ℕ) (bytes : Bytes) (is_last : Bool)
    → IsValid r
    → window_end r.output ≤ first
    → let r' = insert r first bytes is_last in
      (r'.output.bytes_pushed ≡ r.output.bytes_pushed) × ((i : ℕ) → received r' i ≡ received r i)
insert_refused r first bytes is_last v out =
    let r' = insert r first bytes is_last in
    let ins = insert-Inserted r first bytes is_last v (inl out) in
    let same : (i : ℕ) → received r' i ≡ received r i = λ i.
      ins.cover i ∙ ap (◌||◌ (received r i)) (none_inside i) ∙ sym (or_comm false (received r i)) in
    (omega (arith, pushed_le r' r ins.valid same, pushed_le r r' v (λ i. sym (same i))), same)
  where
    none_inside : (i : ℕ) → (inside first bytes i && ltb i (window_end r.output)) ≡ false
    none_inside i = ground arith
