-- ===== src/ByteStream/Ops.antt =====
-- `push` and `pop` of src/byte_stream.cc on the bytes held.
use Prim.Native.Nat.{zero-le}
use cs_144_minnow_tcp.Base.{
  ℕ, suc, ◌+◌, ◌<◌, ◌≡◌, refl, ap, sym, ◌∙◌, false, some, List, [], ◌∷◌, ◌++◌, append-nil, arith,
  min, length, take, drop, length-append, length-take, length-drop, take_all, drop_all, mod64,
  add64, Bool-cases, ltb, leb, ◌==◌, ==_iff, leb→le, leb→lt, ltb→le, inl, inr,
}
use cs_144_minnow_tcp.ByteStream.{
  Bytes, ByteStream, bytes_buffered, available_capacity, push, pop, truncate,
}
use cs_144_minnow_tcp.ByteStream.Inv.{IsValid, contents, held, Fits-snoc, held-snoc, pop_loop_drops}

-- Under the invariant `available_capacity` is what the capacity leaves, without wrap-around.
pub available_capacity_lem :
    {s : ByteStream} → IsValid s → available_capacity s + length (contents s) ≡ s.capacity
available_capacity_lem v = omega arith

truncate-take : (avail : ℕ) (b : Bytes) → truncate avail b ≡ take avail b
truncate-take avail b = elim (Bool-cases (ltb avail (length b))) [
  | inl long ↦ rw long
  | inr short ↦ rw short (sym (take_all avail b (ltb→le _ _ short)))
]

-- What a push leaves.
pub record Pushed (s : ByteStream) (b : Bytes) (s' : ByteStream) : Type 0 where
  pub valid : IsValid s'
  pub bytes : contents s' ≡ contents s ++ take (available_capacity s) b
  pub count : s'.bytes_pushed ≡ add64 s.bytes_pushed (min (available_capacity s) (length b))
  pub same_popped : s'.bytes_popped ≡ s.bytes_popped
  pub same_capacity : s'.capacity ≡ s.capacity
  pub same_closed : s'.closed ≡ s.closed
  pub same_error : s'.error ≡ s.error

nothing_pushed :
    (s : ByteStream) (b : Bytes)
    → IsValid s
    → take (available_capacity s) b ≡ []
    → min (available_capacity s) (length b) ≡ 0
    → Pushed s b s
nothing_pushed s b v t m = record {
  valid = v;
  bytes = sym (ap (◌++◌ (contents s)) t ∙ append-nil (contents s));
  count = omega (arith, v.pushed_fits);
  same_popped = refl;
  same_capacity = refl;
  same_closed = refl;
  same_error = refl;
}

-- A push of fewer than 2 ^ 64 bytes keeps a valid stream valid, appends exactly the bytes that fit
-- and counts them.
pub push-Pushed :
    (s : ByteStream) (b : Bytes) → IsValid s → length b < mod64 → Pushed s b (push s b)
unfolding push
push-Pushed s [] v h =
    nothing_pushed s [] v (take_all (available_capacity s) [] zero-le) (omega arith)
push-Pushed s (x ∷ b) v h = elim (Bool-cases (available_capacity s == 0)) [
  | inl full ↦ rw full (
      nothing_pushed s (x ∷ b) v
        (ap (λ k. take k (x ∷ b)) ((==_iff (available_capacity s) 0).0 full))
        (omega (arith, (==_iff (available_capacity s) 0).0 full)))
  | inr room ↦
      rw (room, truncate-take avail (x ∷ b))
        (record {
          valid = record {
            capacity_fits = v.capacity_fits;
            pushed_fits = omega arith;
            popped_fits = v.popped_fits;
            segments_fit =
                Fits-snoc s.segments s.skip_in_front piece v.segments_fit (nonempty room)
                  (omega (arith, size));
            counted = omega (arith, v, size, grown, available_capacity_lem v);
            bounded = omega (arith, size, grown, available_capacity_lem v);
          };
          bytes = held-snoc s.segments s.skip_in_front piece v.segments_fit;
          count = ap (λ k. add64 s.bytes_pushed k) size;
          same_popped = refl;
          same_capacity = refl;
          same_closed = refl;
          same_error = refl;
        })
]
  where
    avail : ℕ
    avail = available_capacity s

    piece : Bytes
    piece = take avail (x ∷ b)

    size : length piece ≡ min avail (suc (length b))
    size = length-take avail (x ∷ b)

    nonempty : (avail == 0) ≡ false → 0 < length piece
    nonempty room = ground (arith, size)

    grown :
        length (held (s.segments ++ (piece ∷ [])) s.skip_in_front)
        ≡ length (contents s) + length piece
    grown =
        ap length (held-snoc s.segments s.skip_in_front piece v.segments_fit)
        ∙ length-append (contents s) piece

-- What a pop leaves.
pub record Popped (s : ByteStream) (n : ℕ) (s' : ByteStream) : Type 0 where
  pub valid : IsValid s'
  pub bytes : contents s' ≡ drop n (contents s)
  pub count : s'.bytes_popped ≡ add64 s.bytes_popped (min n (length (contents s)))
  pub same_pushed : s'.bytes_pushed ≡ s.bytes_pushed
  pub same_capacity : s'.capacity ≡ s.capacity
  pub same_closed : s'.closed ≡ s.closed
  pub same_error : s'.error ≡ s.error

pub drop-min {ℓ} : {A : Type ℓ} (n : ℕ) (xs : List A) → drop (min n (length xs)) xs ≡ drop n xs
drop-min n xs = elim (Bool-cases (leb n (length xs))) [
  | inl le ↦ ap (λ k. drop k xs) (omega (arith, leb→le n (length xs) le))
  | inr gt ↦
      drop_all (min n (length xs)) xs (omega (arith, leb→lt n (length xs) gt))
      ∙ sym (drop_all n xs (omega (arith, leb→lt n (length xs) gt)))
]

-- A pop of a valid stream never faults, keeps the invariant, discards exactly the first `n` bytes,
-- or all, and counts them.
pub pop-Popped :
    (s : ByteStream) (n : ℕ) → IsValid s → (s' : ByteStream) × (pop s n ≡ some s') × Popped s n s'
unfolding pop
pop-Popped s n v =
    let (xs, skip, e, f, d) =
      pop_loop_drops (min n (bytes_buffered s)) s.segments s.skip_in_front v.segments_fit
        (omega (arith, v.counted)) in
    let rest = d ∙ ap (λ k. drop (min n k) (contents s)) v.counted ∙ drop-min n (contents s) in
    let size = ap length rest ∙ length-drop n (contents s) in
    (
      record s {
        bytes_popped = add64 s.bytes_popped (min n (bytes_buffered s));
        segments = xs;
        skip_in_front = skip;
      },
      rw e,
      record {
        valid = record {
          capacity_fits = v.capacity_fits;
          pushed_fits = v.pushed_fits;
          popped_fits = omega arith;
          segments_fit = f;
          counted = omega (arith, size, v);
          bounded = omega (arith, size, v);
        };
        bytes = rest;
        count = ap (λ k. add64 s.bytes_popped (min n k)) v.counted;
        same_pushed = refl;
        same_capacity = refl;
        same_closed = refl;
        same_error = refl;
      },
    )
