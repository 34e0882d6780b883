-- ===== src/ByteStream/Inv.antt =====
-- The representation invariant of the stream, and what each operation does to the bytes it holds.
use cs_144_minnow_tcp.Base.{
  ℕ, ◌+◌, ◌-◌, ◌≤◌, ◌<◌, ◌≡◌, refl, ap, sym, ◌∙◌, false, Option, some, List, [], ◌∷◌, ◌++◌,
  append-nil, append_assoc, arith, length, drop, flatten, flatten-append, length-append,
  length-drop, drop-append_left, drop-append_right, drop-drop, drop_all, mod64, sub64, add64,
  Bool-cases, leb, ◌==◌, ==_iff, leb→le, leb→lt, inl, inr,
}
use Prim.Native.Nat.{zero-le}
use cs_144_minnow_tcp.ByteStream.{
  Bytes, ByteStream, new, close, set_error, bytes_buffered, pop_loop,
}

-- Every segment holds a byte, and a std::string is shorter than 2 ^ 64.
abbrev pub AllProper : List Bytes → Type 0
AllProper [] = Unit {0}
AllProper (x ∷ xs) = (0 < length x) × (length x < mod64) × AllProper xs

-- The skip stands inside the front segment.
abbrev pub Fits : List Bytes → ℕ → Type 0
Fits [] skip = skip ≡ 0
Fits (x ∷ xs) skip = (skip < length x) × (length x < mod64) × AllProper xs

-- The bytes not yet popped, in order.
abbrev pub held : List Bytes → ℕ → Bytes
held [] skip = []
held (x ∷ xs) skip = drop skip x ++ flatten xs

abbrev pub contents : ByteStream → Bytes
contents s = held s.segments s.skip_in_front

pub record IsValid (s : ByteStream) : Type 0 where
  pub capacity_fits : s.capacity < mod64
  pub pushed_fits : s.bytes_pushed < mod64
  pub popped_fits : s.bytes_popped < mod64
  pub segments_fit : Fits s.segments s.skip_in_front
  pub counted : bytes_buffered s ≡ length (contents s)
  pub bounded : length (contents s) ≤ s.capacity

pub new-IsValid : (capacity : ℕ) → capacity < mod64 → IsValid (new capacity)
unfolding new
new-IsValid capacity h = omega arith

-- `close` and `set_error` touch no byte.
module _ (s : ByteStream) (v : IsValid s) where
  pub close-IsValid : IsValid (close s)
  close-IsValid = record {
    capacity_fits = v.capacity_fits;
    pushed_fits = v.pushed_fits;
    popped_fits = v.popped_fits;
    segments_fit = v.segments_fit;
    counted = v.counted;
    bounded = v.bounded;
  }

  pub set_error-IsValid : IsValid (set_error s)
  set_error-IsValid = record {
    capacity_fits = v.capacity_fits;
    pushed_fits = v.pushed_fits;
    popped_fits = v.popped_fits;
    segments_fit = v.segments_fit;
    counted = v.counted;
    bounded = v.bounded;
  }

AllProper-snoc :
    (xs : List Bytes) (y : Bytes)
    → AllProper xs
    → 0 < length y
    → length y < mod64
    → AllProper (xs ++ (y ∷ []))
AllProper-snoc [] y a h k = (h, k, tt)
AllProper-snoc (x ∷ xs) y a h k = (a.0, a.1, AllProper-snoc xs y a.2 h k)

pub Fits-snoc :
    (xs : List Bytes) (skip : ℕ) (y : Bytes)
    → Fits xs skip
    → 0 < length y
    → length y < mod64
    → Fits (xs ++ (y ∷ [])) skip
Fits-snoc [] skip y f h k = (omega arith, k, tt)
Fits-snoc (x ∷ xs) skip y f h k = (f.0, f.1, AllProper-snoc xs y f.2 h k)

pub held-snoc :
    (xs : List Bytes) (skip : ℕ) (y : Bytes)
    → Fits xs skip
    → held (xs ++ (y ∷ [])) skip ≡ held xs skip ++ y
held-snoc [] skip y f = append-nil (drop skip y) ∙ ap (λ k. drop k y) f
held-snoc (x ∷ xs) skip y f =
    ap (◌++◌ (drop skip x)) (flatten-append xs (y ∷ []) ∙ ap (◌++◌ (flatten xs)) (append-nil y))
    ∙ sym (append_assoc (drop skip x) (flatten xs) y)

-- What `Reader::pop` leaves after its loop.
abbrev PoppedTo : Option (List Bytes × ℕ) → Bytes → Type 0
PoppedTo result rest =
    (xs : List Bytes) × (skip : ℕ) × (result ≡ some (xs, skip))
    × Fits xs skip
    × (held xs skip ≡ rest)

pub AllProper-Fits : (xs : List Bytes) → AllProper xs → Fits xs 0
AllProper-Fits [] a = refl
AllProper-Fits (x ∷ xs) a = a

pub held-zero : (xs : List Bytes) → held xs 0 ≡ flatten xs
held-zero [] = refl
held-zero (x ∷ xs) = refl

-- The loop of `Reader::pop` ends without a fault, and drops exactly `len` bytes.
pub pop_loop_drops :
    (len : ℕ) (xs : List Bytes) (skip : ℕ)
    → Fits xs skip
    → len ≤ length (held xs skip)
    → PoppedTo (pop_loop len xs skip) (drop len (held xs skip))
unfolding pop_loop
pop_loop_drops len [] skip f h = ([], skip, ground arith, f, sym (drop_all len [] zero-le))
pop_loop_drops len (x ∷ xs) skip f h = elim (Bool-cases (len == 0)) [
  | inl done ↦ (
    x ∷ xs,
    skip,
    rw done,
    f,
    ap (λ k. drop k (held (x ∷ xs) skip)) (sym ((==_iff len 0).0 done)),
  )
  | inr more ↦ elim (Bool-cases (leb remaining len)) [
    | inl whole ↦
        rw (more, whole)
          (let (ys, skip', e, f', d) =
              pop_loop_drops (len - remaining) xs 0 (AllProper-Fits xs f.2)
                (fewer (leb→le _ _ whole)) in
            (
              ys,
              skip',
              e,
              f',
              d ∙ ap (drop (len - remaining)) (held-zero xs) ∙ skipped (leb→le _ _ whole),
            ))
    | inr part ↦ rw (more, part) (x ∷ xs, add64 skip len, refl, (room part).1, within part)
  ]
]
  where
    remaining : ℕ
    remaining = sub64 (length x) skip

    exact : remaining ≡ length (drop skip x)
    exact = omega (arith, length-drop skip x)

    fewer : remaining ≤ len → len - remaining ≤ length (held xs 0)
    fewer le =
        omega (arith, ap length (held-zero xs), length-append (drop skip x) (flatten xs), exact)

    skipped : remaining ≤ len → drop (len - remaining) (flatten xs) ≡ drop len (held (x ∷ xs) skip)
    skipped le =
        ap (λ k. drop (len - k) (flatten xs)) exact
        ∙ sym (drop-append_right len (drop skip x) (flatten xs) (omega (arith, exact)))

    room :
        leb remaining len ≡ false → (add64 skip len ≡ skip + len) × Fits (x ∷ xs) (add64 skip len)
    room p = let lt = leb→lt remaining len p in (omega arith, (omega arith, f.1, f.2))

    within :
        leb remaining len ≡ false → held (x ∷ xs) (add64 skip len) ≡ drop len (held (x ∷ xs) skip)
    within p =
        ap (λ k. drop k x ++ flatten xs) (room p).0
        ∙ ap (λ ys. ys ++ flatten xs) (sym (drop-drop len skip x))
        ∙ sym (
            drop-append_left len (drop skip x) (flatten xs)
              (omega (arith, leb→lt remaining len p, exact)))
