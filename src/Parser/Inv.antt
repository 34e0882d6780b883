-- ===== src/Parser/Inv.antt =====
-- The representation invariant of the parser's buffers, and what removing a prefix does to the bytes
-- they hold.
use cs_144_minnow_tcp.Base.{
  ℕ, ◌+◌, ◌-◌, ◌≤◌, ◌<◌, ◌≡◌, refl, ap, sym, ◌∙◌, min, true, false, Option, some, List, [], ◌∷◌,
  ◌++◌, arith, length, drop, flatten, length-append, length-drop, drop-append_left,
  drop-append_right, drop-drop, drop_all, mod64, sub64, add64, Bool-cases, leb, ◌==◌, ==_iff,
  leb→le, leb→lt, le→ltb, inl, inr,
}
use Prim.Native.Nat.{zero-le}
use cs_144_minnow_tcp.ByteStream.{Bytes, substr}
use cs_144_minnow_tcp.ByteStream.Inv.{Fits, held, AllProper-Fits, held-zero}
use cs_144_minnow_tcp.Parser.{BufferList, remove_loop, remove_bytes}

abbrev pub contents : BufferList → Bytes
contents l = held l.buffer l.skip

pub record IsValid (l : BufferList) : Type 0 where
  pub fits : Fits l.buffer l.skip
  pub counted : l.size ≡ length (contents l)
  pub bounded : l.size + l.skip < mod64

pub substr_within : (skip : ℕ) (x : Bytes) → skip ≤ length x → substr skip x ≡ some (drop skip x)
unfolding substr
substr_within skip x h = rw (le→ltb (length x) skip h) refl

-- A list of buffers that holds `rest`.
abbrev pub Leaves : Option BufferList → Bytes → Type 0
Leaves result rest = (l : BufferList) × (result ≡ some l) × IsValid l × (contents l ≡ rest)

pub remove_loop_drops :
    (len : ℕ) (xs : List Bytes) (skip size : ℕ)
    → IsValid (record { size = size; buffer = xs; skip = skip })
    → Leaves (remove_loop len xs skip size) (drop len (held xs skip))
unfolding remove_loop
remove_loop_drops len [] skip size v = (_, refl, v, sym (drop_all len [] zero-le))
remove_loop_drops len (x ∷ xs) skip size v = elim (Bool-cases (len == 0)) [
  | inl done ↦ (
    record { size = size; buffer = x ∷ xs; skip = skip },
    rw done refl,
    v,
    ap (λ k. drop k (held (x ∷ xs) skip)) (sym ((==_iff len 0).0 done)),
  )
  | inr more ↦ elim (Bool-cases (leb (length view) len)) [
    | inl whole ↦
        let le = leb→le (length view) len whole in
        rw (more, substr_within skip x (omega (arith, v.fits.0))) rw (at_end le)
          (let (l, e, w, d) =
              remove_loop_drops (len - min len (length view)) xs 0
                (sub64 size (min len (length view))) (next le) in
            (l, e, w, d ∙ skipped le))
    | inr part ↦
        let lt = leb→lt (length view) len part in
        rw (more, substr_within skip x (omega (arith, v.fits.0))) rw (inside lt)
          (_, refl, stays lt, within lt)
  ]
]
  where
    view : Bytes
    view = drop skip x

    size_of : size ≡ length view + length (flatten xs)
    size_of = omega (arith, v.counted, length-append view (flatten xs))

    len_of : length view ≡ length x - skip
    len_of = length-drop skip x

    popped : ℕ
    popped = min len (length view)

    at_end : length view ≤ len → (add64 skip popped == length x) ≡ true
    at_end le =
        (==_iff (add64 skip popped) (length x)).1 (omega (arith, len_of, v.fits.0, v.fits.1))

    next : length view ≤ len → IsValid (record { size = sub64 size popped; buffer = xs; skip = 0 })
    next le = record {
      fits = AllProper-Fits xs v.fits.2;
      counted = omega (arith, size_of, v.bounded, ap length (held-zero xs));
      bounded = omega (arith, size_of, v.bounded);
    }

    skipped : length view ≤ len → drop (len - popped) (held xs 0) ≡ drop len (held (x ∷ xs) skip)
    skipped le =
        ap (drop (len - popped)) (held-zero xs)
        ∙ ap (λ k. drop k (flatten xs)) (omega arith)
        ∙ sym (drop-append_right len view (flatten xs) le)

    inside : len < length view → (add64 skip popped == length x) ≡ false
    inside lt = ground (arith, len_of, v.fits.0, v.fits.1)

    moved : len < length view → add64 skip popped ≡ skip + len
    moved lt = omega (arith, len_of, v.fits.0, v.fits.1)

    within : len < length view → held (x ∷ xs) (add64 skip popped) ≡ drop len (held (x ∷ xs) skip)
    within lt =
        ap (λ k. drop k x ++ flatten xs) (moved lt)
        ∙ ap (λ ys. ys ++ flatten xs) (sym (drop-drop len skip x))
        ∙ sym (drop-append_left len view (flatten xs) (omega arith))

    stays :
        len < length view
        → IsValid (record { size = sub64 size popped; buffer = x ∷ xs; skip = add64 skip popped })
    stays lt = record {
      fits = (omega (arith, moved lt, len_of), v.fits.1, v.fits.2);
      counted = omega (
        arith,
        size_of,
        v.bounded,
        v.counted,
        ap length (within lt),
        length-drop len (held (x ∷ xs) skip),
      );
      bounded = omega (arith, size_of, moved lt, v.bounded);
    }

pub remove_bytes_drops :
    (l : BufferList) (len : ℕ) → IsValid l → Leaves (remove_bytes l len) (drop len (contents l))
unfolding remove_bytes
remove_bytes_drops l len v = remove_loop_drops len l.buffer l.skip l.size v
