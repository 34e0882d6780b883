-- ===== src/Parser/Truncate.antt =====
-- What is left to read after a parser's input was truncated.
use cs_144_minnow_tcp.Base.{
  ℕ, zero, suc, ◌+◌, ◌-◌, ◌≤◌, ◌<◌, ◌≡◌, refl, ap, sym, ◌∙◌, true, false, Option, none, some, List,
  [], ◌∷◌, ◌++◌, append-nil, subst, arith, length, take, drop, flatten, length-append, length-drop,
  length-take, take-append_left, take-append_right, drop-append_left, take_all, is_empty, mod64,
  add64, sub64, ltb, leb, lt→ltb, le→ltb, lt→leb, ltb→lt, ltb→le, leb→lt, Bool-cases, ◌==◌, ==_iff,
  inl, inr, ◌>>=◌, if◌then◌else◌,
}
use Prim.Native.Nat.{zero-le}
use cs_144_minnow_tcp.Ref.{objects}
use cs_144_minnow_tcp.ByteStream.{Bytes, substr}
use cs_144_minnow_tcp.ByteStream.Inv.{held}
use cs_144_minnow_tcp.Parser.{BufferList, truncate_list, cut_loop, dump_all}
use cs_144_minnow_tcp.Parser.Inv.{contents, IsValid}
use cs_144_minnow_tcp.Parser.Rest.{dump_all_rest, dump_all_front, objects-owned_all, positive}

-- The rounds of the loop, by where `len` falls.
module _ (len so_far : ℕ) (x : Bytes) (xs : List Bytes) (lt : so_far < len)
    (fits : so_far + length x < mod64) (small : len < mod64) where
  round_whole :
      (ys : List Bytes)
      → so_far + length x < len
      → cut_loop len (so_far + length x) xs ≡ some ys
      → cut_loop len so_far (x ∷ xs) ≡ some (x ∷ ys)
  unfolding cut_loop
  round_whole ys whole e =
      rw (lt→ltb (add64 so_far (length x)) len (omega arith)) rw
        (ap (λ n. cut_loop len n xs) {x = add64 so_far (length x)} {y = so_far + length x}
          (omega arith))
        rw e refl

  round_exact : so_far + length x ≡ len → cut_loop len so_far (x ∷ xs) ≡ some (x ∷ [])
  unfolding cut_loop
  round_exact e =
      rw (le→ltb (add64 so_far (length x)) len (omega arith)) rw
        ((==_iff (add64 so_far (length x)) len).1 (omega arith)) refl

  round_inside :
      len < so_far + length x → cut_loop len so_far (x ∷ xs) ≡ some (take (len - so_far) x ∷ [])
  unfolding cut_loop
  round_inside h =
      rw (le→ltb (add64 so_far (length x)) len (omega arith)) rw
        (differ (add64 so_far (length x)) len (omega arith)) rw (nonempty x (omega arith)) rw
        (lt→leb len so_far lt) rw (lt→leb (length x) (sub64 len so_far) (omega arith))
        (ap (λ n. some (take n x ∷ [])) (omega arith))
    where
      differ : (a b : ℕ) → b < a → (a == b) ≡ false
      differ a b h = ground arith

      nonempty : (ys : Bytes) → 0 < length ys → is_empty ys ≡ false
      nonempty [] h = elim h [ ]
      nonempty (y ∷ ys) h = refl

-- The buffers that the loops of `truncate` keep, when `len` falls inside them: the first is cut to
-- `len` at most.
abbrev Cut : Option (List Bytes) → ℕ → Bytes → List Bytes → Type 0
Cut result len x xs =
    (y : Bytes) × (ys : List Bytes) × (result ≡ some (y ∷ ys))
    × (flatten (y ∷ ys) ≡ take len (flatten (x ∷ xs)))
    × (y ≡ take len x)

take_append : (n : ℕ) (x ys : Bytes) → n ≤ length x → take n x ++ [] ≡ take n (x ++ ys)
take_append n x ys h = append-nil (take n x) ∙ sym (take-append_left n x ys h)

Cut-ends :
    (len so_far : ℕ) (x : Bytes) (xs : List Bytes)
    → so_far < len
    → so_far + length x < mod64
    → len < mod64
    → len ≤ so_far + length x
    → Cut (cut_loop len so_far (x ∷ xs)) (len - so_far) x xs
Cut-ends len so_far x xs lt room small le = elim (Bool-cases (so_far + length x == len)) [
  | inl exact ↦
      let e = (==_iff (so_far + length x) len).0 exact in
      let all = sym (take_all (len - so_far) x (omega (arith, e))) in
      (
        x,
        [],
        round_exact len so_far x xs lt room small e,
        ap (◌++ []) all ∙ take_append (len - so_far) x (flatten xs) (omega (arith, e)),
        all,
      )
  | inr inside ↦
      let past = beyond inside in
      (
        take (len - so_far) x,
        [],
        round_inside len so_far x xs lt room small past,
        take_append (len - so_far) x (flatten xs) (omega (arith, past)),
        refl,
      )
]
  where
    beyond : (so_far + length x == len) ≡ false → len < so_far + length x
    beyond h = ground arith

Cut-front :
    (len so_far : ℕ) (x : Bytes) (xs : List Bytes)
    → so_far < len
    → len < so_far + length (flatten (x ∷ xs))
    → so_far + length (flatten (x ∷ xs)) < mod64
    → Cut (cut_loop len so_far (x ∷ xs)) (len - so_far) x xs
Cut-front len so_far x [] lt within fits =
    let sum = length-append x [] in
    Cut-ends len so_far x [] lt (omega (arith, sum)) (omega arith) (omega (arith, sum))
Cut-front len so_far x (z ∷ zs) lt within fits =
    let sum = length-append x (flatten (z ∷ zs)) in
    elim (Bool-cases (ltb (so_far + length x) len)) [
      | inl is_whole ↦
          let whole = ltb→lt (so_far + length x) len is_whole in
          let (y, ys, got, kept, e) =
            Cut-front len (so_far + length x) z zs whole (omega (arith, sum))
              (omega (arith, sum)) in
          (
            x,
            y ∷ ys,
            round_whole len so_far x (z ∷ zs) lt (omega arith) (omega arith) (y ∷ ys) whole got,
            ap (x ++◌) kept
                ∙ ap (λ n. x ++ take n (flatten (z ∷ zs))) (omega arith)
                ∙ sym (take-append_right (len - so_far) x (flatten (z ∷ zs)) (omega arith)),
            sym (take_all (len - so_far) x (omega arith)),
          )
      | inr ends ↦
          Cut-ends len so_far x (z ∷ zs) lt (omega (arith, sum)) (omega arith)
            (ltb→le (so_far + length x) len ends)
    ]

-- The bytes that `all_remaining` gives after `truncate`.
unfoldable pub left_after : BufferList → ℕ → Option Bytes
unfolding truncate_list dump_all
left_after l len = do l' ← truncate_list l len; refs ← dump_all l'; some (flatten (objects refs))

-- Only `len` less the bytes read from the front buffer are left of a longer input. It throws if
-- that is negative.
abbrev pub cut_short : BufferList → ℕ → Option Bytes
cut_short l len =
    if leb l.size len
    then some (contents l)
    else if len == 0
    then some []
    else if ltb len l.skip
    then none
    else some (take (len - l.skip) (contents l))

drop-take : (m n : ℕ) (xs : Bytes) → drop m (take n xs) ≡ take (n - m) (drop m xs)
drop-take zero n xs = ap (λ k. take k xs) (omega arith)
drop-take (suc m) zero xs = ap (λ k. take k (drop (suc m) xs)) {x = 0} (omega arith)
drop-take (suc m) (suc n) [] = sym (take_all (suc n - suc m) [] zero-le)
drop-take (suc m) (suc n) (x ∷ xs) =
    drop-take m n xs ∙ ap (λ k. take k (drop m xs)) {y = suc n - suc m} (omega arith)

-- The case of a longer input that is cut inside its buffers.
module _ (len size skip : ℕ) (x : Bytes) (xs : List Bytes)
    (v : IsValid (record { size = size; buffer = x ∷ xs; skip = skip })) (some_left : 0 < len)
    (longer : len < size) where
  kept : Cut (cut_loop len 0 (x ∷ xs)) len x xs
  kept =
      subst (λ n. Cut (cut_loop len 0 (x ∷ xs)) n x xs) {x = len - 0} (omega arith)
        (Cut-front len 0 x xs some_left (omega (arith, whole)) (omega (arith, whole, v.bounded)))
    where
      whole : length (flatten (x ∷ xs)) ≡ size + skip
      whole = omega (
        arith,
        v.counted,
        v.fits.0,
        length-append x (flatten xs),
        length-append (drop skip x) (flatten xs),
        length-drop skip x,
      )

  cut_throws :
      len < skip → left_after (record { size = size; buffer = x ∷ xs; skip = skip }) len ≡ none
  unfolding left_after dump_all substr
  cut_throws h =
      let (y, ys, got, e, front) = kept in
      rw (lt→leb size len longer) rw (positive len some_left) rw got rw (positive len some_left) rw
        (positive skip (omega arith)) rw
        (lt→ltb (length y) skip (omega (arith, ap length front, length-take len x))) refl

  cut_keeps :
      skip ≤ len
      → left_after (record { size = size; buffer = x ∷ xs; skip = skip }) len
        ≡ some (take (len - skip) (held (x ∷ xs) skip))
  unfolding left_after
  cut_keeps h =
      let (y, ys, got, e, front) = kept in
      let room : skip ≤ length y = omega (arith, ap length front, length-take len x, v.fits.0) in
      rw (lt→leb size len longer) rw (positive len some_left) rw got rw
        (dump_all_front len y ys skip some_left room)
        (ap some (
          ap flatten (objects-owned_all (drop skip y ∷ ys))
          ∙ sym (drop-append_left skip y (flatten ys) room)
          ∙ ap (drop skip) e
          ∙ drop-take skip len (flatten (x ∷ xs))
          ∙ ap (take (len - skip))
              (drop-append_left skip x (flatten xs) (omega (arith, v.fits.0)))))

inside :
    (size len : ℕ) (xs : List Bytes) (skip : ℕ)
    → IsValid (record { size = size; buffer = xs; skip = skip })
    → 0 < len
    → len < size
    → left_after (record { size = size; buffer = xs; skip = skip }) len
      ≡ (if ltb len skip then none else some (take (len - skip) (held xs skip)))
inside size len [] skip v h longer =
    let absurd : 1 ≤ 0 = omega (arith, v.counted) in elim absurd [ ]
inside size len (x ∷ xs) skip v h longer = elim (Bool-cases (ltb len skip)) [
  | inl below ↦ rw below (cut_throws len size skip x xs v h longer (ltb→lt len skip below))
  | inr above ↦ rw above (cut_keeps len size skip x xs v h longer (ltb→le len skip above))
]

module _ (l : BufferList) (len : ℕ) (v : IsValid l) where
  untouched : leb l.size len ≡ true → left_after l len ≡ some (contents l)
  unfolding left_after
  untouched whole =
      let (xs, got, e) = dump_all_rest l v in
      rw whole rw got (ap some (ap flatten (objects-owned_all xs) ∙ e))

  cleared : leb l.size len ≡ false → (len == 0) ≡ true → left_after l len ≡ some []
  unfolding left_after dump_all
  cleared longer e = rw (longer, e) refl

  -- truncate of a valid buffer list to `len` bytes and a dump of the rest leave all bytes if no
  -- more than `len` are left, none if `len` is 0, and else only the first `len` less the bytes
  -- already read from the front buffer; if that is negative the dump throws.
  pub left_after_cut : left_after l len ≡ cut_short l len
  left_after_cut = elim (Bool-cases (leb l.size len)) [
    | inl whole ↦ rw whole (untouched whole)
    | inr longer ↦ elim (Bool-cases (len == 0)) [
      | inl none_kept ↦ rw (longer, none_kept) (cleared longer none_kept)
      | inr some_kept ↦
          rw (longer, some_kept)
            (inside l.size len l.buffer l.skip v (above_zero some_kept) (leb→lt l.size len longer))
    ]
  ]
    where
      above_zero : (len == 0) ≡ false → 0 < len
      above_zero h = ground arith
