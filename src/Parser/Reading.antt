-- ===== src/Parser/Reading.antt =====
-- What a parser reads: one byte, an integer, and nothing when the input is short.
use cs_144_minnow_tcp.Base.{
  ℕ, zero, suc, ◌+◌, ◌*◌, ◌%◌, ◌^◌, ◌≤◌, ◌<◌, ◌≡◌, refl, ap, ◌∙◌, Bool, true, false, ◌||◌, Option,
  some, List, [], ◌∷◌, ◌++◌, arith, length, take, drop, flatten, length-drop, Bool-cases, ltb,
  lt→ltb, le→ltb, ltb→lt, ltb→le, if◌then◌else◌, inl, inr,
}
use cs_144_minnow_tcp.ByteStream.{Bytes}
use cs_144_minnow_tcp.ByteStream.Inv.{Fits, held}
use cs_144_minnow_tcp.Parser.{
  Parser, peek, peek_front, front, next_byte, remove_prefix, integer, integer_loop,
}
use cs_144_minnow_tcp.Parser.Inv.{contents, IsValid, substr_within, remove_bytes_drops}

-- A parse that ends without a fault, with the value `a`, the input `rest` and the error flag `err`.
abbrev pub Gives {ℓ} : {A : Type ℓ} → Option (A × Parser) → A → Bytes → Bool → Type ℓ
Gives result a rest err =
    (p' : Parser) × (result ≡ some (a, p'))
    × IsValid p'.input
    × (contents p'.input ≡ rest)
    × (p'.error ≡ err)

pub remove_prefix_drops :
    (n : ℕ) (p : Parser)
    → IsValid p.input
    → Gives (remove_prefix n p) tt (drop n (contents p.input)) p.error
unfolding remove_prefix
remove_prefix_drops n p v =
    let (l, e, w, d) = remove_bytes_drops p.input n v in
    (record p { input = l }, rw e refl, w, d, refl)

front-append :
    (view ys : Bytes) (b : ℕ) (bs : Bytes)
    → 0 < length view
    → view ++ ys ≡ b ∷ bs
    → front view ≡ some b
front-append [] ys b bs h e = elim h [ ]
front-append (c ∷ cs) ys b bs h e = ap front e

peek_first :
    (xs : List Bytes) (skip : ℕ) (b : ℕ) (bs : Bytes)
    → Fits xs skip
    → held xs skip ≡ b ∷ bs
    → (view : Bytes) × (peek_front xs skip ≡ some view) × (front view ≡ some b)
peek_first [] skip b bs f e =
    let absurd : suc (length bs) ≤ 0 = omega (arith, ap length e) in elim absurd [ ]
peek_first (x ∷ xs) skip b bs f e = (
  drop skip x,
  substr_within skip x (omega (arith, f.0)),
  front-append (drop skip x) (flatten xs) b bs (omega (arith, length-drop skip x, f.0)) e,
)

pub next_byte_first :
    (p : Parser) (b : ℕ) (bs : Bytes)
    → IsValid p.input
    → contents p.input ≡ b ∷ bs
    → Gives (next_byte p) b bs p.error
unfolding next_byte peek
next_byte_first p b bs v e =
    let (view, seen, first) = peek_first p.input.buffer p.input.skip b bs v.fits e in
    let (p', removed, w, d, same) = remove_prefix_drops 1 p v in
    (p', rw (seen, first, removed) refl, w, d ∙ ap (drop 1) e, same)

-- The value that `integer` builds from bytes, most significant first, on `w` bytes.
abbrev pub value_from : ℕ → ℕ → Bytes → ℕ
value_from w out [] = out
value_from w out (b ∷ bs) = value_from w (out * 2 ^ 8 % 2 ^ (8 * w) + b) bs

pub integer_loop_reads :
    (w k out : ℕ) (p : Parser) (bs : Bytes)
    → IsValid p.input
    → contents p.input ≡ bs
    → k ≤ length bs
    → Gives (integer_loop w k out p) (value_from w out (take k bs)) (drop k bs) p.error
unfolding integer_loop
integer_loop_reads w zero out p bs v e h = (p, refl, v, e, refl)
integer_loop_reads w (suc k) out p [] v e h = elim h [ ]
integer_loop_reads w (suc k) out p (b ∷ bs) v e h =
    let (p', got, w', d, same) = next_byte_first p b bs v e in
    let (q, ends, u, d', same') =
      integer_loop_reads w k (out * 2 ^ 8 % 2 ^ (8 * w) + b) p' bs w' d (omega arith) in
    (q, rw got ends, u, d', same' ∙ same)

-- A result described by that of a flat parser, on the bytes still to read and the error flag.
abbrev pub Refines {ℓ} : {A : Type ℓ} → Option (A × Parser) → A × Bytes × Bool → Type ℓ
Refines result flat = Gives result flat.0 flat.1 flat.2

abbrev pub flat_integer : ℕ → ℕ → Bytes → Bool → ℕ × Bytes × Bool
flat_integer w out input error =
    if error || ltb (length input) w
    then (out, input, true)
    else (value_from w 0 (take w input), drop w input, false)

module _ (w out : ℕ) (p : Parser) (v : IsValid p.input) where
  pub integer_failed : p.error ≡ true → Gives (integer w out p) out (contents p.input) true
  unfolding integer
  integer_failed e = elim (Bool-cases (ltb p.input.size w)) [
    | inl short ↦ rw short (record p { error = true }, refl, v, refl, refl)
    | inr long ↦ simp (long, e) (p, refl, v, refl, e)
  ]

  pub integer_short :
      length (contents p.input) < w → Gives (integer w out p) out (contents p.input) true
  unfolding integer
  integer_short h =
      rw (lt→ltb p.input.size w (omega (arith, v.counted)))
        (record p { error = true }, refl, v, refl, refl)

  pub integer_long :
      p.error ≡ false
      → w ≤ length (contents p.input)
      → Gives
          (integer w out p)
          (value_from w 0 (take w (contents p.input)))
          (drop w (contents p.input))
          false
  unfolding integer
  integer_long e h =
      let (q, ends, u, d, same) = integer_loop_reads w w 0 p (contents p.input) v refl h in
      simp (le→ltb p.input.size w (omega (arith, v.counted)), e) (q, ends, u, d, same ∙ e)

  pub integer-flat : Refines (integer w out p) (flat_integer w out (contents p.input) p.error)
  integer-flat = elim (Bool-cases p.error) [
    | inl failed ↦ simp failed (integer_failed failed)
    | inr fine ↦ elim (Bool-cases (ltb (length (contents p.input)) w)) [
      | inl short ↦ simp (fine, short) (integer_short (ltb→lt _ _ short))
      | inr long ↦ simp (fine, long) (integer_long fine (ltb→le _ _ long))
    ]
  ]
