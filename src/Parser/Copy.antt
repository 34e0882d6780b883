-- ===== src/Parser/Copy.antt =====
-- `Parser::string`: the loop that fills a span from the buffers.
use cs_144_minnow_tcp.Base.{
  ℕ, zero, suc, ◌-◌, ◌≤◌, ◌<◌, ◌≡◌, refl, ap, sym, ◌∙◌, Bool, true, false, ◌||◌, some, List, [],
  ◌∷◌, ◌++◌, append_assoc, append-nil, arith, length, take, drop, flatten, length-take, length-drop,
  take-add, Bool-cases, ltb, ltb→le, ◌==◌, ==_iff, if◌then◌else◌, inl, inr, drop-drop,
}
use cs_144_minnow_tcp.ByteStream.{Bytes}
use cs_144_minnow_tcp.ByteStream.Inv.{Fits, held}
use cs_144_minnow_tcp.Parser.{Parser, peek, peek_front, string, string_loop}
use cs_144_minnow_tcp.Parser.Inv.{contents, IsValid, substr_within}
use cs_144_minnow_tcp.Parser.Reading.{Gives, Refines, remove_prefix_drops}

-- The view of the front buffer: some of the bytes to come, and one at least.
peek_view :
    (xs : List Bytes) (skip : ℕ)
    → Fits xs skip
    → 0 < length (held xs skip)
    → (view : Bytes) × (more : Bytes) × (peek_front xs skip ≡ some view)
      × (0 < length view)
      × (held xs skip ≡ view ++ more)
peek_view [] skip f h = elim h [ ]
peek_view (x ∷ xs) skip f h = (
  drop skip x,
  flatten xs,
  substr_within skip x (omega (arith, f.0)),
  omega (arith, length-drop skip x, f.0),
  refl,
)

take_part : (n : ℕ) (xs ys : Bytes) → take (length (take n xs)) (xs ++ ys) ≡ take n xs
take_part zero xs ys = refl
take_part (suc n) [] ys = refl
take_part (suc n) (x ∷ xs) ys = ap (x ∷◌) (take_part n xs ys)

-- What a round appends, and the rounds after it.
rounds :
    (n : ℕ) (out bs view rest after : Bytes)
    → bs ≡ view ++ rest
    → after ≡ drop (length (take n view)) bs
    → (out ++ take n view) ++ take (n - length (take n view)) after ≡ out ++ take n bs
rounds n out bs view rest after e d =
    append_assoc out (take n view) (take (n - m) after)
    ∙ ap (out ++◌) (
        ap (λ ys. take n view ++ take (n - m) ys) d
        ∙ ap (◌++ take (n - m) (drop m bs)) (sym (ap (take m) e ∙ take_part n view rest))
        ∙ take-add m (n - m) bs
        ∙ ap (λ k. take k bs) (omega (arith, length-take n view)))
  where
    m : ℕ
    m = length (take n view)

string_loop_copies :
    (fuel n : ℕ) (out : Bytes) (p : Parser)
    → IsValid p.input
    → n < fuel
    → n ≤ length (contents p.input)
    → Gives
        (string_loop fuel n out p)
        (out ++ take n (contents p.input))
        (drop n (contents p.input))
        p.error
unfolding string_loop peek
string_loop_copies zero n out p v h le = elim h [ ]
string_loop_copies (suc fuel) n out p v h le = elim (Bool-cases (n == 0)) [
  | inl done ↦
      let e = sym ((==_iff n 0).0 done) in
      rw (string_loop, done)
        (
          p,
          ap (λ bs. some (bs, p))
              (sym (append-nil out) ∙ ap (λ k. out ++ take k (contents p.input)) e),
          v,
          ap (λ k. drop k (contents p.input)) e,
          refl,
        )
  | inr more ↦
      let pos = above_zero more in
      let (view, rest, seen, some_seen, whole) =
        peek_view p.input.buffer p.input.skip v.fits (omega arith) in
      let m = length (take n view) in
      let (p', removed, w, d, same) = remove_prefix_drops m p v in
      let taken = length-take n view in
      let (q, ends, u, d', same') =
        string_loop_copies fuel (n - m) (out ++ take n view) p' w (omega (arith, taken))
          (omega (arith, ap length d, length-drop m (contents p.input))) in
      rw (string_loop, more) rw seen rw removed
        (
          q,
          ends
              ∙ ap (λ bs. some (bs, q))
                  (rounds n out (contents p.input) view rest (contents p'.input) whole d),
          u,
          d'
              ∙ ap (drop (n - m)) d
              ∙ drop-drop (n - m) m (contents p.input)
              ∙ ap (λ k. drop k (contents p.input)) (omega (arith, taken)),
          same' ∙ same,
        )
]
  where
    above_zero : (n == 0) ≡ false → 0 < n
    above_zero h = ground arith

-- On bytes: a string of `n` bytes, or the old one and the error flag.
abbrev pub flat_string : Bytes → Bytes → Bool → Bytes × Bytes × Bool
flat_string out input error =
    if error || ltb (length input) (length out)
    then (out, input, true)
    else (take (length out) input, drop (length out) input, false)

module _ (out : Bytes) (p : Parser) (v : IsValid p.input) where
  string_short :
      ltb p.input.size (length out) ≡ true → Gives (string out p) out (contents p.input) true
  unfolding string
  string_short h = rw h (record p { error = true }, refl, v, refl, refl)

  string_failed :
      ltb p.input.size (length out) ≡ false
      → p.error ≡ true
      → Gives (string out p) out (contents p.input) true
  unfolding string
  string_failed h e = simp (h, e) (p, refl, v, refl, e)

  string_long :
      ltb p.input.size (length out) ≡ false
      → p.error ≡ false
      → Gives
          (string out p)
          (take (length out) (contents p.input))
          (drop (length out) (contents p.input))
          false
  unfolding string
  string_long h e =
      let (q, ends, u, d, same) =
        string_loop_copies (suc (length out)) (length out) [] p v (omega arith)
          (omega (arith, v.counted, ltb→le p.input.size (length out) h)) in
      simp (h, e) (q, ends, u, d, same ∙ e)

  -- string on a valid buffer list ends, and does what it would on one flat string: it sets the
  -- error and copies nothing if an error is set or too few bytes are left, and else copies and
  -- removes as many bytes as asked for.
  pub string-flat : Refines (string out p) (flat_string out (contents p.input) p.error)
  string-flat = elim (Bool-cases (ltb p.input.size (length out))) [
    | inl short ↦ elim (Bool-cases p.error) [
      | inl failed ↦ simp failed (string_short short)
      | inr fine ↦ simp (fine, sized short) (string_short short)
    ]
    | inr long ↦ elim (Bool-cases p.error) [
      | inl failed ↦ simp failed (string_failed long failed)
      | inr fine ↦ simp (fine, sized long) (string_long long fine)
    ]
  ]
    where
      sized :
          {b : Bool}
          → ltb p.input.size (length out) ≡ b
          → ltb (length (contents p.input)) (length out) ≡ b
      sized h = ap (λ n. ltb n (length out)) (sym v.counted) ∙ h
