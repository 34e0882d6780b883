-- ===== src/Reassembler/Absorb.antt =====
-- The loop of step 3 of `insert`: absorbing successors.
use Prim.Native.Nat.{max}
use mathlib.Core.Bool.{or_assoc}
use native.Mathlib.Nat.{le_refl}
use cs_144_minnow_tcp.Base.{
  ℕ, suc, ◌+◌, ◌-◌, ◌≤◌, ◌<◌, ◌≡◌, refl, subst, ◌∙◌, ap, true, ◌||◌, [], ◌∷◌, ◌++◌, arith, ltb, leb,
  leb→le, leb→lt, ltb→lt, ltb→le, le→ltb, lt→ltb, inl, inr, Bool-cases, length, drop, length-append,
  length-drop, mod64,
}
use cs_144_minnow_tcp.ByteStream.{Bytes}
use cs_144_minnow_tcp.Reassembler.{
  Pending, end_of, extend, absorb_loop, absorb, emplace, absorb_all,
}
use cs_144_minnow_tcp.Reassembler.Segments.{
  Apart, inside, covers, Agrees, AllAgree, Apart-mono, Agrees-join,
}

-- Two substrings that touch or overlap, the second starting behind the first.
module _ (hi first : ℕ) (bytes : Bytes) (j : ℕ) (b : Bytes) (bound : hi < mod64)
    (fits : first + length bytes ≤ hi) (fits' : j + length b ≤ hi)
    (touch : j ≤ first + length bytes) where
  -- The grown substring ends at the farther end.
  end-extend : first + length (extend first bytes j b) ≡ max (first + length bytes) (j + length b)
  end-extend = elim (Bool-cases (ltb (end_of first bytes) (end_of j b))) [
    | inl longer ↦ rw longer (
        omega (
          arith,
          ltb→lt (end_of first bytes) (end_of j b) longer,
          length-append bytes (drop (end_of first bytes - j) b),
          length-drop (end_of first bytes - j) b,
        ))
    | inr covered ↦ rw covered (omega (arith, ltb→le (end_of first bytes) (end_of j b) covered))
  ]

  Agrees-extend :
      (stream : ℕ → ℕ)
      → Agrees stream first bytes
      → Agrees stream j b
      → Agrees stream first (extend first bytes j b)
  Agrees-extend stream p q = elim (Bool-cases (ltb (end_of first bytes) (end_of j b))) [
    | inl longer ↦ rw longer (
        subst (λ k. Agrees stream first (bytes ++ drop (k - j) b)) (omega arith)
          (Agrees-join stream first j bytes b touch p q))
    | inr covered ↦ rw covered p
  ]

-- One substring that covers what two touching ones cover.
pub inside-union :
    (first j i : ℕ) (bytes b grown : Bytes)
    → first ≤ j
    → j ≤ first + length bytes
    → first + length grown ≡ max (first + length bytes) (j + length b)
    → inside first grown i ≡ (inside first bytes i || inside j b i)
inside-union first j i bytes b grown h touch farther = ground arith

-- What the loop leaves: the grown substring and the entries behind it.
pub record Grown (hi first : ℕ) (bytes : Bytes) (m : Pending) (r : Bytes × Pending) : Type 0 where
  pub longer : length bytes ≤ length r.0
  pub within : first + length r.0 ≤ hi
  pub apart : Apart (suc (first + length r.0)) hi r.1
  pub cover : (i : ℕ) → (inside first r.0 i || covers r.1 i) ≡ (inside first bytes i || covers m i)
  pub agree :
      (stream : ℕ → ℕ)
      → Agrees stream first bytes
      → AllAgree stream m
      → Agrees stream first r.0 × AllAgree stream r.1

pub absorb_loop-Grown :
    (hi first : ℕ) (bytes : Bytes) (m : Pending)
    → hi < mod64
    → first + length bytes ≤ hi
    → Apart (suc first) hi m
    → Grown hi first bytes m (absorb_loop first bytes m)
unfolding absorb_loop
absorb_loop-Grown hi first bytes [] bound fits a = record {
  longer = omega arith;
  within = fits;
  apart = tt;
  cover = λ i. refl;
  agree = λ stream p q. (p, q);
}
absorb_loop-Grown hi first bytes ((j, b) ∷ m) bound fits a =
    elim (Bool-cases (leb j (end_of first bytes))) [
      | inl touch ↦
          rw touch (absorbed touch (absorb_loop-Grown hi first grown m bound (room touch) behind))
      | inr gap ↦ rw gap (record {
        longer = omega arith;
        within = fits;
        apart = (omega (arith, leb→lt j (end_of first bytes) gap), a.1, a.2, a.3);
        cover = λ i. refl;
        agree = λ stream p q. (p, q);
      })
    ]
  where
    grown : Bytes
    grown = extend first bytes j b

    near : leb j (end_of first bytes) ≡ true → j ≤ first + length bytes
    near t = omega (arith, leb→le j (end_of first bytes) t)

    farther :
        leb j (end_of first bytes) ≡ true
        → first + length grown ≡ max (first + length bytes) (j + length b)
    farther t = end-extend hi first bytes j b bound fits a.2 (near t)

    room : leb j (end_of first bytes) ≡ true → first + length grown ≤ hi
    room t = omega (arith, farther t)

    behind : Apart (suc first) hi m
    behind = Apart-mono (suc (j + length b)) (suc first) hi hi m (omega arith) (le_refl hi) a.3

    absorbed :
        leb j (end_of first bytes) ≡ true
        → Grown hi first grown m (absorb_loop first grown m)
        → Grown hi first bytes ((j, b) ∷ m) (absorb_loop first grown m)
    absorbed t g = record {
      longer = omega (arith, g.longer, farther t);
      within = g.within;
      apart = g.apart;
      cover = λ i.
          g.cover i
          ∙ ap (λ x. x || covers m i)
              (inside-union first j i bytes b grown (omega arith) (near t) (farther t))
          ∙ or_assoc (inside first bytes i) (inside j b i) (covers m i);
      agree = λ stream p q.
          g.agree stream (Agrees-extend hi first bytes j b bound fits a.2 (near t) stream p q.0)
            q.1;
    }

-- Before every entry, the loop starts at the first one, and the result stands in front.
pub absorb_front :
    (hi first : ℕ) (bytes : Bytes) (m : Pending)
    → Apart (suc first) hi m
    → absorb first bytes m ≡ absorb_loop first bytes m
unfolding absorb absorb_loop
absorb_front hi first bytes [] a = refl
absorb_front hi first bytes ((j, b) ∷ m) a = rw (le→ltb j first (omega arith))

pub emplace_front :
    (lo hi k : ℕ) (bytes : Bytes) (m : Pending)
    → k < lo
    → Apart lo hi m
    → emplace k bytes m ≡ (k, bytes) ∷ m
unfolding emplace
emplace_front lo hi k bytes [] h a = refl
emplace_front lo hi k bytes ((j, b) ∷ m) h a = rw (lt→ltb k j (omega arith))

-- Storing a substring that starts before every entry.
pub absorb_all_front :
    (hi first : ℕ) (bytes : Bytes) (m : Pending)
    → hi < mod64
    → 0 < length bytes
    → first + length bytes ≤ hi
    → Apart (suc first) hi m
    → let r = absorb_loop first bytes m in absorb_all (first, bytes, m) ≡ (first, r.0) ∷ r.1
absorb_all_front hi first [] m bound some fits a = elim some [ ]
absorb_all_front hi first (x ∷ bytes) m bound some fits a =
    rw (absorb_front hi first (x ∷ bytes) m a) (
      let g = absorb_loop-Grown hi first (x ∷ bytes) m bound fits a in
      emplace_front _ hi first _ _ (omega arith) g.apart)
