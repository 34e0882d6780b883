-- ===== src/Reassembler/Store.antt =====
-- Steps 2 and 3 of `insert`: merging one substring into the pending map.
use mathlib.Core.Bool.{or_assoc, or_comm}
use native.Mathlib.Nat.{le_refl}
use cs_144_minnow_tcp.Base.{
  ℕ, suc, ◌+◌, ◌-◌, ◌≤◌, ◌<◌, ◌≡◌, subst, ◌∙◌, ap, sym, Bool, true, false, ◌||◌, [], ◌∷◌, ◌++◌,
  arith, ltb, leb, leb→le, leb→lt, ltb→lt, ltb→le, le→leb, inl, inr, Bool-cases, length, drop,
  length-append, length-drop, mod64,
}
use cs_144_minnow_tcp.ByteStream.{Bytes}
use cs_144_minnow_tcp.Reassembler.{Pending, end_of, erase, absorb_all, store}
use cs_144_minnow_tcp.Reassembler.Segments.{
  Apart, inside, covers, Agrees, AllAgree, Apart-mono, Agrees-join,
}
use cs_144_minnow_tcp.Reassembler.Absorb.{Grown, absorb_loop-Grown, absorb_all_front}
use cs_144_minnow_tcp.Reassembler.Behind.{
  store_joins, store_alone, find_prev_alone, store_behind, find_prev-none,
}

pub record Stored (lo hi first : ℕ) (bytes : Bytes) (m m' : Pending) : Type 0 where
  pub apart : Apart lo hi m'
  pub cover : (i : ℕ) → covers m' i ≡ (inside first bytes i || covers m i)
  pub agree : (stream : ℕ → ℕ) → Agrees stream first bytes → AllAgree stream m → AllAgree stream m'

-- The result of the absorbing loop, put in front, is stored.
Grown-Stored :
    (lo hi first : ℕ) (bytes : Bytes) (m : Pending) (r : Bytes × Pending)
    → lo ≤ first
    → 0 < length bytes
    → Grown hi first bytes m r
    → Stored lo hi first bytes m ((first, r.0) ∷ r.1)
Grown-Stored lo hi first bytes m r h pos g = record {
  apart = (h, omega (arith, g.longer), g.within, g.apart);
  cover = g.cover;
  agree = g.agree;
}

-- No predecessor: the substring absorbs its successors.
store_front-Stored :
    (lo hi first : ℕ) (bytes : Bytes) (m : Pending)
    → hi < mod64
    → lo ≤ first
    → 0 < length bytes
    → first + length bytes ≤ hi
    → Apart (suc first) hi m
    → Stored lo hi first bytes m (absorb_all (first, bytes, m))
store_front-Stored lo hi first bytes m bound h pos fits a =
    rw (absorb_all_front hi first bytes m bound pos fits a)
      (Grown-Stored lo hi first bytes m _ h pos (absorb_loop-Grown hi first bytes m bound fits a))

inside_covered :
    (first j i : ℕ) (bytes b : Bytes)
    → j ≤ first
    → first + length bytes ≤ j + length b
    → (inside first bytes i || inside j b i) ≡ inside j b i
inside_covered first j i bytes b h k = ground arith

inside-joined :
    (first j i : ℕ) (bytes b joined : Bytes)
    → j ≤ first
    → first ≤ j + length b
    → j + length joined ≡ first + length bytes
    → j + length b ≤ first + length bytes
    → inside j joined i ≡ (inside first bytes i || inside j b i)
inside-joined first j i bytes b joined h touch e far = ground arith

-- A predecessor that covers the substring, or is extended by it.
module _ (lo hi first : ℕ) (bytes : Bytes) (m : Pending) (j : ℕ) (b : Bytes) (bound : hi < mod64)
    (fits : first + length bytes ≤ hi) (a : Apart lo hi ((j, b) ∷ m)) (before : j ≤ first)
    (touch : first ≤ j + length b) where
  store_covered-Stored :
      leb (end_of first bytes) (end_of j b) ≡ true
      → Stored lo hi first bytes ((j, b) ∷ m) ((j, b) ∷ m)
  store_covered-Stored e = record {
    apart = a;
    cover = λ i.
        ap (λ x. x || covers m i)
          (sym (
            inside_covered first j i bytes b before
              (omega (arith, leb→le (end_of first bytes) (end_of j b) e))))
        ∙ or_assoc (inside first bytes i) (inside j b i) (covers m i);
    agree = λ stream p q. q;
  }

  joined : Bytes
  joined = b ++ drop (end_of j b - first) bytes

  end-joined :
      leb (end_of first bytes) (end_of j b) ≡ false → j + length joined ≡ first + length bytes
  unfolding joined
  end-joined e = omega (
    arith,
    leb→lt (end_of first bytes) (end_of j b) e,
    length-append b (drop (end_of j b - first) bytes),
    length-drop (end_of j b - first) bytes,
  )

  Agrees-joined :
      (stream : ℕ → ℕ) → Agrees stream first bytes → Agrees stream j b → Agrees stream j joined
  unfolding joined
  Agrees-joined stream p q =
      subst (λ k. Agrees stream j (b ++ drop (k - first) bytes)) (omega arith)
        (Agrees-join stream j first b bytes touch q p)

  grown-Stored :
      leb (end_of first bytes) (end_of j b) ≡ false
      → Stored lo hi j joined m (absorb_all (j, joined, m))
      → Stored lo hi first bytes ((j, b) ∷ m) (absorb_all (j, joined, m))
  grown-Stored e s = record {
    apart = s.apart;
    cover = λ i.
        s.cover i
        ∙ ap (λ x. x || covers m i)
            (inside-joined first j i bytes b joined before touch (end-joined e)
              (omega (arith, leb→lt (end_of first bytes) (end_of j b) e)))
        ∙ or_assoc (inside first bytes i) (inside j b i) (covers m i);
    agree = λ stream p q. s.agree stream (Agrees-joined stream p q.0) q.1;
  }

  store_joined-Stored :
      leb (end_of first bytes) (end_of j b) ≡ false
      → Stored lo hi first bytes
          ((j, b) ∷ m)
          (absorb_all (j, b ++ drop (end_of j b - first) bytes, m))
  unfolding joined
  store_joined-Stored e =
      let far = end-joined e in
      let beyond = leb→lt (end_of first bytes) (end_of j b) e in
      grown-Stored e (
        store_front-Stored lo hi j joined m bound a.0 (omega arith) (omega arith)
          (Apart-mono (suc (j + length b)) (suc j) hi hi m (omega arith) (le_refl hi) a.3))

erase_head : (j : ℕ) (b : Bytes) (m : Pending) → erase j ((j, b) ∷ m) ≡ m
unfolding erase
erase_head j b m = ground arith

or_left_comm : (a b c : Bool) → (a || (b || c)) ≡ (b || (a || c))
or_left_comm a b c = sym (or_assoc a b c) ∙ ap (λ x. x || c) (or_comm a b) ∙ or_assoc b a c

-- Merging a nonempty substring that lies within the window keeps the entries apart, covers exactly
-- the old indices and the new ones, and stores only bytes of the stream.
pub store-Stored :
    (lo hi first : ℕ) (bytes : Bytes) (m : Pending)
    → hi < mod64
    → lo ≤ first
    → 0 < length bytes
    → first + length bytes ≤ hi
    → Apart lo hi m
    → Stored lo hi first bytes m (store first bytes m)
store-Stored lo hi first [] m bound h pos fits a = elim pos [ ]
store-Stored lo hi first (x ∷ bytes) [] bound h pos fits a =
    rw (store_alone first x bytes [] (find_prev-none (suc first) hi first [] (omega arith) tt))
      (store_front-Stored lo hi first (x ∷ bytes) [] bound h pos fits tt)
store-Stored lo hi first (x ∷ bytes) ((j, b) ∷ m) bound h pos fits a =
    elim (Bool-cases (ltb (j + length b) first)) [
      | inl behind ↦
          let s =
            store-Stored (suc (j + length b)) hi first (x ∷ bytes) m bound
              (ltb→lt (j + length b) first behind) pos fits a.3 in
          rw
            (store_behind hi first (x ∷ bytes) m j b bound a.2 (ltb→lt (j + length b) first behind)
              a.3)
            (record {
              apart = (a.0, a.1, a.2, s.apart);
              cover = λ i.
                  ap (◌||◌ (inside j b i)) (s.cover i)
                  ∙ or_left_comm (inside j b i) (inside first (x ∷ bytes) i) (covers m i);
              agree = λ stream p q. (q.0, s.agree stream p q.1);
            })
      | inr reaches ↦ elim (Bool-cases (leb j first)) [
        | inl before ↦ store_touching (ltb→le (j + length b) first reaches) (leb→le j first before)
        | inr front ↦
            let a' : Apart (suc first) hi ((j, b) ∷ m) = (leb→lt j first front, a.1, a.2, a.3) in
            rw
              (store_alone first x bytes ((j, b) ∷ m)
                (find_prev-none (suc first) hi first ((j, b) ∷ m) (omega arith) a'))
              (store_front-Stored lo hi first (x ∷ bytes) ((j, b) ∷ m) bound h pos fits a')
      ]
    ]
  where
    store_touching :
        first ≤ j + length b
        → j ≤ first
        → Stored lo hi first (x ∷ bytes) ((j, b) ∷ m) (store first (x ∷ bytes) ((j, b) ∷ m))
    store_touching touch before =
        let found =
          find_prev_alone first j b m before
            (find_prev-none (suc (j + length b)) hi first m (omega arith) a.3) in
        rw (store_joins first x bytes ((j, b) ∷ m) (j, b) found) (
          rw (le→leb first (end_of j b) (omega arith))
            (elim (Bool-cases (leb (end_of first (x ∷ bytes)) (end_of j b))) [
              | inl covered ↦ rw covered (
                  store_covered-Stored lo hi first (x ∷ bytes) m j b bound fits a before touch
                    covered)
              | inr part ↦ rw part (
                  rw (erase_head j b m) (
                    store_joined-Stored lo hi first (x ∷ bytes) m j b bound fits a before touch
                      part))
            ]))
