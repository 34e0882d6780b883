-- ===== src/Reassembler/Behind.antt =====
-- `store` and the entries that end before a substring.
use cs_144_minnow_tcp.Base.{
  ℕ, suc, ◌+◌, ◌≤◌, ◌<◌, ◌≡◌, ◌==◌, refl, ◌∙◌, ap, sym, false, [], ◌∷◌, none, some, Option-cases,
  arith, leb, le→leb, lt→leb, inl, inr, Bool-cases, length, mod64,
}
use cs_144_minnow_tcp.ByteStream.{Bytes}
use cs_144_minnow_tcp.Reassembler.{
  Pending, end_of, find_prev, erase, join_prev, merge_prev, absorb, emplace, absorb_all, store,
}
use cs_144_minnow_tcp.Reassembler.Segments.{Apart}

pub find_prev-none :
    (lo hi first : ℕ) (m : Pending) → first < lo → Apart lo hi m → find_prev first m ≡ none
unfolding find_prev
find_prev-none lo hi first [] h a = refl
find_prev-none lo hi first ((j, b) ∷ m) h a = rw (lt→leb j first (omega arith))

-- An entry that is found stands in the map, so not before its lower end.
pub find_prev_above :
    (lo hi first : ℕ) (m : Pending) {p : ℕ} {c : Bytes}
    → Apart lo hi m
    → find_prev first m ≡ some (p, c)
    → lo ≤ p
unfolding find_prev
find_prev_above lo hi first [] a e = cc
find_prev_above lo hi first ((j, b) ∷ m) {p} {c} a e = elim (Option-cases (find_prev first m)) [
  | inl alone ↦ ground arith
  | inr ((q, c'), more) ↦
      ground (arith, find_prev_above (suc (j + length b)) hi first m {p = q} {c = c'} a.3 more)
]

-- An entry whose key lies before the substring's is left in front by step 3.
absorb_all_behind :
    (first : ℕ) (bytes : Bytes) (m : Pending) (j : ℕ) (b : Bytes)
    → j < first
    → absorb_all (first, bytes, (j, b) ∷ m) ≡ (j, b) ∷ absorb_all (first, bytes, m)
unfolding absorb emplace
absorb_all_behind first [] m j b h = refl
absorb_all_behind first (x ∷ bytes) m j b h = ground arith

join_prev_behind :
    (first : ℕ) (bytes : Bytes) (m : Pending) (j : ℕ) (b : Bytes) (p : ℕ) (c : Bytes)
    → j < p
    → j < first
    → absorb_all (join_prev first bytes ((j, b) ∷ m) (p, c))
      ≡ (j, b) ∷ absorb_all (join_prev first bytes m (p, c))
unfolding erase
join_prev_behind first bytes m j b p c h k = elim (Bool-cases (leb first (end_of p c))) [
  | inl touch ↦ elim (Bool-cases (leb (end_of first bytes) (end_of p c))) [
    | inl covered ↦ rw (touch, covered)
    | inr part ↦ rw (touch, part, lt→ne j p h) (absorb_all_behind p _ _ j b h)
  ]
  | inr apart ↦ rw apart (absorb_all_behind first bytes m j b k)
]
  where
    lt→ne : (j p : ℕ) → j < p → (j == p) ≡ false
    lt→ne j p h = ground arith

pub store_nothing : (first : ℕ) (m : Pending) → store first [] m ≡ m
unfolding store
store_nothing first m = refl

module _ (first : ℕ) (j : ℕ) (b : Bytes) (m : Pending) (le : j ≤ first) where
  pub find_prev_alone : find_prev first m ≡ none → find_prev first ((j, b) ∷ m) ≡ some (j, b)
  unfolding find_prev
  find_prev_alone e = rw (le→leb j first le) (rw e)

  find_prev_more :
      (e : ℕ × Bytes) → find_prev first m ≡ some e → find_prev first ((j, b) ∷ m) ≡ some e
  unfolding find_prev
  find_prev_more e h = rw (le→leb j first le) (rw h)

module _ (first : ℕ) (x : ℕ) (bytes : Bytes) (m : Pending) where
  pub store_alone :
      find_prev first m ≡ none → store first (x ∷ bytes) m ≡ absorb_all (first, x ∷ bytes, m)
  unfolding store merge_prev
  store_alone e = rw (e, merge_prev)

  pub store_joins :
      (e : ℕ × Bytes)
      → find_prev first m ≡ some e
      → store first (x ∷ bytes) m ≡ absorb_all (join_prev first (x ∷ bytes) m e)
  unfolding store merge_prev
  store_joins e h = rw (h, merge_prev)

-- An entry that ends before the substring is left alone by steps 2 and 3.
pub store_behind :
    (hi first : ℕ) (bytes : Bytes) (m : Pending) (j : ℕ) (b : Bytes)
    → hi < mod64
    → j + length b ≤ hi
    → j + length b < first
    → Apart (suc (j + length b)) hi m
    → store first bytes ((j, b) ∷ m) ≡ (j, b) ∷ store first bytes m
store_behind hi first [] m j b bound fits h a =
    store_nothing first ((j, b) ∷ m) ∙ ap (◌∷◌ (j, b)) (sym (store_nothing first m))
store_behind hi first (x ∷ bytes) m j b bound fits h a = elim (Option-cases (find_prev first m)) [
  | inl alone ↦
      store_joins first x bytes ((j, b) ∷ m) (j, b)
        (find_prev_alone first j b m (omega arith) alone)
      ∙ rw (lt→leb first (end_of j b) (omega arith))
          (absorb_all_behind first (x ∷ bytes) m j b (omega arith))
      ∙ ap (◌∷◌ (j, b)) (sym (store_alone first x bytes m alone))
  | inr ((p, c), e) ↦
      store_joins first x bytes ((j, b) ∷ m) (p, c)
        (find_prev_more first j b m (omega arith) (p, c) e)
      ∙ join_prev_behind first (x ∷ bytes) m j b p c
          (omega (arith, find_prev_above (suc (j + length b)) hi first m {p = p} {c = c} a e))
          (omega arith)
      ∙ ap (◌∷◌ (j, b)) (sym (store_joins first x bytes m (p, c) e))
]
