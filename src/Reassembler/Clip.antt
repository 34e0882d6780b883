-- ===== src/Reassembler/Clip.antt =====
-- Step 1 of `insert`: clipping a substring to the acceptable window.
use native.Mathlib.Nat.{le_refl}
use cs_144_minnow_tcp.Base.{
  ℕ, ◌+◌, ◌-◌, ◌≤◌, ◌<◌, ◌≡◌, refl, subst, ◌∙◌, ◌&&◌, ◌||◌, [], arith, ltb, leb, leb→lt, leb→le,
  ltb→lt, ltb→le, inl, inr, ◌⊎◌, Bool-cases, length, take, drop, length-take, length-drop, mod64,
}
use cs_144_minnow_tcp.ByteStream.{Bytes}
use cs_144_minnow_tcp.Reassembler.{clip, clip_front, clip_back, end_of}
use cs_144_minnow_tcp.Reassembler.Segments.{inside, Agrees, Agrees-drop, Agrees-take}

-- What step 1 leaves of a substring.
pub record Clipped (lo hi first : ℕ) (bytes : Bytes) (r : ℕ × Bytes) : Type 0 where
  pub within : 0 < length r.1 → (lo ≤ r.0) × (r.0 + length r.1 ≤ hi)
  pub cover :
      (i : ℕ) → (ltb i lo || inside r.0 r.1 i) ≡ (ltb i lo || (inside first bytes i && ltb i hi))
  pub agree : (stream : ℕ → ℕ) → Agrees stream first bytes → Agrees stream r.0 r.1

module _ (lo hi first : ℕ) (bytes : Bytes) where
  inside_outside :
      (hi ≤ first) ⊎ (first + length bytes ≤ lo)
      → (i : ℕ) → (ltb i lo || inside first [] i) ≡ (ltb i lo || (inside first bytes i && ltb i hi))
  inside_outside out i = ground arith

  -- Nothing of the substring lies in the window.
  outside-Clipped :
      (hi ≤ first) ⊎ (first + length bytes ≤ lo) → Clipped lo hi first bytes (first, [])
  outside-Clipped out = record {
    within = λ h. absurd (omega arith);
    cover = inside_outside out;
    agree = λ stream p. tt;
  }

record FrontCut (lo hi first : ℕ) (bytes : Bytes) (r : ℕ × Bytes) : Type 0 where
  low : lo ≤ r.0
  high : r.0 ≤ hi
  same_end : r.0 + length r.1 ≡ first + length bytes
  cover : (i : ℕ) → (ltb i lo || inside r.0 r.1 i) ≡ (ltb i lo || inside first bytes i)
  agree : (stream : ℕ → ℕ) → Agrees stream first bytes → Agrees stream r.0 r.1

module _ (lo hi first : ℕ) (bytes : Bytes) (below : first < hi) (above : lo < first + length bytes)
    (ordered : lo ≤ hi) where
  clip_front-FrontCut : FrontCut lo hi first bytes (clip_front lo first bytes)
  clip_front-FrontCut = elim (Bool-cases (ltb first lo)) [
    | inl cut ↦
        let lt = ltb→lt first lo cut in
        let size = length-drop (lo - first) bytes in
        rw cut (record {
          low = le_refl lo;
          high = ordered;
          same_end = omega (arith, size);
          cover = λ i. front_cover i lt;
          agree = λ stream p.
              subst (λ k. Agrees stream k (drop (lo - first) bytes)) (omega arith)
                (Agrees-drop stream first (lo - first) bytes p);
        })
    | inr whole ↦ rw whole (record {
      low = ltb→le first lo whole;
      high = omega arith;
      same_end = refl;
      cover = λ i. refl;
      agree = λ stream p. p;
    })
  ]
    where
      front_cover :
          (i : ℕ)
          → first < lo
          → (ltb i lo || inside lo (drop (lo - first) bytes) i) ≡ (ltb i lo || inside first bytes i)
      front_cover i lt = ground (arith, length-drop (lo - first) bytes)

  clip_back-Clipped :
      (r : ℕ × Bytes)
      → hi < mod64
      → first + length bytes < mod64
      → FrontCut lo hi first bytes r
      → Clipped lo hi first bytes (clip_back hi r.0 r.1)
  clip_back-Clipped (f, b) bound small c = elim (Bool-cases (ltb hi (end_of f b))) [
    | inl cut ↦ rw cut (record {
      within = λ _. (c.low, omega (arith, length-take (hi - f) b, c.high));
      cover = λ i. back_cover i (ltb→lt hi (end_of f b) cut) (c.cover i);
      agree = λ stream p. Agrees-take stream f (hi - f) b (c.agree stream p);
    })
    | inr whole ↦
        let le = ltb→le hi (end_of f b) whole in
        rw whole (record {
          within = λ _. (c.low, omega (arith, c.same_end));
          cover = λ i. c.cover i ∙ back_whole i (omega (arith, c.same_end));
          agree = c.agree;
        })
  ]
    where
      back_whole :
          (i : ℕ)
          → first + length bytes ≤ hi
          → (ltb i lo || inside first bytes i) ≡ (ltb i lo || (inside first bytes i && ltb i hi))
      back_whole i le = ground arith

      back_cover :
          (i : ℕ)
          → hi < end_of f b
          → (ltb i lo || inside f b i) ≡ (ltb i lo || inside first bytes i)
          → (ltb i lo || inside f (take (hi - f) b) i)
            ≡ (ltb i lo || (inside first bytes i && ltb i hi))
      back_cover i lt e = ground (arith, length-take (hi - f) b, c.same_end, c.high, c.low)

-- The indices fit in 64 bits, or the substring starts at the window's end or behind it, so that it
-- is refused whatever its end.
abbrev pub IsIndexed : ℕ → ℕ → Bytes → Type 0
IsIndexed hi first bytes = (hi ≤ first) ⊎ (first + length bytes < mod64)

below-small :
    (hi first : ℕ) (bytes : Bytes)
    → IsIndexed hi first bytes
    → first < hi
    → first + length bytes < mod64
below-small hi first bytes (inl above) h = absurd (omega arith)
below-small hi first bytes (inr small) h = small

pub clip-Clipped :
    (lo hi first : ℕ) (bytes : Bytes)
    → lo ≤ hi
    → hi < mod64
    → IsIndexed hi first bytes
    → Clipped lo hi first bytes (clip lo hi first bytes)
unfolding clip
clip-Clipped lo hi first bytes ordered bound indexed = elim (Bool-cases (leb hi first)) [
  | inl above ↦ rw above (outside-Clipped lo hi first bytes (inl (leb→le hi first above)))
  | inr below ↦
      let lt = leb→lt hi first below in
      let small = below-small hi first bytes indexed lt in
      elim (Bool-cases (leb (end_of first bytes) lo)) [
        | inl old ↦
            rw (below, old)
              (outside-Clipped lo hi first bytes
                (inr (omega (arith, leb→le (end_of first bytes) lo old))))
        | inr news ↦
            let gt = leb→lt (end_of first bytes) lo news in
            rw (below, news)
              (clip_back-Clipped lo hi first bytes lt (omega arith) ordered
                (clip_front lo first bytes) bound small
                (clip_front-FrontCut lo hi first bytes lt (omega arith) ordered))
      ]
]
