-- ===== src/Reassembler/Segments.antt =====
-- Vocabulary for the pending map: entries kept apart, the indices that they cover, and agreement
-- with one underlying stream of bytes.
use native.Mathlib.Nat.{le_refl}
use cs_144_minnow_tcp.Base.{
  ℕ, zero, suc, ◌+◌, ◌-◌, ◌≤◌, ◌<◌, ◌≡◌, refl, subst, Bool, false, ◌&&◌, ◌||◌, [], ◌∷◌, ◌++◌, arith,
  ltb, leb, length, take, drop,
}
use cs_144_minnow_tcp.ByteStream.{Bytes}
use cs_144_minnow_tcp.Reassembler.{Pending}

-- Entries in key order between `lo` and `hi`: none is empty, and two neighbours leave a gap.
abbrev pub Apart : ℕ → ℕ → Pending → Type 0
Apart lo hi [] = Unit {0}
Apart lo hi ((k, b) ∷ m) =
    (lo ≤ k) × (0 < length b) × (k + length b ≤ hi) × Apart (suc (k + length b)) hi m

-- Is stream index `i` in the substring of `b` at `k`, or in some entry?
abbrev pub inside : ℕ → Bytes → ℕ → Bool
inside k b i = leb k i && ltb i (k + length b)

abbrev pub covers : Pending → ℕ → Bool
covers [] i = false
covers ((k, b) ∷ m) i = inside k b i || covers m i

-- The substring at `k` is what the stream has there.
abbrev pub Agrees : (ℕ → ℕ) → ℕ → Bytes → Type 0
Agrees stream k [] = Unit {0}
Agrees stream k (x ∷ b) = (x ≡ stream k) × Agrees stream (suc k) b

abbrev pub AllAgree : (ℕ → ℕ) → Pending → Type 0
AllAgree stream [] = Unit {0}
AllAgree stream ((k, b) ∷ m) = Agrees stream k b × AllAgree stream m

pub Apart-mono :
    (lo lo' hi hi' : ℕ) (m : Pending) → lo' ≤ lo → hi ≤ hi' → Apart lo hi m → Apart lo' hi' m
Apart-mono lo lo' hi hi' [] h k a = tt
Apart-mono lo lo' hi hi' ((j, b) ∷ m) h k a = (
  omega arith,
  a.1,
  omega arith,
  Apart-mono (suc (j + length b)) (suc (j + length b)) hi hi' m (le_refl _) k a.3,
)

-- Nothing is covered before the first entry.
pub covers_before : (lo hi i : ℕ) (m : Pending) → Apart lo hi m → i < lo → covers m i ≡ false
covers_before lo hi i [] a h = refl
covers_before lo hi i ((k, b) ∷ m) a h =
    ground (arith, covers_before (suc (k + length b)) hi i m a.3)

-- Nor at the upper end or after it.
pub covers_after : (lo hi i : ℕ) (m : Pending) → Apart lo hi m → hi ≤ i → covers m i ≡ false
covers_after lo hi i [] a h = refl
covers_after lo hi i ((k, b) ∷ m) a h = ground (arith, covers_after (suc (k + length b)) hi i m a.3)

module _ (stream : ℕ → ℕ) where
  Agrees-at : (k k' : ℕ) (b : Bytes) → k ≡ k' → Agrees stream k b → Agrees stream k' b
  Agrees-at k k' b e a = subst (λ j. Agrees stream j b) e a

  pub Agrees-append :
      (k : ℕ) (b c : Bytes)
      → Agrees stream k b
      → Agrees stream (k + length b) c
      → Agrees stream k (b ++ c)
  Agrees-append k [] c p q = Agrees-at (k + 0) k c (omega arith) q
  Agrees-append k (x ∷ b) c p q =
      (p.0, Agrees-append (suc k) b c p.1 (Agrees-at (k + suc (length b)) _ c (omega arith) q))

  pub Agrees-drop : (k n : ℕ) (b : Bytes) → Agrees stream k b → Agrees stream (k + n) (drop n b)
  Agrees-drop k zero b p = Agrees-at k (k + 0) b (omega arith) p
  Agrees-drop k (suc n) [] p = tt
  Agrees-drop k (suc n) (x ∷ b) p =
      Agrees-at (suc k + n) (k + suc n) (drop n b) (omega arith) (Agrees-drop (suc k) n b p.1)

  pub Agrees-take : (k n : ℕ) (b : Bytes) → Agrees stream k b → Agrees stream k (take n b)
  Agrees-take k zero b p = tt
  Agrees-take k (suc n) [] p = tt
  Agrees-take k (suc n) (x ∷ b) p = (p.0, Agrees-take (suc k) n b p.1)

  -- `b` at `k` followed by the part of `c` at `j` that lies behind it.
  pub Agrees-join :
      (k j : ℕ) (b c : Bytes)
      → j ≤ k + length b
      → Agrees stream k b
      → Agrees stream j c
      → Agrees stream k (b ++ drop (k + length b - j) c)
  Agrees-join k j b c h p q = Agrees-append k b _ p (
      Agrees-at (j + (k + length b - j)) (k + length b) _ (omega arith)
        (Agrees-drop j (k + length b - j) c q))
