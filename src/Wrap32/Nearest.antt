-- ===== src/Wrap32/Nearest.antt =====
-- What wrapping_integers.cc promises of `wrap` and `unwrap`.
use cs_144_minnow_tcp.Base.{
  ℕ, ◌+◌, ◌-◌, ◌%◌, ◌^◌, ◌≤◌, ◌<◌, ◌≡◌, ◌⊎◌, inl, inr, ap, arith, mod32, mod64, sub32, add64, refl,
  sym, ◌∙◌,
}
use native.Mathlib.Nat.{le_trans, lt_of_le_of_lt}
use cs_144_minnow_tcp.Wrap32.{
  Wrap32, IsWord, wrap, unwrap, distance, better_prev, better_next, candidate_of,
}

pub wrap-IsWord : (n : ℕ) (z : Wrap32) → IsWord (wrap n z)
unfolding wrap
wrap-IsWord n z = omega arith

-- Two absolute numbers wrap to the same sequence number only if they differ by rounds.
wrap-offset :
    (v : ℕ) (w z : Wrap32)
    → IsWord w
    → IsWord z
    → wrap v z ≡ w
    → v % mod32 ≡ sub32 w.raw_value z.raw_value
unfolding wrap
wrap-offset v w z hw hz e = omega (arith, ap (λ (x : Wrap32). x.raw_value) e)

module _ (c a : ℕ) where
  -- The choice among the three candidates is no worse than any of them.
  best_le :
      let best = better_next c a (better_prev c a) in
      (distance c best ≤ distance c a)
      × (mod32 ≤ a → distance c best ≤ distance c (a - mod32))
      × (distance c best ≤ distance c (add64 a mod32))
  unfolding better_prev better_next
  best_le = ground arith

  -- It is one of them.
  best_cases :
      let best = better_next c a (better_prev c a) in
      (best ≡ a) ⊎ ((mod32 ≤ a) × (best ≡ a - mod32)) ⊎ (best ≡ add64 a mod32)
  unfolding better_prev better_next
  best_cases = ground arith

candidate_range :
    (c off : ℕ)
    → off < mod32
    → (candidate_of c off < c + mod32)
      × (c < candidate_of c off + mod32)
      × (candidate_of c off % mod32 ≡ off)
candidate_range c off h = omega arith

-- Numbers of one residue are equal or a round apart.
residue_gap : (a v : ℕ) → a % mod32 ≡ v % mod32 → (v ≡ a) ⊎ (a + mod32 ≤ v) ⊎ (v + mod32 ≤ a)
residue_gap a v h = ground arith

distance_mono_up : (c b v : ℕ) → c ≤ b → b ≤ v → distance c b ≤ distance c v
unfolding distance
distance_mono_up c b v h k = ground arith

distance_mono_down : (c b v : ℕ) → b ≤ c → v ≤ b → distance c b ≤ distance c v
unfolding distance
distance_mono_down c b v h k = ground arith

-- Unwrapping a 32-bit sequence number at a 32-bit zero point and a 64-bit checkpoint gives a 64-bit
-- number that wraps back to it.
pub wrap-unwrap :
    (w z : Wrap32) (checkpoint : ℕ)
    → IsWord w
    → IsWord z
    → checkpoint < mod64
    → (wrap (unwrap w z checkpoint) z ≡ w) × (unwrap w z checkpoint < mod64)
unfolding wrap unwrap
wrap-unwrap w z c hw hz hc = ground arith

-- Within half a round of the checkpoint a residue stands once.
near_residue :
    (c r n : ℕ)
    → r % mod32 ≡ n % mod32
    → distance c n < 2 ^ 31
    → distance c r ≤ distance c n
    → r ≡ n
unfolding distance
near_residue c r n e near le = ground (arith, residue_gap r n e)

nearest_of_residue :
    (c v off : ℕ)
    → off < mod32
    → c < mod64
    → v < mod64
    → v % mod32 ≡ off
    → let a = candidate_of c off in distance c (better_next c a (better_prev c a)) ≤ distance c v
nearest_of_residue c v off ho hc hv e = elim (residue_gap a v (omega (arith, range))) [
  | inl same ↦ rw same (best_le c a).0
  | inr (inl above) ↦
      le_trans (best_le c a).2
        (rw (no_wrap above) (distance_mono_up c (a + mod32) v (omega (arith, range)) above))
  | inr (inr below) ↦
      le_trans ((best_le c a).1 (omega arith))
        (distance_mono_down c (a - mod32) v (omega (arith, range)) (omega arith))
]
  where
    a : ℕ
    a = candidate_of c off

    range : (a < c + mod32) × (c < a + mod32) × (a % mod32 ≡ off)
    range = candidate_range c off ho

    no_wrap : a + mod32 ≤ v → add64 a mod32 ≡ a + mod32
    no_wrap h = omega arith

-- Of all 64-bit numbers that wrap to a 32-bit sequence number, unwrap returns one that is nearest
-- to the checkpoint.
pub unwrap_nearest :
    (w z : Wrap32) (checkpoint v : ℕ)
    → IsWord w
    → IsWord z
    → checkpoint < mod64
    → v < mod64
    → wrap v z ≡ w
    → distance checkpoint (unwrap w z checkpoint) ≤ distance checkpoint v
unfolding unwrap
unwrap_nearest w z c v hw hz hc hv e =
    nearest_of_residue c v (sub32 w.raw_value z.raw_value) (omega arith) hc hv
      (wrap-offset v w z hw hz e)

-- A 64-bit number less than half a round from a 64-bit checkpoint survives wrapping at a 32-bit
-- zero point and unwrapping.
pub unwrap-wrap :
    (n : ℕ) (z : Wrap32) (checkpoint : ℕ)
    → IsWord z
    → n < mod64
    → checkpoint < mod64
    → distance checkpoint n < 2 ^ 31
    → unwrap (wrap n z) z checkpoint ≡ n
unwrap-wrap n z c hz hn hc near =
    let w = wrap n z in
    let hw = wrap-IsWord n z in
    let back = wrap-unwrap w z c hw hz hc in
    near_residue c (unwrap w z c) n
      (wrap-offset (unwrap w z c) w z hw hz back.0 ∙ sym (wrap-offset n w z hw hz refl)) near
      (unwrap_nearest w z c n hw hz hc hn refl)

pub distance_bound : (c v bound : ℕ) → distance c v < bound → v < c + bound
unfolding distance
distance_bound c v bound h = ground arith

distance_candidate : (c a : ℕ) → a < c + mod32 → c < a + mod32 → distance c a < mod32
unfolding distance
distance_candidate c a h k = ground arith

-- An unwrapped number is less than a round above its checkpoint.
pub unwrap_upper :
    (w z : Wrap32) (checkpoint : ℕ)
    → IsWord w
    → IsWord z
    → unwrap w z checkpoint < checkpoint + mod32
unfolding unwrap
unwrap_upper w z c hw hz =
    let off = sub32 w.raw_value z.raw_value in
    let (low, high, _) = candidate_range c off (omega arith) in
    distance_bound c _ mod32 (
      lt_of_le_of_lt (best_le c (candidate_of c off)).0
        (distance_candidate c (candidate_of c off) low high))
