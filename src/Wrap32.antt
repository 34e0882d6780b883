-- ===== src/Wrap32.antt =====
-- src/wrapping_integers.{hh,cc}: 32-bit sequence numbers around an arbitrary zero point.
pub mod Nearest
mod Tests
use cs_144_minnow_tcp.Base.{
  ℕ, ◌+◌, ◌-◌, ◌*◌, ◌/◌, ◌%◌, ◌<◌, Bool, ◌==◌, ltb, leb, if◌then◌else◌, mod32, add32, sub32, add64,
}

pub record Wrap32 : Type 0 where
  pub raw_value : ℕ

-- The raw value is a uint32_t.
abbrev pub IsWord : Wrap32 → Type 0
IsWord w = w.raw_value < mod32

-- `operator+`
unfoldable pub plus : Wrap32 → ℕ → Wrap32
plus w n = record { raw_value = add32 w.raw_value n }

-- `operator==`
unfoldable pub same : Wrap32 → Wrap32 → Bool
same a b = a.raw_value == b.raw_value

unfoldable pub wrap : ℕ → Wrap32 → Wrap32
unfolding plus
wrap n zero_point = plus zero_point (n % mod32)

-- The lambda `distance` of `unwrap`.
unfoldable pub distance : ℕ → ℕ → ℕ
distance checkpoint v = if ltb checkpoint v then v - checkpoint else checkpoint - v

-- `( checkpoint & ~0xffffffff ) | offset`, the low half of the mask being clear.
abbrev pub candidate_of : ℕ → ℕ → ℕ
candidate_of checkpoint offset = checkpoint / mod32 * mod32 + offset

-- The candidate or its lower neighbour. The subtraction runs only at `kRound <= candidate`.
unfoldable pub better_prev : ℕ → ℕ → ℕ
better_prev checkpoint candidate =
    if leb mod32 candidate
    then if ltb (distance checkpoint (candidate - mod32)) (distance checkpoint candidate)
      then candidate - mod32
      else candidate
    else candidate

-- The better of those two or the upper neighbour, whose uint64_t sum wraps.
unfoldable pub better_next : ℕ → ℕ → ℕ → ℕ
better_next checkpoint candidate best =
    let next = add64 candidate mod32 in
    if ltb (distance checkpoint next) (distance checkpoint best) then next else best

unfoldable pub unwrap : Wrap32 → Wrap32 → ℕ → ℕ
unfolding better_prev better_next distance
unwrap w zero_point checkpoint =
    let candidate = candidate_of checkpoint (sub32 w.raw_value zero_point.raw_value) in
    better_next checkpoint candidate (better_prev checkpoint candidate)
