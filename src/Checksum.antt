-- ===== src/Checksum.antt =====
-- util/checksum.hh: the internet checksum. `none` stands for fuel that ran out.
pub mod Folding
pub mod Weight
use cs_144_minnow_tcp.Base.{
  ℕ, zero, suc, ◌+◌, ◌-◌, ◌*◌, ◌/◌, ◌%◌, ◌^◌, Bool, false, not, Option, none, some, List, [], ◌∷◌,
  ◌>>=◌, if◌then◌else◌, ltb, mod16, add32,
}
use cs_144_minnow_tcp.ByteStream.{Bytes}

pub record InternetChecksum : Type 0 where
  pub sum : ℕ
  pub parity : Bool

abbrev pub new : ℕ → InternetChecksum
new sum = record { sum = sum; parity = false }

-- One byte in `add`
abbrev pub add_byte : InternetChecksum → ℕ → InternetChecksum
add_byte c i =
    let val = if not c.parity then i * 2 ^ 8 % mod16 else i in
    record { sum = add32 c.sum val; parity = not c.parity }

-- `InternetChecksum::add( string_view )`
unfoldable pub add : InternetChecksum → Bytes → InternetChecksum
add c [] = c
add c (i ∷ is) = add (add_byte c i) is

-- `InternetChecksum::add( range )`
unfoldable pub add_all : InternetChecksum → List Bytes → InternetChecksum
unfolding add
add_all c [] = c
add_all c (x ∷ xs) = add_all (add c x) xs

-- The loop of `value`, on a uint32_t that cannot overflow there
unfoldable pub fold_loop : ℕ → ℕ → Option ℕ
fold_loop zero ret = none
fold_loop (suc fuel) ret =
    let next = fold_loop fuel (ret / 2 ^ 16 + ret % 2 ^ 16) in
    if ltb 65535 ret then next else some ret

-- `InternetChecksum::value`: three rounds are enough for any uint32_t. The complement is cut to 16
-- bits.
unfoldable pub value : InternetChecksum → Option ℕ
unfolding fold_loop
value c = do ret ← fold_loop 3 c.sum; some (65535 - ret)
