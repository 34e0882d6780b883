-- ===== src/Checksum/Folding.antt =====
-- The folded sum of the checksum, and the checksum that makes a sum verify.
use cs_144_minnow_tcp.Base.{
  ℕ, zero, suc, ◌+◌, ◌-◌, ◌/◌, ◌%◌, ◌^◌, ◌≤◌, ◌<◌, ◌≡◌, refl, ap, sym, ◌∙◌, Bool, some, arith, ltb,
  ltb→lt, ltb→le, le→ltb, lt→ltb, Bool-cases, inl, inr, mod32,
}
use mathlib.Core.Option.{some-injective}
use cs_144_minnow_tcp.Checksum.{InternetChecksum, fold_loop, value}

-- The remainder modulo 65535, with 65535 in place of 0 for a positive number.
abbrev pub residue : ℕ → ℕ
residue zero = 0
residue (suc n) = suc (n % 65535)

residue_le : (n : ℕ) → residue n ≤ 65535
residue_le zero = omega arith
residue_le (suc n) = omega arith

residue_small : (n : ℕ) → n ≤ 65535 → residue n ≡ n
residue_small zero h = refl
residue_small (suc n) h = omega arith

residue_pos : (n : ℕ) → 0 < n → residue n ≡ suc ((n - 1) % 65535)
residue_pos zero h = elim h [ ]
residue_pos (suc n) h = omega arith

residue_fold : (n : ℕ) → 65535 < n → residue (n / 2 ^ 16 + n % 2 ^ 16) ≡ residue n
residue_fold n h =
    residue_pos (n / 2 ^ 16 + n % 2 ^ 16) (omega arith)
    ∙ omega arith
    ∙ sym (residue_pos n (omega arith))

fold_stop : (fuel n : ℕ) → n ≤ 65535 → fold_loop (suc fuel) n ≡ some (residue n)
unfolding fold_loop
fold_stop fuel n h = rw (le→ltb 65535 n h) (ap some (sym (residue_small n h)))

-- A round leaves a smaller number with the same residue.
fold_round :
    (fuel n : ℕ)
    → 65535 < n
    → fold_loop fuel (n / 2 ^ 16 + n % 2 ^ 16) ≡ some (residue (n / 2 ^ 16 + n % 2 ^ 16))
    → fold_loop (suc fuel) n ≡ some (residue n)
unfolding fold_loop
fold_round fuel n h e = rw (lt→ltb 65535 n h) (e ∙ ap some (residue_fold n h))

fold_two : (n : ℕ) → n < 131071 → fold_loop 2 n ≡ some (residue n)
fold_two n h = elim (Bool-cases (ltb 65535 n)) [
  | inl more ↦ let lt = ltb→lt 65535 n more in fold_round 1 n lt (fold_stop 0 _ (omega arith))
  | inr done ↦ fold_stop 1 n (ltb→le 65535 n done)
]

pub fold_three : (n : ℕ) → n < mod32 → fold_loop 3 n ≡ some (residue n)
fold_three n h = elim (Bool-cases (ltb 65535 n)) [
  | inl more ↦ let lt = ltb→lt 65535 n more in fold_round 2 n lt (fold_two _ (omega arith))
  | inr done ↦ fold_stop 2 n (ltb→le 65535 n done)
]

pub value-residue : (c : InternetChecksum) → c.sum < mod32 → value c ≡ some (65535 - residue c.sum)
unfolding value
value-residue c h = rw (fold_three c.sum h) refl

residue_check : (n : ℕ) → residue (n + (65535 - residue n)) ≡ 65535
residue_check zero = refl
residue_check (suc n) = residue_pos (suc n + (65535 - suc (n % 65535))) (omega arith) ∙ omega arith

-- The checksum of a sum, added to the sum, makes the whole verify.
pub value-value :
    (n c : ℕ) (b b' : Bool)
    → n + 65535 < mod32
    → value (record { sum = n; parity = b }) ≡ some c
    → (c ≤ 65535) × (value (record { sum = n + c; parity = b' }) ≡ some 0)
value-value n c b b' h e = (
  omega (arith, checksum),
  ap (λ k. value (record { sum = n + k; parity = b' })) (sym checksum)
      ∙ value-residue (record { sum = n + (65535 - residue n); parity = b' }) (omega arith)
      ∙ ap (λ r. some (65535 - r)) (residue_check n),
)
  where
    checksum : 65535 - residue n ≡ c
    checksum =
        some-injective _ _ (sym (value-residue (record { sum = n; parity = b }) (omega arith)) ∙ e)
