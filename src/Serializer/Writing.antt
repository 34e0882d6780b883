-- ===== src/Serializer/Writing.antt =====
-- The bytes that an integer is written as, and that the parser reads them back as the same integer.
use cs_144_minnow_tcp.Base.{
  ℕ, zero, suc, ◌+◌, ◌*◌, ◌/◌, ◌%◌, ◌^◌, ◌<◌, ◌≡◌, refl, ap, sym, ◌∙◌, [], ◌∷◌, ◌++◌, append_assoc,
  append-nil, arith, length, subst,
}
use native.Mathlib.Nat.{
  div-div-eq-div-mul, div-le_self, div-eq_of_lt, div-one, mod-eq_of_lt, pow-suc,
}
use cs_144_minnow_tcp.ByteStream.{Bytes}
use cs_144_minnow_tcp.Serializer.{Serializer, integer, integer_loop}
use cs_144_minnow_tcp.Parser.Reading.{value_from}

-- The `k` low bytes of a number, most significant first.
abbrev pub bytes_of : ℕ → ℕ → Bytes
bytes_of zero val = []
bytes_of (suc k) val = val / 2 ^ (k * 8) % 2 ^ 8 ∷ bytes_of k val

pub length-bytes_of : (k val : ℕ) → length (bytes_of k val) ≡ k
length-bytes_of zero val = refl
length-bytes_of (suc k) val = ap suc (length-bytes_of k val)

integer_loop_writes :
    (k val : ℕ) (buffer : Bytes) → integer_loop k val buffer ≡ buffer ++ bytes_of k val
unfolding integer_loop
integer_loop_writes zero val buffer = sym (append-nil buffer)
integer_loop_writes (suc k) val buffer =
    integer_loop_writes k val (buffer ++ (val / 2 ^ (k * 8) % 2 ^ 8 ∷ []))
    ∙ append_assoc buffer (val / 2 ^ (k * 8) % 2 ^ 8 ∷ []) (bytes_of k val)

pub integer_writes :
    (w val : ℕ) (s : Serializer)
    → integer w val s ≡ record s { buffer = s.buffer ++ bytes_of w val }
unfolding integer
integer_writes w val s = ap (λ b. record s { buffer = b }) (integer_loop_writes w val s.buffer)

double : (m : ℕ) → 2 ^ suc m ≡ 2 ^ m * 2
double m = pow-suc 2 m

byte_shift : (k : ℕ) → 2 ^ (suc k * 8) ≡ 2 ^ (k * 8) * 2 ^ 8
byte_shift k =
    ap (2 ^◌) {x = suc k * 8} {y = suc (suc (suc (suc (suc (suc (suc (suc (k * 8))))))))}
      (omega arith)
    ∙ omega (
      arith,
      double (k * 8),
      double (suc (k * 8)),
      double (suc (suc (k * 8))),
      double (suc (suc (suc (k * 8)))),
      double (suc (suc (suc (suc (k * 8))))),
      double (suc (suc (suc (suc (suc (k * 8)))))),
      double (suc (suc (suc (suc (suc (suc (k * 8))))))),
      double (suc (suc (suc (suc (suc (suc (suc (k * 8)))))))),
    )

-- One step of the parser's loop: the bytes read so far, and the next one.
next_digit :
    (w k val : ℕ)
    → val < 2 ^ (8 * w)
    → val / 2 ^ (suc k * 8) * 2 ^ 8 % 2 ^ (8 * w) + val / 2 ^ (k * 8) % 2 ^ 8 ≡ val / 2 ^ (k * 8)
next_digit w k val h =
    ap (λ m. m * 2 ^ 8 % 2 ^ (8 * w) + n % 2 ^ 8) higher
    ∙ ap (◌+ n % 2 ^ 8) (mod-eq_of_lt small)
    ∙ omega arith
  where
    n : ℕ
    n = val / 2 ^ (k * 8)

    higher : val / 2 ^ (suc k * 8) ≡ n / 2 ^ 8
    higher = ap (val /◌) (byte_shift k) ∙ sym (div-div-eq-div-mul val (2 ^ (k * 8)) (2 ^ 8))

    small : n / 2 ^ 8 * 2 ^ 8 < 2 ^ (8 * w)
    small = omega (arith, div-le_self val (2 ^ (k * 8)), h)

pub value-bytes_of :
    (w k val : ℕ) → val < 2 ^ (8 * w) → value_from w (val / 2 ^ (k * 8)) (bytes_of k val) ≡ val
value-bytes_of w zero val h = div-one val
value-bytes_of w (suc k) val h =
    ap (λ out. value_from w out (bytes_of k val)) (next_digit w k val h) ∙ value-bytes_of w k val h

pub value_of_bytes : (w val : ℕ) → val < 2 ^ (8 * w) → value_from w 0 (bytes_of w val) ≡ val
value_of_bytes w val h =
    ap (λ out. value_from w out (bytes_of w val))
      (sym (div-eq_of_lt (subst (λ m. val < 2 ^ m) (omega arith) h)))
    ∙ value-bytes_of w w val h
