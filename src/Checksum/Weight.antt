-- ===== src/Checksum/Weight.antt =====
-- The sum that the checksum takes over bytes, without its wrap-around.
use cs_144_minnow_tcp.Base.{
  ℕ, zero, suc, ◌+◌, ◌*◌, ◌^◌, ◌≤◌, ◌<◌, ◌≡◌, refl, ap, ◌∙◌, Bool, true, false, not, List, [], ◌∷◌,
  ◌++◌, arith, length, flatten, if◌then◌else◌, mod32,
}
use cs_144_minnow_tcp.ByteStream.{Bytes}
use cs_144_minnow_tcp.Checksum.{InternetChecksum, add_byte, add, add_all}
use cs_144_minnow_tcp.Parser.Reads.{AllBytes}
use cs_144_minnow_tcp.Serializer.Writing.{bytes_of}

-- A byte at an even place counts 256 times.
abbrev pub weight : Bool → Bytes → ℕ
weight odd [] = 0
weight odd (b ∷ bs) = (if odd then b else b * 2 ^ 8) + weight (not odd) bs

-- The parity after some bytes.
abbrev pub flips : Bool → Bytes → Bool
flips odd [] = odd
flips odd (b ∷ bs) = flips (not odd) bs

pub weight-append :
    (odd : Bool) (xs ys : Bytes) → weight odd (xs ++ ys) ≡ weight odd xs + weight (flips odd xs) ys
weight-append odd [] ys = omega arith
weight-append odd (x ∷ xs) ys = omega (arith, weight-append (not odd) xs ys)

pub flips-append : (odd : Bool) (xs ys : Bytes) → flips odd (xs ++ ys) ≡ flips (flips odd xs) ys
flips-append odd [] ys = refl
flips-append odd (x ∷ xs) ys = flips-append (not odd) xs ys

pub AllBytes-append : (xs ys : Bytes) → AllBytes xs → AllBytes ys → AllBytes (xs ++ ys)
AllBytes-append [] ys a b = b
AllBytes-append (x ∷ xs) ys a b = (a.0, AllBytes-append xs ys a.1 b)

pub bytes_of-AllBytes : (k val : ℕ) → AllBytes (bytes_of k val)
bytes_of-AllBytes zero val = tt
bytes_of-AllBytes (suc k) val = (omega arith, bytes_of-AllBytes k val)

pub weight_le : (odd : Bool) (bs : Bytes) → AllBytes bs → weight odd bs ≤ 65280 * length bs
weight_le odd [] a = omega arith
weight_le true (b ∷ bs) a = omega (arith, weight_le false bs a.1, a.0)
weight_le false (b ∷ bs) a = omega (arith, weight_le true bs a.1, a.0)

-- A 16-bit number at an even place counts as itself.
pub weight-bytes_of : (val : ℕ) → val < 2 ^ 16 → weight false (bytes_of 2 val) ≡ val
weight-bytes_of val h = omega arith

add_byte_weight :
    (sum i : ℕ) (odd : Bool)
    → i < 2 ^ 8
    → sum + (if odd then i else i * 2 ^ 8) < mod32
    → add_byte (record { sum = sum; parity = odd }) i
      ≡ record { sum = sum + (if odd then i else i * 2 ^ 8); parity = not odd }
add_byte_weight sum i true h lt = ap (λ n. record { sum = n; parity = false }) (omega arith)
add_byte_weight sum i false h lt = ap (λ n. record { sum = n; parity = true }) (omega arith)

pub add-weight :
    (sum : ℕ) (odd : Bool) (bs : Bytes)
    → AllBytes bs
    → sum + weight odd bs < mod32
    → add (record { sum = sum; parity = odd }) bs
      ≡ record { sum = sum + weight odd bs; parity = flips odd bs }
unfolding add
add-weight sum odd [] a h = ap (λ n. record { sum = n; parity = odd }) (omega arith)
add-weight sum odd (b ∷ bs) a h =
    ap (λ c. add c bs) (add_byte_weight sum b odd a.0 (omega arith))
    ∙ add-weight (sum + (if odd then b else b * 2 ^ 8)) (not odd) bs a.1 (omega arith)
    ∙ ap (λ n. record { sum = n; parity = flips (not odd) bs }) (omega arith)

add-append : (c : InternetChecksum) (xs ys : Bytes) → add (add c xs) ys ≡ add c (xs ++ ys)
unfolding add
add-append c [] ys = refl
add-append c (x ∷ xs) ys = add-append (add_byte c x) xs ys

-- However the bytes are cut, `add` takes the same sum.
pub add_all-flatten :
    (c : InternetChecksum) (xss : List Bytes) → add_all c xss ≡ add c (flatten xss)
unfolding add_all add
add_all-flatten c [] = refl
add_all-flatten c (xs ∷ xss) = add_all-flatten (add c xs) xss ∙ add-append c xs (flatten xss)
