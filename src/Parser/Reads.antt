-- ===== src/Parser/Reads.antt =====
-- Rules for chains of parser operations: what they read off a given prefix.
use cs_144_minnow_tcp.Base.{
  ℕ, suc, ◌*◌, ◌^◌, ◌≤◌, ◌<◌, ◌≡◌, refl, ap, ◌∙◌, Bool, false, Option, List, [], ◌∷◌, ◌++◌,
  append_assoc, arith, length, take, drop, length-append, take-append_left, drop-append_left,
  take_all, drop_all,
}
use mathlib.Core.Option.{some}
use cs_144_minnow_tcp.ByteStream.{Bytes}
use cs_144_minnow_tcp.Parser.{Parser, Parse, integer}
use cs_144_minnow_tcp.Parser.Chain.{◌>>=◌, return, integers}
use cs_144_minnow_tcp.Parser.Inv.{contents, IsValid}
use cs_144_minnow_tcp.Parser.Reading.{Gives, integer_long, value_from}
use cs_144_minnow_tcp.Serializer.Writing.{bytes_of, length-bytes_of, value_of_bytes}

-- `m` reads `input` off the front, as the value `a`.
pub record Reads {ℓ} {A : Type ℓ} (m : Parse A) (input : Bytes) (a : A) : Type ℓ where
  pub reads :
      (p : Parser) (rest : Bytes)
      → IsValid p.input
      → p.error ≡ false
      → contents p.input ≡ input ++ rest
      → Gives (m p) a rest false

pub return-Reads {ℓ} : {A : Type ℓ} (a : A) → Reads (return a) [] a
return-Reads a = record { reads = λ p rest v e h. (p, refl, v, h, e) }

pub bind-Reads {ℓ κ} :
    {A : Type ℓ} {B : Type κ} {m : Parse A} (f : A → Parse B) {i j : Bytes} {a : A} {b : B}
    → Reads m i a
    → Reads (f a) j b
    → Reads (m >>= f) (i ++ j) b
bind-Reads f {i = i} {j = j} first then = record {
  reads = λ p rest v e h.
      (let (p', got, v', d, e') = first.reads p (j ++ rest) v e (h ∙ append_assoc i j rest) in
        let (q, ends, w, d', e'') = then.reads p' rest v' e' d in (q, rw got ends, w, d', e''));
}

-- A list in front of another.
take_front : {A : Type 0} (n : ℕ) (xs ys : List A) → length xs ≡ n → take n (xs ++ ys) ≡ xs
take_front n xs ys h =
    take-append_left n xs ys (omega (arith, h)) ∙ take_all n xs (omega (arith, h))

drop_front : {A : Type 0} (n : ℕ) (xs ys : List A) → length xs ≡ n → drop n (xs ++ ys) ≡ ys
drop_front n xs ys h =
    drop-append_left n xs ys (omega (arith, h)) ∙ ap (◌++ ys) (drop_all n xs (omega (arith, h)))

Gives-same :
    {A : Type 0} (r : Option (A × Parser)) (a b : A) (rest rest' : Bytes) (err : Bool)
    → a ≡ b
    → rest ≡ rest'
    → Gives r a rest err
    → Gives r b rest' err
Gives-same r a b rest rest' err e e' (q, got, u, d, f) =
    (q, got ∙ ap (λ x. some (x, q)) e, u, d ∙ e', f)

pub integer-Reads : (w out val : ℕ) → val < 2 ^ (8 * w) → Reads (integer w out) (bytes_of w val) val
integer-Reads w out val h = record {
  reads = λ p rest v e d.
      Gives-same (integer w out p) _ val _ rest false
        (ap (λ bs. value_from w 0 (take w bs)) d
          ∙ ap (value_from w 0) (take_front w (bytes_of w val) rest (length-bytes_of w val))
          ∙ value_of_bytes w val h)
        (ap (drop w) d ∙ drop_front w (bytes_of w val) rest (length-bytes_of w val))
        (integer_long w out p v e
          (omega (arith, ap length d, length-append (bytes_of w val) rest, length-bytes_of w val)));
}

pub map-Reads {ℓ κ} :
    {A : Type ℓ} {B : Type κ} {m : Parse A} (g : A → B) {i : Bytes} {a : A}
    → Reads m i a
    → Reads (m >>= λ x. return (g x)) i (g a)
map-Reads g first = record {
  reads = λ p rest v e h.
      (let (q, got, w, d, e') = first.reads p rest v e h in (q, rw got refl, w, d, e'));
}

-- Bytes written one by one.
abbrev pub each_byte : List ℕ → Bytes
each_byte [] = []
each_byte (b ∷ bs) = bytes_of 1 b ++ each_byte bs

abbrev pub AllBytes : List ℕ → Type 0
AllBytes [] = Unit {0}
AllBytes (b ∷ bs) = (b < 2 ^ 8) × AllBytes bs

pub integers-Reads :
    (outs vals : List ℕ)
    → length outs ≡ length vals
    → AllBytes vals
    → Reads (integers outs) (each_byte vals) vals
unfolding integers
integers-Reads [] [] e h = return-Reads []
integers-Reads [] (v ∷ vals) e h =
    let absurd : suc (length vals) ≤ 0 = omega (arith, e) in elim absurd [ ]
integers-Reads (o ∷ outs) [] e h =
    let absurd : suc (length outs) ≤ 0 = omega (arith, e) in elim absurd [ ]
integers-Reads (o ∷ outs) (v ∷ vals) e h =
    bind-Reads _ (integer-Reads 1 o v h.0)
      (map-Reads (v ∷◌) (integers-Reads outs vals (omega (arith, e)) h.1))
