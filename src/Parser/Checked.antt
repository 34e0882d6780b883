-- ===== src/Parser/Checked.antt =====
-- Rules for chains of parser operations on any input: they end without a fault, and what is known if
-- the error flag is down then.
use cs_144_minnow_tcp.Base.{
  ℕ, ◌+◌, ◌≤◌, ◌≡◌, refl, ap, sym, ◌∙◌, Bool, true, false, Option, List, [], ◌∷◌, arith, length,
  drop, length-drop, drop-drop, subst, Bool-cases, inl, inr, ltb, ltb→lt, ltb→le,
}
use Prim.Native.Nat.{zero-le}
use mathlib.Core.Bool.{false≢true}
use cs_144_minnow_tcp.ByteStream.{Bytes}
use cs_144_minnow_tcp.Parser.{Parser, Parse, integer, set_error}
use cs_144_minnow_tcp.Parser.Chain.{◌>>=◌, ◌>>◌, return, integers}
use cs_144_minnow_tcp.Parser.Inv.{contents, IsValid}
use cs_144_minnow_tcp.Parser.Reading.{Gives, integer_failed, integer_short, integer_long}

-- What is known of a parse that ends with the error flag down: it was down before, `n` bytes were
-- taken, and `Q` holds of the value.
abbrev pub Passed {ℓ} : {A : Type ℓ} → Parser → ℕ → (A → Type 0) → A → Bytes → Type 0
Passed p n Q a rest =
    (p.error ≡ false) × (n ≤ length (contents p.input)) × (rest ≡ drop n (contents p.input)) × Q a

abbrev pub Outcome {ℓ} : {A : Type ℓ} → Parser → ℕ → (A → Type 0) → Option (A × Parser) → Type ℓ
Outcome {A} p n Q result =
    (a : A) × (rest : Bytes) × (err : Bool) × (_ : err ≡ false → Passed p n Q a rest) × Gives result
      a rest err

pub record Checked {ℓ} {A : Type ℓ} (m : Parse A) (n : ℕ) (Q : A → Type 0) : Type ℓ where
  pub runs : (p : Parser) → IsValid p.input → Outcome p n Q (m p)

pub return_checked {ℓ} : {A : Type ℓ} {Q : A → Type 0} (a : A) → Q a → Checked (return a) 0 Q
return_checked a q = record {
  runs =
      λ p v. (a, contents p.input, p.error, (λ e. (e, zero-le, refl, q)), (p, refl, v, refl, refl));
}

-- A parse that gives up.
pub give_up_checked {ℓ} :
    {A : Type ℓ} (a : A) (n : ℕ) (Q : A → Type 0) → Checked (set_error >> return a) n Q
give_up_checked a n Q = record {
  runs = λ p v. (
    a,
    contents p.input,
    true,
    (λ e. elim (false≢true (sym e)) [ ]),
    (record p { error = true }, refl, v, refl, refl),
  );
}

pub integer_checked : (w out : ℕ) → Checked (integer w out) w (λ a. Unit {0})
integer_checked w out = record {
  runs = λ p v. elim (Bool-cases p.error) [
    | inl failed ↦
        (_, _, true, (λ e. elim (false≢true (sym e)) [ ]), integer_failed w out p v failed)
    | inr fine ↦ elim (Bool-cases (ltb (length (contents p.input)) w)) [
      | inl short ↦ (
        _,
        _,
        true,
        (λ e. elim (false≢true (sym e)) [ ]),
        integer_short w out p v (ltb→lt (length (contents p.input)) w short),
      )
      | inr long ↦
          let le = ltb→le (length (contents p.input)) w long in
          (_, _, false, (λ e. (fine, le, refl, tt)), integer_long w out p v fine le)
    ]
  ];
}

pub bind_checked {ℓ κ} :
    {A : Type ℓ} {B : Type κ} {m : Parse A} (f : A → Parse B) {n k : ℕ} {P : A → Type 0}
    {Q : B → Type 0}
    → Checked m n P
    → ((a : A) → Checked (f a) k Q)
    → Checked (m >>= f) (n + k) Q
bind_checked f {n = n} {k = k} first then = record {
  runs = λ p v.
      (let (a, rest, err, passed, (p', got, v', d, e)) = first.runs p v in
        let (b, rest', err', passed', (q, ends, w, d', e')) = (then a).runs p' v' in
        (
          b,
          rest',
          err',
          (λ fine.
              (let (up, enough, all, holds) = passed' fine in
                let (up', enough', all', holds') = passed (sym e ∙ up) in
                let left = ap length (d ∙ all') ∙ length-drop n (contents p.input) in
                (
                  up',
                  omega (arith, left),
                  all ∙ ap (drop k) (d ∙ all') ∙ drop-drop k n (contents p.input),
                  holds,
                ))),
          (q, rw got ends, w, d', e'),
        ));
}

pub map_checked {ℓ κ} :
    {A : Type ℓ} {B : Type κ} {m : Parse A} (g : A → B) {n : ℕ} {P : A → Type 0} {Q : B → Type 0}
    → Checked m n P
    → ((a : A) → Q (g a))
    → Checked (m >>= λ a. return (g a)) n Q
map_checked g first q = record {
  runs = λ p v.
      (let (a, rest, err, passed, (p', got, v', d, e)) = first.runs p v in
        (
          g a,
          rest,
          err,
          (λ fine. (let (up, enough, all, holds) = passed fine in (up, enough, all, q a))),
          (p', rw got refl, v', d, e),
        ));
}

pub integers_checked : (bs : List ℕ) → Checked (integers bs) (length bs) (λ a. Unit {0})
unfolding integers
integers_checked [] = return_checked [] tt
integers_checked (b ∷ bs) =
    subst (λ n. Checked (integers (b ∷ bs)) n (λ a. Unit {0})) {x = 1 + length bs} (omega arith)
      (bind_checked _ (integer_checked 1 b)
        (λ b'. map_checked (b' ∷◌) (integers_checked bs) (λ a. tt)))

-- The same without a say on the bytes that are left: `n` at least were there.
pub record Ends {ℓ} {A : Type ℓ} (m : Parse A) (n : ℕ) (Q : A → Type 0) : Type ℓ where
  pub ends :
      (p : Parser)
      → IsValid p.input
      → (a : A) × (rest : Bytes) × (err : Bool) × (_ : err ≡ false
          → (p.error ≡ false) × (n ≤ length (contents p.input)) × Q a)
        × Gives (m p) a rest err

pub bind_ends {ℓ κ} :
    {A : Type ℓ} {B : Type κ} {m : Parse A} (f : A → Parse B) {n k : ℕ} {P : A → Type 0}
    {Q : B → Type 0}
    → Checked m n P
    → ((a : A) → Ends (f a) k Q)
    → Ends (m >>= f) (n + k) Q
bind_ends f {n = n} first then = record {
  ends = λ p v.
      (let (a, rest, err, passed, (p', got, v', d, e)) = first.runs p v in
        let (b, rest', err', passed', (q, done, w, d', e')) = (then a).ends p' v' in
        (
          b,
          rest',
          err',
          (λ fine.
              (let (up, enough, holds) = passed' fine in
                let (up', enough', all', holds') = passed (sym e ∙ up) in
                let left = ap length (d ∙ all') ∙ length-drop n (contents p.input) in
                (up', omega (arith, left), holds))),
          (q, rw got done, w, d', e'),
        ));
}
