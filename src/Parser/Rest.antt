-- ===== src/Parser/Rest.antt =====
-- The bytes that a parser has left, taken out in buffers or as one string, and a fresh parser.
use cs_144_minnow_tcp.Base.{
  ℕ, suc, ◌+◌, ◌≤◌, ◌<◌, ◌≡◌, refl, ap, sym, ◌∙◌, false, some, List, [], ◌∷◌, ◌++◌, append_assoc,
  append-nil, arith, length, drop, flatten, length-append, mod64, add64, Bool-cases, ◌==◌, ==_iff,
  subst, inl, inr,
}
use mathlib.Core.Bool.{false≢true}
use cs_144_minnow_tcp.Ref.{objects}
use cs_144_minnow_tcp.ByteStream.{Bytes, substr}
use cs_144_minnow_tcp.ByteStream.Inv.{AllProper, Fits, held, AllProper-Fits, held-zero}
use cs_144_minnow_tcp.Parser.{
  BufferList, Parser, new, collect, owned_all, dump_front, dump_all, views, buffer, append_all,
  concat_refs, concatenate_all_remaining,
}
use cs_144_minnow_tcp.Parser.Inv.{contents, IsValid, substr_within}

collect_owned :
    (xs : List Bytes) (size : ℕ)
    → size + length (flatten xs) < mod64
    → collect (owned_all xs) size ≡ some (xs, size + length (flatten xs))
unfolding collect
collect_owned [] size h = ap (λ n. some ([], n)) (omega arith)
collect_owned (x ∷ xs) size h =
    rw
      (ap (collect (owned_all xs)) {x = add64 size (length x)} {y = size + length x}
        (omega (arith, length-append x (flatten xs))))
      rw (collect_owned xs (size + length x) (omega (arith, length-append x (flatten xs))))
      (ap (λ n. some (x ∷ xs, n)) (omega (arith, length-append x (flatten xs))))

-- A parser made of buffers none of which is empty.
abbrev pub over : List Bytes → Parser
over xs = record {
  input = record { size = length (flatten xs); buffer = xs; skip = 0 };
  error = false;
}

pub over-IsValid :
    (xs : List Bytes) → AllProper xs → length (flatten xs) < mod64 → IsValid (over xs).input
over-IsValid xs a h = record {
  fits = AllProper-Fits xs a;
  counted = ap length (sym (held-zero xs));
  bounded = omega (arith, h);
}

pub new_owned :
    (xs : List Bytes) → length (flatten xs) < mod64 → new (owned_all xs) ≡ some (over xs)
unfolding new
new_owned xs h = rw (collect_owned xs 0 (omega (arith, h))) (
    ap (λ n. some (record { input = record { size = n; buffer = xs; skip = 0 }; error = false }))
      (omega arith))

dump_front_rest :
    (x : Bytes) (xs : List Bytes) (skip : ℕ)
    → skip ≤ length x
    → dump_front (x ∷ xs) skip ≡ some (owned_all (drop skip x ∷ xs))
dump_front_rest x xs skip h = elim (Bool-cases (skip == 0)) [
  | inl none_read ↦
      rw none_read (ap (λ k. some (owned_all (drop k x ∷ xs))) (sym ((==_iff skip 0).0 none_read)))
  | inr some_read ↦ rw (some_read, substr_within skip x h) refl
]

-- The buffers that hold the remaining bytes, the first of them cut.
abbrev pub remaining : List Bytes → ℕ → List Bytes
remaining [] skip = []
remaining (x ∷ xs) skip = drop skip x ∷ xs

pub flatten-remaining : (xs : List Bytes) (skip : ℕ) → flatten (remaining xs skip) ≡ held xs skip
flatten-remaining [] skip = refl
flatten-remaining (x ∷ xs) skip = refl

pub positive : (n : ℕ) → 0 < n → (n == 0) ≡ false
positive n h = ground arith

no_bytes : (xs : Bytes) → length xs ≡ 0 → xs ≡ []
no_bytes [] h = refl
no_bytes (x ∷ xs) h = let absurd : suc (length xs) ≤ 0 = omega (arith, h) in elim absurd [ ]

pub dump_all_front :
    (size : ℕ) (x : Bytes) (xs : List Bytes) (skip : ℕ)
    → 0 < size
    → skip ≤ length x
    → dump_all (record { size = size; buffer = x ∷ xs; skip = skip })
      ≡ some (owned_all (drop skip x ∷ xs))
unfolding dump_all
dump_all_front size x xs skip h le = rw (positive size h) (dump_front_rest x xs skip le)

pub dump_all_rest :
    (l : BufferList)
    → IsValid l
    → (xs : List Bytes) × (dump_all l ≡ some (owned_all xs)) × (flatten xs ≡ contents l)
unfolding dump_all
dump_all_rest l v = elim (Bool-cases (l.size == 0)) [
  | inl none_left ↦ (
    [],
    rw none_left refl,
    sym (no_bytes (contents l) (sym v.counted ∙ (==_iff l.size 0).0 none_left)),
  )
  | inr some_left ↦ (
    remaining l.buffer l.skip,
    rw some_left (whole l.buffer l.skip v.fits (subst (λ n. (n == 0) ≡ false) v.counted some_left)),
    flatten-remaining l.buffer l.skip,
  )
]
  where
    whole :
        (xs : List Bytes) (skip : ℕ)
        → Fits xs skip
        → (length (held xs skip) == 0) ≡ false
        → dump_front xs skip ≡ some (owned_all (remaining xs skip))
    whole [] skip f h = elim (false≢true (sym h)) [ ]
    whole (x ∷ xs) skip f h = dump_front_rest x xs skip (omega (arith, f.0))

append_all_owned :
    (out : Bytes) (xs : List Bytes) → append_all out (owned_all xs) ≡ some (out ++ flatten xs)
unfolding append_all
append_all_owned out [] = ap some (sym (append-nil out))
append_all_owned out (x ∷ xs) =
    append_all_owned (out ++ x) xs ∙ ap some (append_assoc out x (flatten xs))

concat_owned : (xs : List Bytes) → concat_refs (owned_all xs) ≡ some (flatten xs)
unfolding append_all
concat_owned [] = refl
concat_owned (x ∷ xs) = append_all_owned x xs

pub concatenate_all_remaining_rest :
    (p : Parser) → IsValid p.input → concatenate_all_remaining p ≡ some (contents p.input)
unfolding concatenate_all_remaining
concatenate_all_remaining_rest p v =
    let (xs, got, e) = dump_all_rest p.input v in rw got (concat_owned xs ∙ ap some e)

views_rest : (xs : List Bytes) (skip : ℕ) → Fits xs skip → views xs skip ≡ some (remaining xs skip)
unfolding substr
views_rest [] skip f = refl
views_rest (x ∷ xs) skip f =
    rw (substr_within skip x (omega (arith, f.0)), views_rest xs 0 (AllProper-Fits xs f.2))
      (whole xs)
  where
    whole : (ys : List Bytes) → some (drop skip x ∷ remaining ys 0) ≡ some (drop skip x ∷ ys)
    whole [] = refl
    whole (y ∷ ys) = refl

pub buffer_rest :
    (l : BufferList)
    → IsValid l
    → (xs : List Bytes) × (buffer l ≡ some xs) × (flatten xs ≡ contents l)
unfolding buffer
buffer_rest l v = elim (Bool-cases (l.size == 0)) [
  | inl none_left ↦ (
    [],
    rw none_left refl,
    sym (no_bytes (contents l) (sym v.counted ∙ (==_iff l.size 0).0 none_left)),
  )
  | inr some_left ↦ (
    remaining l.buffer l.skip,
    rw some_left (views_rest l.buffer l.skip v.fits),
    flatten-remaining l.buffer l.skip,
  )
]

pub objects-owned_all : (xs : List Bytes) → objects (owned_all xs) ≡ xs
objects-owned_all [] = refl
objects-owned_all (x ∷ xs) = ap (x ∷◌) (objects-owned_all xs)
