-- ===== src/Serializer/Written.antt =====
-- The bytes that a serializer was given so far, and what each operation adds to them.
use cs_144_minnow_tcp.Base.{
  ℕ, ◌≡◌, refl, ap, sym, ◌∙◌, true, List, [], ◌∷◌, ◌++◌, append_assoc, append-nil, flatten,
  flatten-append, Bool-cases, is_empty, inl, inr,
}
use mathlib.Core.Bool.{false≢true}
use cs_144_minnow_tcp.Ref.{Ref, get, borrow, objects}
use cs_144_minnow_tcp.ByteStream.{Bytes}
use cs_144_minnow_tcp.Serializer.{
  Serializer, new, flush, integer, integers, buffer, buffer_string, buffer_all, finish,
}
use cs_144_minnow_tcp.Serializer.Writing.{bytes_of, integer_writes}
use cs_144_minnow_tcp.Parser.Reads.{each_byte}

abbrev pub written : Serializer → Bytes
written s = flatten (objects s.output) ++ s.buffer

written-integer :
    (w val : ℕ) (s : Serializer) → written (integer w val s) ≡ written s ++ bytes_of w val
written-integer w val s =
    ap written (integer_writes w val s)
    ∙ sym (append_assoc (flatten (objects s.output)) s.buffer (bytes_of w val))

written-integers :
    (bs : List ℕ) (s : Serializer) → written (integers bs s) ≡ written s ++ each_byte bs
unfolding integers
written-integers [] s = sym (append-nil (written s))
written-integers (b ∷ bs) s =
    written-integers bs (integer 1 b s)
    ∙ ap (◌++ each_byte bs) (written-integer 1 b s)
    ∙ append_assoc (written s) (bytes_of 1 b) (each_byte bs)

objects-append : (rs qs : List (Ref Bytes)) → objects (rs ++ qs) ≡ objects rs ++ objects qs
objects-append [] qs = refl
objects-append (r ∷ rs) qs = ap (get r ∷◌) (objects-append rs qs)

objects-snoc :
    (rs : List (Ref Bytes)) (r : Ref Bytes)
    → flatten (objects (rs ++ (r ∷ []))) ≡ flatten (objects rs) ++ get r
objects-snoc rs r =
    ap flatten (objects-append rs (r ∷ []))
    ∙ flatten-append (objects rs) (get r ∷ [])
    ∙ ap (flatten (objects rs) ++◌) (append-nil (get r))

nothing : (xs : Bytes) → is_empty xs ≡ true → xs ≡ []
nothing [] h = refl
nothing (x ∷ xs) h = elim (false≢true h) [ ]

-- After `flush` everything stands in the output.
flush-written :
    (s : Serializer) → (flatten (objects (flush s).output) ≡ written s) × ((flush s).buffer ≡ [])
unfolding flush
flush-written s = elim (Bool-cases (is_empty s.buffer)) [
  | inl e ↦
      let none_left = nothing s.buffer e in
      rw e (
        sym (append-nil (flatten (objects s.output)))
            ∙ ap (flatten (objects s.output) ++◌) (sym none_left),
        none_left,
      )
  | inr e ↦ rw e (objects-snoc s.output (Ref.owned s.buffer), refl)
]

finish-written : (s : Serializer) → flatten (objects (finish s)) ≡ written s
unfolding finish
finish-written s = (flush-written s).0

pub written-buffer : (r : Ref Bytes) (s : Serializer) → written (buffer r s) ≡ written s ++ get r
unfolding buffer
written-buffer r s = elim (Bool-cases (is_empty (get r))) [
  | inl e ↦ rw e (sym (append-nil (written s)) ∙ ap (written s ++◌) (sym (nothing (get r) e)))
  | inr e ↦ rw e (
      ap (flatten (objects ((flush s).output ++ (r ∷ []))) ++◌) (flush-written s).1
      ∙ append-nil (flatten (objects ((flush s).output ++ (r ∷ []))))
      ∙ objects-snoc (flush s).output r
      ∙ ap (◌++ get r) (flush-written s).0)
]

get-borrow : (r : Ref Bytes) → get (borrow r) ≡ get r
get-borrow (Ref.owned a) = refl
get-borrow (Ref.borrowed a) = refl

written-buffer_all :
    (rs : List (Ref Bytes)) (s : Serializer)
    → written (buffer_all rs s) ≡ written s ++ flatten (objects rs)
unfolding buffer_all
written-buffer_all [] s = sym (append-nil (written s))
written-buffer_all (r ∷ rs) s =
    written-buffer_all rs (buffer (borrow r) s)
    ∙ ap (◌++ flatten (objects rs))
        (written-buffer (borrow r) s ∙ ap (written s ++◌) (get-borrow r))
    ∙ append_assoc (written s) (get r) (flatten (objects rs))

-- `buffer( string )` is `buffer` of an owned reference.
pub buffer_string_buffer :
    (bs : Bytes) (s : Serializer) → buffer_string bs s ≡ buffer (Ref.owned bs) s
unfolding buffer buffer_string
buffer_string_buffer bs s = refl

-- The operation `f` adds the bytes `bs`.
pub record Writes (f : Serializer → Serializer) (bs : Bytes) : Type 0 where
  pub adds : (s : Serializer) → written (f s) ≡ written s ++ bs

-- Operations in a row write their bytes in a row.
pub then-Writes :
    {f g : Serializer → Serializer} {i j : Bytes}
    → Writes f i
    → Writes g j
    → Writes (λ s. g (f s)) (i ++ j)
then-Writes {f} {g} {i} {j} first then = record {
  adds = λ s. then.adds (f s) ∙ ap (◌++ j) (first.adds s) ∙ append_assoc (written s) i j;
}

pub integer-Writes : (w val : ℕ) → Writes (integer w val) (bytes_of w val)
integer-Writes w val = record { adds = written-integer w val }

pub integers-Writes : (bs : List ℕ) → Writes (integers bs) (each_byte bs)
integers-Writes bs = record { adds = written-integers bs }

pub buffer_all-Writes : (rs : List (Ref Bytes)) → Writes (buffer_all rs) (flatten (objects rs))
buffer_all-Writes rs = record { adds = written-buffer_all rs }

pub buffer_string-Writes : (bs : Bytes) → Writes (buffer_string bs) bs
buffer_string-Writes bs = record {
  adds = λ s. ap written (buffer_string_buffer bs s) ∙ written-buffer (Ref.owned bs) s;
}

-- What a fresh serializer hands over after `f`.
pub finish-Writes :
    {f : Serializer → Serializer} {bs : Bytes}
    → Writes f bs
    → flatten (objects (finish (f new))) ≡ bs
finish-Writes {f} w = finish-written (f new) ∙ w.adds new
