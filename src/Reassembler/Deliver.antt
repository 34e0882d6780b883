-- ===== src/Reassembler/Deliver.antt =====
-- Sequences of insertions into the reassembler of src/reassembler.cc, and what they deliver.
use cs_144_minnow_tcp.Base.{
  ℕ, zero, suc, ◌+◌, ◌≤◌, ◌<◌, ◌≡◌, refl, ◌∙◌, ap, sym, ap₂, Bool, true, false, ◌&&◌, ◌||◌, List,
  [], ◌∷◌, ◌++◌, append-nil, append_assoc, arith, ltb, inr, length, mod64, add64,
}
use cs_144_minnow_tcp.ByteStream.{Bytes, available_capacity}
use cs_144_minnow_tcp.ByteStream.Inv.{contents}
use cs_144_minnow_tcp.Reassembler.{Reassembler, Pending, insert, count_from, count_bytes_pending}
use cs_144_minnow_tcp.Reassembler.Segments.{Apart, inside, Agrees, AllAgree}
use cs_144_minnow_tcp.Reassembler.Flush.{window_end}
use cs_144_minnow_tcp.Reassembler.Insert.{
  IsValid, received, pushed_le, received_next, insert-Inserted,
}

pub record Segment : Type 0 where
  pub first : ℕ
  pub bytes : Bytes
  pub is_last : Bool

unfoldable pub insert_all : Reassembler → List Segment → Reassembler
insert_all r [] = r
insert_all r (s ∷ segments) = insert_all (insert r s.first s.bytes s.is_last) segments

-- Is index `i` in one of the substrings?
abbrev pub in_some : List Segment → ℕ → Bool
in_some [] i = false
in_some (s ∷ segments) i = inside s.first s.bytes i || in_some segments i

-- The substrings have 64-bit indices and come from one stream.
abbrev pub AllFrom : (ℕ → ℕ) → List Segment → Type 0
AllFrom stream [] = Unit {0}
AllFrom stream (s ∷ segments) =
    (s.first + length s.bytes < mod64) × Agrees stream s.first s.bytes × AllFrom stream segments

-- `n` bytes of the stream from index `k` on.
abbrev pub slice : (ℕ → ℕ) → ℕ → ℕ → Bytes
slice stream k zero = []
slice stream k (suc n) = stream k ∷ slice stream (suc k) n

Agrees-slice :
    (stream : ℕ → ℕ) (k : ℕ) (b : Bytes) → Agrees stream k b → b ≡ slice stream k (length b)
Agrees-slice stream k [] p = refl
Agrees-slice stream k (x ∷ b) p = ap₂ ◌∷◌ p.0 (Agrees-slice stream (suc k) b p.1)

slice-add :
    (stream : ℕ → ℕ) (k m n : ℕ)
    → slice stream k m ++ slice stream (k + m) n ≡ slice stream k (m + n)
slice-add stream k zero n = ap₂ (slice stream) (omega arith) (omega arith)
slice-add stream k (suc m) n =
    ap (◌∷◌ (stream k)) (
      ap (λ j. slice stream (suc k) m ++ slice stream j n) (omega arith)
      ∙ slice-add stream (suc k) m n)
    ∙ ap (slice stream k) {x = suc (m + n)} (omega arith)

-- What a sequence of insertions does to a valid reassembler of the stream.
pub record Delivered (stream : ℕ → ℕ) (r : Reassembler) (segments : List Segment) (r' : Reassembler)
    : Type 0 where
  pub valid : IsValid r'
  pub pending_agree : AllAgree stream r'.pending
  pub window : window_end r'.output ≡ window_end r.output
  pub cover :
      (i : ℕ)
      → received r' i ≡ (received r i || (in_some segments i && ltb i (window_end r.output)))
  pub size : ℕ
  pub next_missing : received r' r'.output.bytes_pushed ≡ false
  pub count : r'.output.bytes_pushed ≡ r.output.bytes_pushed + size
  pub delivers : contents r'.output ≡ contents r.output ++ slice stream r.output.bytes_pushed size

or_and_regroup : (a b c w : Bool) → (a || (b && w) || (c && w)) ≡ (a || ((b || c) && w))
or_and_regroup true b c w = refl
or_and_regroup false true true true = refl
or_and_regroup false true true false = refl
or_and_regroup false true false true = refl
or_and_regroup false true false false = refl
or_and_regroup false false c w = refl

or_false : (a : Bool) → a ≡ (a || false)
or_false true = refl
or_false false = refl

-- Let substrings, of any length and in any order, be parts of one stream, with indices short of 2 ^
-- 64, and let the pending bytes of a valid reassembler agree with that stream. Inserting all of
-- them keeps the invariant and the window's end; an index is then received exactly if it was before
-- or is in a substring and in the window; and the output grows by exactly the next bytes of the
-- stream, up to the first index not received.
pub insert_all-Delivered :
    (stream : ℕ → ℕ) (r : Reassembler) (segments : List Segment)
    → IsValid r
    → AllAgree stream r.pending
    → AllFrom stream segments
    → Delivered stream r segments (insert_all r segments)
unfolding insert_all
insert_all-Delivered stream r [] v p a = record {
  valid = v;
  pending_agree = p;
  window = refl;
  cover = λ i. or_false (received r i);
  size = 0;
  next_missing = received_next r v;
  count = omega arith;
  delivers = sym (append-nil (contents r.output));
}
insert_all-Delivered stream r (s ∷ segments) v p a =
    let r' = insert r s.first s.bytes s.is_last in
    let ins = insert-Inserted r s.first s.bytes s.is_last v (inr a.0) in
    let (fresh, pending) = ins.agree stream a.1 p in
    let rest = insert_all-Delivered stream r' segments ins.valid pending a.2 in
    let at : r'.output.bytes_pushed ≡ r.output.bytes_pushed + length ins.fresh = ins.count in
    record {
      valid = rest.valid;
      pending_agree = rest.pending_agree;
      window = rest.window ∙ ins.window;
      cover = λ i.
          rest.cover i
          ∙ ap (λ w. received r' i || (in_some segments i && ltb i w)) ins.window
          ∙ ap (λ x. x || (in_some segments i && ltb i (window_end r.output))) (ins.cover i)
          ∙ or_and_regroup (received r i) (inside s.first s.bytes i) (in_some segments i)
              (ltb i (window_end r.output));
      size = length ins.fresh + rest.size;
      next_missing = rest.next_missing;
      count = omega (arith, rest.count, at);
      delivers =
          rest.delivers
          ∙ ap₂ ◌++◌
              (ins.delivers
                ∙ ap (◌++◌ (contents r.output))
                    (Agrees-slice stream r.output.bytes_pushed ins.fresh fresh))
              (ap (λ k. slice stream k rest.size) at)
          ∙ append_assoc (contents r.output) _ _
          ∙ ap (◌++◌ (contents r.output))
              (slice-add stream r.output.bytes_pushed (length ins.fresh) rest.size);
    }

-- Two sequences of substrings of one stream, with which the pending bytes agree, that cover the
-- same indices leave the same bytes in the output of a valid reassembler, whatever their order and
-- overlap.
pub insert_all_order :
    (stream : ℕ → ℕ) (r : Reassembler) (segments segments' : List Segment)
    → IsValid r
    → AllAgree stream r.pending
    → AllFrom stream segments
    → AllFrom stream segments'
    → ((i : ℕ) → in_some segments i ≡ in_some segments' i)
    → (contents (insert_all r segments).output ≡ contents (insert_all r segments').output)
      × ((insert_all r segments).output.bytes_pushed ≡ (insert_all r segments').output.bytes_pushed)
insert_all_order stream r segments segments' v p a a' same =
    let d = insert_all-Delivered stream r segments v p a in
    let d' = insert_all-Delivered stream r segments' v p a' in
    let one : (i : ℕ) → received (insert_all r segments) i ≡ received (insert_all r segments') i =
      λ i.
        d.cover i
        ∙ ap (λ x. received r i || (x && ltb i (window_end r.output))) (same i)
        ∙ sym (d'.cover i) in
    let pushed : (insert_all r segments).output.bytes_pushed
        ≡ (insert_all r segments').output.bytes_pushed =
      omega (
        arith,
        pushed_le (insert_all r segments) (insert_all r segments') d.valid one,
        pushed_le (insert_all r segments') (insert_all r segments) d'.valid (λ i. sym (one i)),
      ) in
    (
      d.delivers
          ∙ ap (λ n. contents r.output ++ slice stream r.output.bytes_pushed n)
              (omega (arith, d.count, d'.count, pushed))
          ∙ sym d'.delivers,
      pushed,
    )

count_from-le :
    (total lo hi : ℕ) (m : Pending)
    → Apart lo hi m
    → lo ≤ suc hi
    → total + suc hi < mod64 + lo
    → (count_from total m + lo ≤ total + suc hi) × (total ≤ count_from total m)
unfolding count_from
count_from-le total lo hi [] a h k = omega arith
count_from-le total lo hi ((j, b) ∷ m) a h k = omega (
  arith,
  count_from-le (add64 total (length b)) (suc (j + length b)) hi m a.3 (omega arith) (omega arith),
)

-- The bytes pending in a valid reassembler fit in the capacity that its output has left.
pub count_bytes_pending-le :
    (r : Reassembler) → IsValid r → count_bytes_pending r ≤ available_capacity r.output
unfolding count_bytes_pending
count_bytes_pending-le r v = omega (
  arith,
  count_from-le 0 (suc r.output.bytes_pushed) (window_end r.output) r.pending v.apart (omega arith)
      (omega (arith, v.in_range)),
)
