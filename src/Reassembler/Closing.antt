-- ===== src/Reassembler/Closing.antt =====
-- When `insert` of src/reassembler.cc closes the output.
use mathlib.Core.Bool.{or_assoc}
use cs_144_minnow_tcp.Base.{
  ℕ, ◌+◌, ◌≤◌, ◌<◌, ◌≡◌, ◌⊎◌, inl, inr, refl, ap, ◌∙◌, ◌==◌, Bool, true, false, ◌&&◌, ◌||◌, List,
  [], ◌∷◌, arith, length, mod64, ltb, leb, if◌then◌else◌,
}
use cs_144_minnow_tcp.Reassembler.{Reassembler, insert, end_of, new}
use cs_144_minnow_tcp.ByteStream.{Bytes, ByteStream}
use cs_144_minnow_tcp.ByteStream.Inv
use cs_144_minnow_tcp.Reassembler.Flush.{window_end}
use cs_144_minnow_tcp.Reassembler.Insert.{
  IsValid, received, insert-Inserted, insert_end, new-IsValid,
}
use cs_144_minnow_tcp.Reassembler.Deliver.{Segment, insert_all}

-- The substrings lie in a stream of `total` bytes, and the last ones end with it.
abbrev pub AllWithin : ℕ → List Segment → Type 0
AllWithin total [] = Unit {0}
AllWithin total (s ∷ segments) =
    (s.first + length s.bytes ≤ total)
    × ((s.is_last ≡ false) ⊎ (s.first + length s.bytes ≡ total))
    × AllWithin total segments

or_true : (a : Bool) → true ≡ (a || true)
or_true true = refl
or_true false = refl

or_false : (a : Bool) → a ≡ (a || false)
or_false true = refl
or_false false = refl

-- Is the last substring of the stream among them?
abbrev pub some_last : List Segment → Bool
some_last [] = false
some_last (s ∷ segments) = s.is_last || some_last segments

-- Nothing at `total` or behind it has been received, a noted end is `total`, and the output is
-- closed exactly when the end is noted and reached.
pub record Ending (total : ℕ) (r : Reassembler) : Type 0 where
  pub noted : (r.eof_seen ≡ false) ⊎ (r.end_index ≡ total)
  pub below : (k : ℕ) → received r (total + k) ≡ false
  pub closed : r.output.closed ≡ (r.eof_seen && r.output.bytes_pushed == total)

insert_notes :
    (r : Reassembler) (first : ℕ) (bytes : Bytes) (is_last : Bool)
    → ((insert r first bytes is_last).eof_seen ≡ (r.eof_seen || is_last))
      × ((insert r first bytes is_last).end_index
          ≡ (if is_last then end_of first bytes else r.end_index))
insert_notes r first bytes true =
    let (seen, end, _, _) = insert_end r first bytes in (seen ∙ or_true r.eof_seen, end)
insert_notes r first bytes false =
    let (_, _, seen, end) = insert_end r first bytes in (seen ∙ or_false r.eof_seen, end)

below_step :
    (a w : Bool) (first size total k : ℕ)
    → a ≡ false
    → first + size ≤ total
    → (a || ((leb first (total + k) && ltb (total + k) (first + size)) && w)) ≡ false
below_step a w first size total k h fits = ground arith

noted_step :
    (seen' seen last : Bool) (end' end total e : ℕ)
    → seen' ≡ (seen || last)
    → end' ≡ (if last then e else end)
    → (seen ≡ false) ⊎ (end ≡ total)
    → (last ≡ false) ⊎ (e ≡ total)
    → (seen' ≡ false) ⊎ (end' ≡ total)
noted_step seen' seen last end' end total e h k n l = ground arith

closed_step :
    (c' c seen' seen last : Bool) (p' p end' total : ℕ)
    → c' ≡ (c || (seen' && p' == end'))
    → c ≡ (seen && p == total)
    → seen' ≡ (seen || last)
    → (seen' ≡ false) ⊎ (end' ≡ total)
    → p ≤ p'
    → p' ≤ total
    → c' ≡ (seen' && p' == total)
closed_step c' c seen' seen last p' p end' total hc' hc hs n le top = ground arith

not_beyond :
    (r : Reassembler) (total : ℕ) → received r (total + 0) ≡ false → r.output.bytes_pushed ≤ total
not_beyond r total h = ground arith

insert-Ending :
    (total : ℕ) (r : Reassembler) (s : Segment)
    → total < mod64
    → IsValid r
    → Ending total r
    → s.first + length s.bytes ≤ total
    → (s.is_last ≡ false) ⊎ (s.first + length s.bytes ≡ total)
    → Ending total (insert r s.first s.bytes s.is_last)
insert-Ending total r s far v e within last =
    let r' = insert r s.first s.bytes s.is_last in
    let ins = insert-Inserted r s.first s.bytes s.is_last v (inr (omega arith)) in
    let (seen, end) = insert_notes r s.first s.bytes s.is_last in
    let below : (k : ℕ) → received r' (total + k) ≡ false = λ k.
      ins.cover (total + k) ∙ below_step _ _ s.first (length s.bytes) total k (e.below k) within in
    let noted : (r'.eof_seen ≡ false) ⊎ (r'.end_index ≡ total) =
      noted_step _ _ _ _ _ total _ seen end e.noted (end_noted last) in
    record {
      noted = noted;
      below = below;
      closed =
          closed_step _ _ _ r.eof_seen s.is_last _ _ _ total ins.closes e.closed seen noted
            (omega (arith, ins.count)) (not_beyond r' total (below 0));
    }
  where
    end_noted :
        (s.is_last ≡ false) ⊎ (s.first + length s.bytes ≡ total)
        → (s.is_last ≡ false) ⊎ (end_of s.first s.bytes ≡ total)
    end_noted (inl other) = inl other
    end_noted (inr at) = inr (omega arith)

insert_all-Ending :
    (total : ℕ) (r : Reassembler) (segments : List Segment)
    → total < mod64
    → IsValid r
    → Ending total r
    → AllWithin total segments
    → Ending total (insert_all r segments)
      × ((insert_all r segments).eof_seen ≡ (r.eof_seen || some_last segments))
unfolding insert_all
insert_all-Ending total r [] far v e w = (e, or_false r.eof_seen)
insert_all-Ending total r (s ∷ segments) far v e w =
    let ins = insert-Inserted r s.first s.bytes s.is_last v (inr (omega (arith, w.0))) in
    let (seen, _) = insert_notes r s.first s.bytes s.is_last in
    let (e', seen') =
      insert_all-Ending total (insert r s.first s.bytes s.is_last) segments far ins.valid
        (insert-Ending total r s far v e w.0 w.1) w.2 in
    (
      e',
      seen'
          ∙ ap (λ b. b || some_last segments) seen
          ∙ or_assoc r.eof_seen s.is_last (some_last segments),
    )

new-Ending :
    (out : ByteStream) (total : ℕ)
    → out.bytes_pushed ≤ total
    → out.closed ≡ false
    → Ending total (new out)
unfolding new
new-Ending out total h c = record { noted = inl refl; below = λ k. ground arith; closed = c }

-- Let substrings, in any order, lie in a stream of `total` bytes, the last ones ending with it, and
-- let a new reassembler write to a valid, open stream with at most `total` bytes. After all of them
-- the output is closed exactly if a last one was among them and all `total` bytes were delivered.
pub insert_all-closes :
    (out : ByteStream) (total : ℕ) (segments : List Segment)
    → Inv.IsValid out
    → window_end out < mod64
    → out.bytes_pushed ≤ total
    → out.closed ≡ false
    → total < mod64
    → AllWithin total segments
    → let r = insert_all (new out) segments in
      r.output.closed ≡ (some_last segments && r.output.bytes_pushed == total)
unfolding new
insert_all-closes out total segments v w h c far within =
    let (e, seen) =
      insert_all-Ending total (new out) segments far (new-IsValid out v w)
        (new-Ending out total h c) within in
    e.closed ∙ ap (λ b. b && (insert_all (new out) segments).output.bytes_pushed == total) seen
