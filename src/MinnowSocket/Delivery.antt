-- ===== src/MinnowSocket/Delivery.antt =====
-- The bytes that go to the owner's socket and that come from it.
use cs_144_minnow_tcp.Base.{
  ℕ, ◌≤◌, ◌<◌, ◌≡◌, refl, ap, sym, ◌∙◌, Bool, true, false, Option, some, List, [], ◌∷◌, ◌++◌, ◌>>=◌,
  append_assoc, arith, length, length-append, take, drop, min, is_empty, ◌==◌, ==_iff, Bool-cases,
  inl, inr, if◌then◌else◌, drop-append_left, ◌||◌, take-append-drop, length-take,
}
use mathlib.Core.Bool.{false≢true}
use cs_144_minnow_tcp.ByteStream.{Bytes, ByteStream, bytes_buffered, is_finished}
use cs_144_minnow_tcp.ByteStream.Inv as StreamInv
use cs_144_minnow_tcp.ByteStream.Inv.{contents}
use cs_144_minnow_tcp.ByteStream.Ops.{pop-Popped}
use cs_144_minnow_tcp.ByteStream.Chunks.{peek-prefix}
use cs_144_minnow_tcp.MinnowSocket.{
  MinnowSocket, inbound, with_inbound, note_finished, write_view, deliver,
}

-- A stream gives its oldest bytes and keeps the rest; it gives one at least if it has one and one is
-- accepted.
record Given (stream : ByteStream) (accepted : ℕ) (stream' : ByteStream) (written : Bytes)
    : Type 0 where
  valid : StreamInv.IsValid stream'
  bytes : contents stream ≡ written ++ contents stream'
  progress : min accepted (min 1 (length (contents stream))) ≤ length written

some_shown : (view held : Bytes) → is_empty view ≡ is_empty held → min 1 (length held) ≤ length view
some_shown view [] e = omega arith
some_shown [] (x ∷ held) e = elim (false≢true (sym e)) [ ]
some_shown (y ∷ view) (x ∷ held) e = omega arith

write_view-Given :
    (stream : ByteStream) (accepted : ℕ)
    → StreamInv.IsValid stream
    → (stream' : ByteStream) × (written : Bytes) × (write_view stream accepted
        ≡ some (stream', written))
      × Given stream accepted stream' written
unfolding write_view
write_view-Given stream accepted v = elim (Bool-cases (bytes_buffered stream == 0)) [
  | inl idle ↦
      (stream, [], rw idle refl, record { valid = v; bytes = refl; progress = none_held idle })
  | inr busy ↦
      let (view, rest, seen, front, some_seen) = peek-prefix stream v in
      let n = min accepted (length view) in
      let (stream', popped, p) = pop-Popped stream n v in
      (
        stream',
        take n view,
        rw busy rw seen rw popped refl,
        record {
          valid = p.valid;
          bytes =
              front
              ∙ ap (◌++ rest) (sym (take-append-drop n view))
              ∙ append_assoc (take n view) (drop n view) rest
              ∙ ap (take n view ++◌) (
                  sym (drop-append_left n view rest (omega arith))
                  ∙ ap (drop n) (sym front)
                  ∙ sym p.bytes);
          progress = omega (arith, length-take n view, some_shown view (contents stream) some_seen);
        },
      )
]
  where
    none_held :
        (bytes_buffered stream == 0) ≡ true → min accepted (min 1 (length (contents stream))) ≤ 0
    none_held idle = omega (arith, v.counted, (==_iff (bytes_buffered stream) 0).0 idle)

deliver-Given :
    (s : MinnowSocket) (accepted : ℕ)
    → StreamInv.IsValid (inbound s)
    → (s' : MinnowSocket) × (written : Bytes) × (deliver s accepted ≡ some (s', written))
      × Given (inbound s) accepted (inbound s') written
unfolding deliver
deliver-Given s accepted v =
    let (stream, written, e, g) = write_view-Given (inbound s) accepted v in
    (
      note_finished (with_inbound s stream),
      written,
      rw e refl,
      noted (is_finished stream || stream.error) (with_inbound s stream) g,
    )
  where
    noted :
        (b : Bool) (x : MinnowSocket) {written : Bytes}
        → Given (inbound s) accepted (inbound x) written
        → Given
            (inbound s)
            accepted
            (inbound (if b then record x { inbound_shutdown = true } else x))
            written
    noted true x g = g
    noted false x g = g

-- Rounds of delivery, by how many bytes the owner's socket accepts in each.
abbrev pub deliver_all : List ℕ → MinnowSocket → Option (MinnowSocket × Bytes)
deliver_all [] s = some (s, [])
deliver_all (accepted ∷ rest) s = do
  (s', written) ← deliver s accepted
  (s'', more) ← deliver_all rest s'
  some (s'', written ++ more)

abbrev pub AllPositive : List ℕ → Type 0
AllPositive [] = Unit {0}
AllPositive (n ∷ ns) = (0 < n) × AllPositive ns

-- With a valid inbound stream, rounds of delivery return, whatever the positive number of bytes
-- that the owner's socket accepts in each: the bytes it takes and then those still in the stream
-- are, in order, what the stream held, and each round gives a byte as long as there is one.
pub deliver_all_in_order :
    (s : MinnowSocket) (counts : List ℕ)
    → StreamInv.IsValid (inbound s)
    → AllPositive counts
    → (s' : MinnowSocket) × (written : Bytes) × (deliver_all counts s ≡ some (s', written))
      × StreamInv.IsValid (inbound s')
      × (contents (inbound s) ≡ written ++ contents (inbound s'))
      × (min (length counts) (length (contents (inbound s))) ≤ length written)
deliver_all_in_order s [] v a = (s, [], refl, v, refl, omega arith)
deliver_all_in_order s (accepted ∷ rest) v a =
    let (s', written, e, g) = deliver-Given s accepted v in
    let (s'', more, e', w, bytes, count) = deliver_all_in_order s' rest g.valid a.1 in
    (
      s'',
      written ++ more,
      rw e rw e' refl,
      w,
      g.bytes ∙ ap (written ++◌) bytes ∙ sym (append_assoc written more (contents (inbound s''))),
      omega (
        arith,
        a.0,
        count,
        g.progress,
        ap length g.bytes,
        length-append written (contents (inbound s')),
        length-append written more,
      ),
    )
