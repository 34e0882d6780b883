-- ===== src/Reassembler/Flush.antt =====
-- Step 4 of `insert`: flushing the contiguous prefix into the output stream.
use mathlib.Core.Bool.{or_assoc}
use cs_144_minnow_tcp.Base.{
  ℕ, suc, ◌+◌, ◌≤◌, ◌<◌, ◌≡◌, ◌==◌, ==_iff, refl, subst, ◌∙◌, ap, sym, true, ◌||◌, [], ◌∷◌, ◌++◌,
  append-nil, append_assoc, arith, ltb, inl, inr, Bool-cases, length, take, take_all, length-append,
  mod64,
}
use cs_144_minnow_tcp.ByteStream.{Bytes, ByteStream, available_capacity, push}
use cs_144_minnow_tcp.ByteStream.Inv.{IsValid, contents}
use cs_144_minnow_tcp.ByteStream.Ops.{push-Pushed, Pushed, available_capacity_lem}
use cs_144_minnow_tcp.Reassembler.{Pending, flush}
use cs_144_minnow_tcp.Reassembler.Segments.{
  Apart, inside, covers, Agrees, AllAgree, Apart-mono, Agrees-append,
}

-- The first index that the window does not accept.
abbrev pub window_end : ByteStream → ℕ
window_end s = s.bytes_pushed + available_capacity s

pub record Flushed (out : ByteStream) (m : Pending) (r : ByteStream × Pending) : Type 0 where
  pub valid : IsValid r.0
  pub apart : Apart (suc r.0.bytes_pushed) (window_end out) r.1
  pub window : window_end r.0 ≡ window_end out
  pub fresh : Bytes
  pub bytes : contents r.0 ≡ contents out ++ fresh
  pub count : r.0.bytes_pushed ≡ out.bytes_pushed + length fresh
  pub cover :
      (i : ℕ) → (ltb i r.0.bytes_pushed || covers r.1 i) ≡ (ltb i out.bytes_pushed || covers m i)
  pub agree :
      (stream : ℕ → ℕ)
      → AllAgree stream m
      → Agrees stream out.bytes_pushed fresh × AllAgree stream r.1
  pub same_popped : r.0.bytes_popped ≡ out.bytes_popped
  pub same_capacity : r.0.capacity ≡ out.capacity
  pub same_closed : r.0.closed ≡ out.closed
  pub same_error : r.0.error ≡ out.error

-- Nothing to flush.
flush_stop :
    (out : ByteStream) (m : Pending)
    → IsValid out
    → Apart (suc out.bytes_pushed) (window_end out) m
    → Flushed out m (out, m)
flush_stop out m v a = record {
  valid = v;
  apart = a;
  window = refl;
  fresh = [];
  bytes = sym (append-nil (contents out));
  count = omega arith;
  cover = λ i. refl;
  agree = λ stream p. (tt, p);
  same_popped = refl;
  same_capacity = refl;
  same_closed = refl;
  same_error = refl;
}

-- An entry that starts at the first missing byte is pushed whole.
module _ (out : ByteStream) (b : Bytes) (v : IsValid out) (bound : window_end out < mod64)
    (fits : out.bytes_pushed + length b ≤ window_end out) where
  whole : take (available_capacity out) b ≡ b
  whole = take_all (available_capacity out) b (omega arith)

  pushed : Pushed out b (push out b)
  pushed = push-Pushed out b v (omega arith)

  count-push : (push out b).bytes_pushed ≡ out.bytes_pushed + length b
  count-push = omega (arith, pushed.count)

  contents-push : contents (push out b) ≡ contents out ++ b
  contents-push = pushed.bytes ∙ ap (◌++◌ (contents out)) whole

  window-push : window_end (push out b) ≡ window_end out
  window-push = omega (
    arith,
    count-push,
    available_capacity_lem v,
    available_capacity_lem pushed.valid,
    ap length contents-push,
    length-append (contents out) b,
    pushed.same_capacity,
  )

  prefix :
      (i : ℕ)
      → ltb i (push out b).bytes_pushed ≡ (ltb i out.bytes_pushed || inside out.bytes_pushed b i)
  prefix i = ground (arith, count-push)

  flush_round :
      (m : Pending) (r : ByteStream × Pending)
      → Flushed (push out b) m r
      → Flushed out ((out.bytes_pushed, b) ∷ m) r
  flush_round m r f = record {
    valid = f.valid;
    apart = subst (λ hi. Apart (suc r.0.bytes_pushed) hi r.1) window-push f.apart;
    window = f.window ∙ window-push;
    fresh = b ++ f.fresh;
    bytes = f.bytes ∙ ap (λ c. c ++ f.fresh) contents-push ∙ append_assoc (contents out) b f.fresh;
    count = omega (arith, f.count, count-push, length-append b f.fresh);
    cover = λ i.
        f.cover i
        ∙ ap (λ x. x || covers m i) (prefix i)
        ∙ or_assoc (ltb i out.bytes_pushed) (inside out.bytes_pushed b i) (covers m i);
    agree = λ stream p.
        let rest = f.agree stream p.1 in
        (
          Agrees-append stream out.bytes_pushed b f.fresh p.0
              (subst (λ k. Agrees stream k f.fresh) count-push rest.0),
          rest.1,
        );
    same_popped = f.same_popped ∙ pushed.same_popped;
    same_capacity = f.same_capacity ∙ pushed.same_capacity;
    same_closed = f.same_closed ∙ pushed.same_closed;
    same_error = f.same_error ∙ pushed.same_error;
  }

-- The flush ends with the next missing byte not stored, and moves exactly the prefix.
pub flush-Flushed :
    (out : ByteStream) (m : Pending)
    → IsValid out
    → window_end out < mod64
    → Apart out.bytes_pushed (window_end out) m
    → Flushed out m (flush out m)
unfolding flush
flush-Flushed out [] v bound a = flush_stop out [] v tt
flush-Flushed out ((k, b) ∷ m) v bound a = elim (Bool-cases (k == out.bytes_pushed)) [
  | inl first ↦ rw first (
      subst (λ j. Flushed out ((j, b) ∷ m) (flush (push out b) m)) (sym (at first))
        (flush_round out b v bound (fits first) m (flush (push out b) m) (
          flush-Flushed (push out b) m (pushed out b v bound (fits first)).valid
            (omega (arith, window-push out b v bound (fits first)))
            (Apart-mono (suc (k + length b)) (push out b).bytes_pushed (window_end out)
              (window_end (push out b)) m
              (omega (arith, at first, count-push out b v bound (fits first)))
              (omega (arith, window-push out b v bound (fits first))) a.3))))
  | inr later ↦ rw later (flush_stop out ((k, b) ∷ m) v (ground arith, a.1, a.2, a.3))
]
  where
    at : (k == out.bytes_pushed) ≡ true → k ≡ out.bytes_pushed
    at e = (==_iff k out.bytes_pushed).0 e

    fits : (k == out.bytes_pushed) ≡ true → out.bytes_pushed + length b ≤ window_end out
    fits e = omega (arith, at e)
