-- ===== src/TcpSender/Ack.antt =====
-- The loop of `receive` that takes the acknowledged segments off.
use cs_144_minnow_tcp.Base.{
  ℕ, ◌+◌, ◌-◌, ◌^◌, ◌≤◌, ◌<◌, ◌≡◌, ◌⊎◌, inl, inr, refl, ap, sym, subst, ◌∙◌, Bool, true, false, not,
  ◌||◌, ltb, ltb→lt, ltb→le, List, [], ◌∷◌, ◌++◌, is_empty, arith, add64, sub64, mod64, Bool-cases,
}
use cs_144_minnow_tcp.Wrap32.{Wrap32, IsWord, wrap, unwrap, distance}
use cs_144_minnow_tcp.Wrap32.Nearest.{unwrap-wrap}
use cs_144_minnow_tcp.Messages.{TcpSenderMessage, sequence_length}
use cs_144_minnow_tcp.TcpSender.{ack_loop}
use cs_144_minnow_tcp.TcpSender.Inv.{Chain, Chain-le}

-- A segment at `n` is not acknowledged up to `abs_ackno` as a whole.
abbrev pub Waits : ℕ → ℕ → List TcpSenderMessage → Type 0
Waits abs_ackno n [] = Unit {0}
Waits abs_ackno n (seg ∷ rest) = abs_ackno < n + sequence_length seg

-- The segments from `n` on, split at the acknowledgment: those in front end at `mid`, at most the
-- acknowledged number, and the first of the others ends behind it.
pub record Split (abs_ackno : ℕ) (isn : Wrap32) (n next : ℕ)
    (segs gone rest : List TcpSenderMessage) (mid : ℕ) : Type 0 where
  pub parts : segs ≡ gone ++ rest
  pub front : Chain isn n gone mid
  pub back : Chain isn mid rest next
  pub acked : (gone ≡ []) ⊎ (mid ≤ abs_ackno)
  pub waits : Waits abs_ackno mid rest

pub near_enough : (next n : ℕ) → n ≤ next → next ≤ n + 65535 → distance next n < 2 ^ 31
unfolding distance
near_enough next n h k = ground arith

-- What goes up to the acknowledgment: nothing, or segments that end there at the latest.
gone-acked :
    (abs_ackno : ℕ) (isn : Wrap32) (n mid : ℕ) (gone : List TcpSenderMessage)
    → Chain isn n gone mid
    → (gone ≡ []) ⊎ (mid ≤ abs_ackno)
    → n ≤ abs_ackno
    → mid ≤ abs_ackno
gone-acked abs_ackno isn n mid gone c (inr le) h = le
gone-acked abs_ackno isn n mid gone c (inl e) h =
    let same : n ≡ mid = subst (λ g. Chain isn n g mid) e c in omega (arith, same)

or-false : (b : Bool) → b ≡ (b || false)
or-false true = refl
or-false false = refl

or-true : (b : Bool) → (b || true) ≡ true
or-true true = refl
or-true false = refl

module _ (abs_ackno : ℕ) (isn : Wrap32) (next : ℕ) (hi : IsWord isn) (far : next < mod64) where
  seg_end-eq :
      (n : ℕ) (seg : TcpSenderMessage)
      → next ≤ n + 65535
      → seg.seqno ≡ wrap n isn
      → n + sequence_length seg ≤ next
      → add64 (unwrap seg.seqno isn next) (sequence_length seg) ≡ n + sequence_length seg
  seg_end-eq n seg near e le =
      ap (λ w. add64 (unwrap w isn next) (sequence_length seg)) e
      ∙ ap (λ m. add64 m (sequence_length seg))
          (unwrap-wrap n isn next hi (omega arith) far (near_enough next n (omega arith) near))
      ∙ (let e : add64 n (sequence_length seg) ≡ n + sequence_length seg = omega arith in e)

  ack_loop-stop :
      (n : ℕ) (seg : TcpSenderMessage) (rest : List TcpSenderMessage) (flight : ℕ) (acked : Bool)
      → add64 (unwrap seg.seqno isn next) (sequence_length seg) ≡ n + sequence_length seg
      → ltb abs_ackno (n + sequence_length seg) ≡ true
      → ack_loop abs_ackno isn next (seg ∷ rest) flight acked ≡ (seg ∷ rest, flight, acked)
  unfolding ack_loop
  ack_loop-stop n seg rest flight acked e stop =
      let stop' : ltb abs_ackno (add64 (unwrap seg.seqno isn next) (sequence_length seg)) ≡ true =
        ap (ltb abs_ackno) e ∙ stop in
      rw stop'

  ack_loop-pop :
      (n : ℕ) (seg : TcpSenderMessage) (rest : List TcpSenderMessage) (acked : Bool)
      → add64 (unwrap seg.seqno isn next) (sequence_length seg) ≡ n + sequence_length seg
      → ltb abs_ackno (n + sequence_length seg) ≡ false
      → n + sequence_length seg ≤ next
      → ack_loop abs_ackno isn next (seg ∷ rest) (next - n) acked
        ≡ ack_loop abs_ackno isn next rest (next - (n + sequence_length seg)) true
  unfolding ack_loop
  ack_loop-pop n seg rest acked e go le =
      let go' : ltb abs_ackno (add64 (unwrap seg.seqno isn next) (sequence_length seg)) ≡ false =
        ap (ltb abs_ackno) e ∙ go in
      let left : sub64 (next - n) (sequence_length seg) ≡ next - (n + sequence_length seg) =
        omega arith in
      rw go' (rw left)

  -- The loop splits the outstanding segments at the acknowledgment.
  pub ack_loop-Split :
      (n : ℕ) (segs : List TcpSenderMessage) (acked : Bool)
      → next ≤ n + 65535
      → Chain isn n segs next
      → (gone rest : List TcpSenderMessage) × (mid : ℕ) × (ack_loop abs_ackno isn next segs
            (next - n)
            acked
          ≡ (rest, next - mid, acked || not (is_empty gone)))
        × Split abs_ackno isn n next segs gone rest mid
  unfolding ack_loop
  ack_loop-Split n [] acked near c = (
    [],
    [],
    n,
    ap (λ b. ([], next - n, b)) (or-false acked),
    record { parts = refl; front = refl; back = c; acked = inl refl; waits = tt },
  )
  ack_loop-Split n (seg ∷ rest) acked near c =
      let after = Chain-le isn (n + sequence_length seg) next rest c.3 in
      let e = seg_end-eq n seg near c.0 after in
      elim (Bool-cases (ltb abs_ackno (n + sequence_length seg))) [
        | inl stop ↦ (
          [],
          seg ∷ rest,
          n,
          ack_loop-stop n seg rest (next - n) acked e stop
              ∙ ap (λ b. (seg ∷ rest, next - n, b)) (or-false acked),
          record {
            parts = refl;
            front = refl;
            back = c;
            acked = inl refl;
            waits = ltb→lt _ _ stop;
          },
        )
        | inr go ↦
            let (gone, rest', mid, e', s) =
              ack_loop-Split (n + sequence_length seg) rest true (omega arith) c.3 in
            (
              seg ∷ gone,
              rest',
              mid,
              ack_loop-pop n seg rest acked e go after
                  ∙ e'
                  ∙ ap (λ b. (rest', next - mid, b)) (sym (or-true acked)),
              record {
                parts = ap (λ l. seg ∷ l) s.parts;
                front = (c.0, c.1, c.2, s.front);
                back = s.back;
                acked = inr (
                    gone-acked abs_ackno isn (n + sequence_length seg) mid gone s.front s.acked
                      (ltb→le _ _ go));
                waits = s.waits;
              },
            )
      ]
