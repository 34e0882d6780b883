-- ===== src/TcpSender/Push.antt =====
-- `push` of src/tcp_sender.cc and its loop.
use cs_144_minnow_tcp.Base.{
  ℕ, zero, suc, ◌+◌, ◌-◌, ◌≤◌, ◌<◌, ◌≡◌, ◌⊎◌, inl, inr, refl, ap, ap₂, sym, subst, ◌∙◌, Bool, true,
  false, not, ◌&&◌, ◌||◌, ltb, some, List, [], ◌∷◌, ◌++◌, append-nil, append_assoc, arith,
  take-append-drop, mod64, Bool-cases, ◌==◌, if◌then◌else◌,
}
use cs_144_minnow_tcp.ByteStream.{Bytes}
use cs_144_minnow_tcp.ByteStream.Inv.{contents}
use cs_144_minnow_tcp.Messages.{TcpSenderMessage}
use cs_144_minnow_tcp.TcpSender.{
  TcpSender, push_loop, push, send_segment, right_edge, effective_window, payload_room,
}
use cs_144_minnow_tcp.TcpSender.Inv.{IsValid, Chain}
use cs_144_minnow_tcp.TcpSender.Segment.{Sent, Idle, SameWindow, send_segment-Outcome}

-- The payload bytes of a list of segments, in order.
abbrev pub payloads : List TcpSenderMessage → Bytes
payloads [] = []
payloads (seg ∷ rest) = seg.payload ++ payloads rest

-- The window, of which zero counts as one.
abbrev pub window_of : TcpSender → ℕ
window_of s = if s.window_size == 0 then 1 else s.window_size

-- What `push` has done when it stops.
pub record Filled (s : TcpSender) (edge : ℕ) (s' : TcpSender) (msgs : List TcpSenderMessage)
    : Type 0 where
  pub valid : IsValid s'
  pub same : SameWindow s s'
  pub chain : Chain s.isn s.next_seqno msgs s'.next_seqno
  pub within : (s'.next_seqno ≤ edge) ⊎ (s'.next_seqno ≡ s.next_seqno)
  pub queued : s'.outstanding ≡ s.outstanding ++ msgs
  pub acked : s'.next_seqno + s.bytes_in_flight ≡ s.next_seqno + s'.bytes_in_flight
  pub bytes : contents s.input ≡ payloads msgs ++ contents s'.input
  pub closed : s'.input.closed ≡ s.input.closed
  pub full_or_done :
      (edge ≤ s'.next_seqno)
      ⊎ (s'.fin_sent ≡ true)
      ⊎ ((contents s'.input ≡ [])
          × (s'.syn_sent ≡ true)
          × ((s'.fin_sent || not s'.input.closed) ≡ true))

module _ (fuel edge : ℕ) (s : TcpSender) (sent : List TcpSenderMessage) where
  push_loop-stop :
      (ltb s.next_seqno edge && not s.fin_sent) ≡ false
      → push_loop (suc fuel) edge s sent ≡ some (s, sent)
  unfolding push_loop
  push_loop-stop e = rw (e, push_loop)

  push_loop-idle :
      (ltb s.next_seqno edge && not s.fin_sent) ≡ true
      → (s' : TcpSender) (msgs : List TcpSenderMessage)
      → send_segment s (edge - s.next_seqno) ≡ some (s', msgs, false)
      → push_loop (suc fuel) edge s sent ≡ some (s', sent ++ msgs)
  unfolding push_loop
  push_loop-idle e s' msgs h = rw (e, push_loop) (rw h)

  push_loop-round :
      (ltb s.next_seqno edge && not s.fin_sent) ≡ true
      → (s' : TcpSender) (msgs : List TcpSenderMessage)
      → send_segment s (edge - s.next_seqno) ≡ some (s', msgs, true)
      → push_loop (suc fuel) edge s sent ≡ push_loop fuel edge s' (sent ++ msgs)
  unfolding push_loop
  push_loop-round e s' msgs h = rw (e, push_loop) (rw h)

SameWindow-refl : (s : TcpSender) → SameWindow s s
SameWindow-refl s = record { isn = refl; window_size = refl; zero_window = refl }

SameWindow-trans : {s s' s'' : TcpSender} → SameWindow s s' → SameWindow s' s'' → SameWindow s s''
SameWindow-trans a b = record {
  isn = b.isn ∙ a.isn;
  window_size = b.window_size ∙ a.window_size;
  zero_window = b.zero_window ∙ a.zero_window;
}

-- The loop did not start, or found nothing to send.
Filled-none :
    (s : TcpSender) (edge : ℕ)
    → IsValid s
    → (edge ≤ s.next_seqno) ⊎ (s.fin_sent ≡ true)
    → Filled s edge s []
Filled-none s edge v h = record {
  valid = v;
  same = SameWindow-refl s;
  chain = refl;
  within = inr refl;
  queued = sym (append-nil s.outstanding);
  acked = omega arith;
  bytes = refl;
  closed = refl;
  full_or_done = widen h;
}
  where
    widen : {A B C : Type 0} → A ⊎ B → A ⊎ B ⊎ C
    widen (inl a) = inl a
    widen (inr b) = inr (inl b)

Filled-Idle :
    (s : TcpSender) (edge : ℕ) (s' : TcpSender)
    → IsValid s'
    → SameWindow s s'
    → Idle s s'
    → Filled s edge s' []
Filled-Idle s edge s' v same i = record {
  valid = v;
  same = same;
  chain = sym i.next;
  within = inr i.next;
  queued = i.queued ∙ sym (append-nil s.outstanding);
  acked = omega (arith, i.next, i.flight);
  bytes = i.drained ∙ sym i.still_drained;
  closed = i.closed;
  full_or_done = inr (inr (i.still_drained, i.syn_done, i.fin_done));
}

-- One segment, then the rest of the loop.
Filled-round :
    (s : TcpSender) (edge : ℕ) (s' s'' : TcpSender) (seg : TcpSenderMessage)
    (msgs : List TcpSenderMessage)
    → s.next_seqno < edge
    → edge ≤ s.next_seqno + 65535
    → SameWindow s s'
    → Sent s (edge - s.next_seqno) s' seg
    → Filled s' edge s'' msgs
    → Filled s edge s'' (seg ∷ msgs)
Filled-round s edge s' s'' seg msgs below near same t f = record {
  valid = f.valid;
  same = SameWindow-trans same f.same;
  chain = (
    t.seqno,
    t.occupies,
    omega (arith, t.fits),
    subst (λ n. Chain s.isn n msgs s''.next_seqno) t.next
        (subst (λ z. Chain z s'.next_seqno msgs s''.next_seqno) same.isn f.chain),
  );
  within = elim f.within [ inl h ↦ inl h | inr e ↦ inl (omega (arith, e, t.next, t.fits, below)) ];
  queued = f.queued ∙ ap (λ q. q ++ msgs) t.queued ∙ append_assoc s.outstanding (seg ∷ []) msgs;
  acked = omega (arith, f.acked, t.next, t.flight);
  bytes =
      sym (take-append-drop (payload_room s (edge - s.next_seqno)) (contents s.input))
      ∙ ap₂ (λ a b. a ++ b) (sym t.payload) (sym t.popped.bytes ∙ f.bytes)
      ∙ sym (append_assoc seg.payload (payloads msgs) (contents s''.input));
  closed = f.closed ∙ t.popped.same_closed;
  full_or_done = f.full_or_done;
}

not_starting :
    (next edge : ℕ) (fin : Bool) → (ltb next edge && not fin) ≡ false → (edge ≤ next) ⊎ (fin ≡ true)
not_starting next edge fin h = ground arith

starting : (next edge : ℕ) (fin : Bool) → (ltb next edge && not fin) ≡ true → next < edge
starting next edge fin h = ground arith

-- With a round of fuel for every number up to the edge, and one more, the loop ends.
push_loop-Filled :
    (fuel edge : ℕ) (s : TcpSender) (sent : List TcpSenderMessage)
    → IsValid s
    → edge - s.next_seqno < fuel
    → s.bytes_in_flight + (edge - s.next_seqno) ≤ 65535
    → edge < mod64
    → (s' : TcpSender) × (msgs : List TcpSenderMessage) × (push_loop fuel edge s sent
        ≡ some (s', sent ++ msgs))
      × Filled s edge s' msgs
push_loop-Filled zero edge s sent v enough small far = absurd (omega arith)
push_loop-Filled (suc fuel) edge s sent v enough small far =
    elim (Bool-cases (ltb s.next_seqno edge && not s.fin_sent)) [
      | inr stop ↦ (
        s,
        [],
        push_loop-stop fuel edge s sent stop ∙ ap (λ m. some (s, m)) (sym (append-nil sent)),
        Filled-none s edge v (not_starting _ _ _ stop),
      )
      | inl go ↦
          let below = starting _ _ _ go in
          let ((s', ms, more), e, out) =
            send_segment-Outcome s (edge - s.next_seqno) v (omega arith) small (omega arith) in
          let v' = out.0 in
          let same = out.1 in
          elim out.2 [
            | inl (idle_more, none_sent, idle) ↦ (
              s',
              [],
              push_loop-idle fuel edge s sent go s' []
                  (e ∙ ap₂ (λ m b. some (s', m, b)) none_sent idle_more),
              Filled-Idle s edge s' v' same idle,
            )
            | inr (some_more, seg, one_sent, t) ↦
                let (s'', msgs, e', f) =
                  push_loop-Filled fuel edge s' (sent ++ (seg ∷ [])) v'
                    (omega (arith, t.next, t.occupies)) (omega (arith, t.next, t.flight, t.fits))
                    far in
                (
                  s'',
                  seg ∷ msgs,
                  push_loop-round fuel edge s sent go s' (seg ∷ [])
                        (e ∙ ap₂ (λ m b. some (s', m, b)) one_sent some_more)
                      ∙ e'
                      ∙ ap (λ m. some (s'', m)) (append_assoc sent (seg ∷ []) msgs),
                  Filled-round s edge s' s'' seg msgs below (omega arith) same t f,
                )
          ]
    ]

effective-le : (s : TcpSender) → IsValid s → effective_window s ≤ 65535
effective-le s v = ground (arith, v.window_fits)

effective-eq : (s : TcpSender) → IsValid s → effective_window s ≡ window_of s
effective-eq s v = ap (λ b. if b then 1 else s.window_size) v.zero_noted

right_edge-eq :
    (s : TcpSender)
    → IsValid s
    → s.next_seqno + 65536 < mod64
    → right_edge s ≡ s.next_seqno - s.bytes_in_flight + window_of s
right_edge-eq s v far =
    omega (arith, effective-le s v, effective-eq s v, v.flight_le, v.flight_small)

-- For a valid sender with sequence numbers far from 2 ^ 64, push returns and keeps the invariant;
-- its segments follow one another from the next number on, none goes beyond the window (a window of
-- zero counts as one), they carry the bytes taken from the input in order and join the outstanding
-- ones; and when it stops the window is full, the FIN is out, or nothing is left to send.
pub push-Filled :
    (s : TcpSender)
    → IsValid s
    → s.next_seqno + 65536 < mod64
    → (s' : TcpSender) × (msgs : List TcpSenderMessage) × (push s ≡ some (s', msgs))
      × Filled s (s.next_seqno - s.bytes_in_flight + window_of s) s' msgs
unfolding push
push-Filled s v far =
    let edge = right_edge-eq s v far in
    let (s', msgs, e, f) =
      push_loop-Filled (suc (effective_window s)) (right_edge s) s [] v
        (omega (arith, edge, effective-eq s v, v.flight_le))
        (omega (arith, edge, effective-le s v, effective-eq s v, v.flight_le, v.flight_small))
        (omega (arith, edge, effective-le s v, effective-eq s v)) in
    (s', msgs, e, subst (λ n. Filled s n s' msgs) edge f)
