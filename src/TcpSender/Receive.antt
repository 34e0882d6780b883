-- ===== src/TcpSender/Receive.antt =====
-- `receive`: what each message of the peer does.
use cs_144_minnow_tcp.Base.{
  ℕ, ◌+◌, ◌-◌, ◌≤◌, ◌<◌, ◌≡◌, ◌⊎◌, inl, inr, refl, ap, sym, subst, ◌∙◌, true, false, not, ltb,
  ltb→lt, ltb→le, none, some, Option-cases, List, [], ◌∷◌, is_empty, arith, Bool-cases, ◌==◌,
}
use cs_144_minnow_tcp.Wrap32.{Wrap32, wrap, unwrap}
use cs_144_minnow_tcp.Wrap32.Nearest.{unwrap-wrap}
use cs_144_minnow_tcp.ByteStream.Inv.{set_error-IsValid}
use cs_144_minnow_tcp.Retransmission
use cs_144_minnow_tcp.Timer
use cs_144_minnow_tcp.Messages.{TcpSenderMessage, TcpReceiverMessage, sequence_length}
use cs_144_minnow_tcp.TcpSender.{
  TcpSender, ack_loop, take_ack, record_acked, abort, note_window, receive,
}
use cs_144_minnow_tcp.TcpSender.Inv.{IsValid, Chain, Chain-le}
use cs_144_minnow_tcp.TcpSender.Ack.{near_enough, Waits}
use cs_144_minnow_tcp.TcpSender.Acked.{Acked, record_acked-Acked}

-- The peer reset the connection.
pub record Aborted (s : TcpSender) (s' : TcpSender) : Type 0 where
  pub nothing_outstanding : s'.outstanding ≡ []
  pub nothing_in_flight : s'.bytes_in_flight ≡ 0
  pub stopped : Retransmission.is_running s'.timer ≡ false
  pub error : s'.input.error ≡ true
  pub next_seqno : s'.next_seqno ≡ s.next_seqno
  pub window_size : s'.window_size ≡ s.window_size

-- The sender with a window noted.
abbrev pub noticed : TcpSender → ℕ → TcpSender
noticed s window = record s { window_size = window; zero_window = window == 0 }

-- What the sender does with a message, in the order of the guards of the code: a reset aborts; no
-- ackno, or one of numbers that were never sent, leaves only the window noted; else the outstanding
-- segments are acknowledged.
abbrev pub Handled : TcpSender → TcpReceiverMessage → TcpSender → Type 0
Handled s msg s' =
    ((msg.rst ≡ true) × Aborted s s')
    ⊎ ((msg.rst ≡ false) × (msg.ackno ≡ none) × (s' ≡ noticed s msg.window_size))
    ⊎ ((msg.rst ≡ false)
        × (ackno : Wrap32) × (msg.ackno ≡ some ackno)
        × (((s.next_seqno < unwrap ackno s.isn s.next_seqno) × (s' ≡ noticed s msg.window_size))
            ⊎ ((unwrap ackno s.isn s.next_seqno ≤ s.next_seqno)
                × Acked (noticed s msg.window_size) (unwrap ackno s.isn s.next_seqno) s')))

abbrev Kept : TcpSender → TcpReceiverMessage → TcpSender → Type 0
Kept s msg s' = IsValid s' × Handled s msg s'

note_window-IsValid :
    (s : TcpSender) (window : ℕ) → IsValid s → window ≤ 65535 → IsValid (note_window s window)
note_window-IsValid s window v h = record {
  input_valid = v.input_valid;
  isn_word = v.isn_word;
  next_fits = v.next_fits;
  flight_le = v.flight_le;
  flight_small = v.flight_small;
  chain = v.chain;
  window_fits = h;
  zero_noted = refl;
  syn_first = v.syn_first;
  timer_runs = v.timer_runs;
}

abort-IsValid : (s : TcpSender) → IsValid s → IsValid (abort s)
unfolding Retransmission.stop Timer.stop
abort-IsValid s v = record {
  input_valid = set_error-IsValid s.input v.input_valid;
  isn_word = v.isn_word;
  next_fits = v.next_fits;
  flight_le = omega arith;
  flight_small = omega arith;
  chain = let e : s.next_seqno - 0 ≡ s.next_seqno = omega arith in e;
  window_fits = v.window_fits;
  zero_noted = v.zero_noted;
  syn_first = v.syn_first;
  timer_runs = refl;
}

abort-Aborted : (s : TcpSender) → Aborted s (abort s)
unfolding Retransmission.stop Timer.stop
abort-Aborted s = record {
  nothing_outstanding = refl;
  nothing_in_flight = refl;
  stopped = refl;
  error = refl;
  next_seqno = refl;
  window_size = refl;
}

module _ (s : TcpSender) (msg : TcpReceiverMessage) where
  receive-reset : msg.rst ≡ true → receive s msg ≡ abort s
  unfolding receive
  receive-reset reset = rw reset

  receive-no_ack :
      msg.rst ≡ false → msg.ackno ≡ none → receive s msg ≡ note_window s msg.window_size
  unfolding receive take_ack
  receive-no_ack no_reset no_ack = rw (no_reset, no_ack)

  module _ (no_reset : msg.rst ≡ false) (ackno : Wrap32) (ack : msg.ackno ≡ some ackno) where
    abs_ackno : ℕ
    abs_ackno = unwrap ackno s.isn s.next_seqno

    receive-beyond :
        ltb s.next_seqno abs_ackno ≡ true → receive s msg ≡ note_window s msg.window_size
    unfolding receive take_ack abs_ackno
    receive-beyond beyond = rw (no_reset, ack) (rw beyond)

    receive-ack :
        ltb s.next_seqno abs_ackno ≡ false
        → let t = note_window s msg.window_size in
          receive s msg
          ≡ record_acked t
              (ack_loop abs_ackno t.isn t.next_seqno t.outstanding t.bytes_in_flight false)
    unfolding receive take_ack abs_ackno
    receive-ack known = rw (no_reset, ack) (rw known)

-- receive keeps the invariant of a valid sender for a window of 16 bits and any ackno; a reset
-- aborts; a missing ackno, or one beyond what was sent, leaves only the window noted, and whether
-- it is zero; any other notes the window and takes off exactly the outstanding segments in front
-- that end at or before it, and if there were any, the timer has the initial timeout, no
-- retransmission counted and no time elapsed, and runs exactly if a segment is still outstanding;
-- else the timer stays as it is.
pub receive-Handled :
    (s : TcpSender) (msg : TcpReceiverMessage)
    → IsValid s
    → msg.window_size ≤ 65535
    → IsValid (receive s msg) × Handled s msg (receive s msg)
unfolding abs_ackno
receive-Handled s msg v h = elim (Bool-cases msg.rst) [
  | inl reset ↦
      subst (Kept s msg) (sym (receive-reset s msg reset))
        (abort-IsValid s v, inl (reset, abort-Aborted s))
  | inr no_reset ↦ elim (Option-cases msg.ackno) [
    | inl no_ack ↦
        subst (Kept s msg) (sym (receive-no_ack s msg no_reset no_ack))
          (noted, inr (inl (no_reset, no_ack, refl)))
    | inr (ackno, ack) ↦ elim (Bool-cases (ltb s.next_seqno (unwrap ackno s.isn s.next_seqno))) [
      | inl beyond ↦
          subst (Kept s msg) (sym (receive-beyond s msg no_reset ackno ack beyond))
            (noted, inr (inr (no_reset, ackno, ack, inl (ltb→lt _ _ beyond, refl))))
      | inr known ↦
          let (valid, acked) =
            record_acked-Acked (note_window s msg.window_size) (unwrap ackno s.isn s.next_seqno)
              noted in
          subst (Kept s msg) (sym (receive-ack s msg no_reset ackno ack known))
            (valid, inr (inr (no_reset, ackno, ack, inr (ltb→le _ _ known, acked))))
    ]
  ]
]
  where
    noted : IsValid (note_window s msg.window_size)
    noted = note_window-IsValid s msg.window_size v h

nothing-Waits :
    (isn : Wrap32) (mid next : ℕ) (rest : List TcpSenderMessage)
    → Chain isn mid rest next
    → Waits next mid rest
    → (rest ≡ []) × (mid ≡ next)
nothing-Waits isn mid next [] c w = (refl, c)
nothing-Waits isn mid next (seg ∷ rest) c w =
    absurd (omega (arith, Chain-le isn (mid + sequence_length seg) next rest c.3, w))

-- An acknowledgment of all that was sent.
abbrev ack_of_all : TcpSender → ℕ → TcpReceiverMessage
ack_of_all s window_size = record {
  ackno = some (wrap s.next_seqno s.isn);
  window_size = window_size;
  rst = false;
}

-- An acknowledgment, without RST and with a 16-bit window, of all that a valid sender sent leaves
-- nothing outstanding, nothing in flight and the timer stopped.
pub receive_all :
    (s : TcpSender) (window_size : ℕ)
    → IsValid s
    → window_size ≤ 65535
    → let s' = receive s (ack_of_all s window_size) in
      (s'.outstanding ≡ [])
      × (s'.bytes_in_flight ≡ 0)
      × (Retransmission.is_running s'.timer ≡ false)
unfolding abs_ackno
receive_all s window_size v h =
    let t = note_window s window_size in
    let next = s.next_seqno in
    let abs =
      unwrap-wrap next s.isn next v.isn_word v.next_fits v.next_fits
        (near_enough next next (omega arith) (omega arith)) in
    let known : ltb next (unwrap (wrap next s.isn) s.isn next) ≡ false = ground (arith, abs) in
    let (valid, acked) =
      record_acked-Acked t (unwrap (wrap next s.isn) s.isn next)
        (note_window-IsValid s window_size v h) in
    let s' = record_acked t (
      ack_loop (unwrap (wrap next s.isn) s.isn next) t.isn t.next_seqno t.outstanding
        t.bytes_in_flight false) in
    let (none_left, at_end) =
      nothing-Waits s.isn (next - s'.bytes_in_flight) next s'.outstanding acked.split.back
        (subst (λ a. Waits a (next - s'.bytes_in_flight) s'.outstanding) abs acked.split.waits) in
    subst
      (λ z.
        (z.outstanding ≡ [])
        × (z.bytes_in_flight ≡ 0)
        × (Retransmission.is_running z.timer ≡ false))
      (sym (receive-ack s (ack_of_all s window_size) refl (wrap next s.isn) refl known))
      (
        none_left,
        (let e : s'.bytes_in_flight ≡ 0 = omega (arith, at_end, acked.flight_le, v.flight_le) in e),
        valid.timer_runs ∙ ap (λ l. not (is_empty l)) none_left,
      )
