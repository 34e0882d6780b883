-- ===== src/TcpSender/Acked.antt =====
-- What an acknowledgment does to the sender.
use cs_144_minnow_tcp.Base.{
  ℕ, ◌-◌, ◌⊎◌, inl, inr, ◌≤◌, ◌≡◌, refl, ap, sym, subst, ◌∙◌, false, not, List, [], ◌∷◌, ◌++◌,
  is_empty, arith, if◌then◌else◌,
}
use cs_144_minnow_tcp.Retransmission
use cs_144_minnow_tcp.Timer
use cs_144_minnow_tcp.Messages.{TcpSenderMessage}
use cs_144_minnow_tcp.TcpSender.{TcpSender, ack_loop, record_acked, restart_timer}
use cs_144_minnow_tcp.TcpSender.Inv.{IsValid, Chain, Chain-le}
use cs_144_minnow_tcp.TcpSender.Ack.{Split, ack_loop-Split}

-- The timer with the initial timeout and no retransmission counted, at zero; it runs if a segment is
-- outstanding.
pub record Restarted (t t' : Retransmission.Retransmission) (outstanding : List TcpSenderMessage)
    : Type 0 where
  pub initial : t'.initial_rto_ms ≡ t.initial_rto_ms
  pub timeout : t'.timer.timeout_ms ≡ t.initial_rto_ms
  pub count : t'.consecutive_retransmissions ≡ 0
  pub elapsed : t'.timer.elapsed_ms ≡ 0
  pub running : t'.timer.running ≡ not (is_empty outstanding)

-- What an acknowledgment up to `abs_ackno` does: the segments in front that it covers are gone, and
-- if there are any, the timer is restarted; nothing else changes.
pub record Acked (s : TcpSender) (abs_ackno : ℕ) (s' : TcpSender) : Type 0 where
  pub gone : List TcpSenderMessage
  pub split :
      Split abs_ackno s.isn
        (s.next_seqno - s.bytes_in_flight)
        s.next_seqno
        s.outstanding
        gone
        s'.outstanding
        (s.next_seqno - s'.bytes_in_flight)
  pub flight_le : s'.bytes_in_flight ≤ s.bytes_in_flight
  pub next_seqno : s'.next_seqno ≡ s.next_seqno
  pub input : s'.input ≡ s.input
  pub timer :
      ((gone ≡ []) × (s'.timer ≡ s.timer))
      ⊎ ((is_empty gone ≡ false) × Restarted s.timer s'.timer s'.outstanding)
  pub window_size : s'.window_size ≡ s.window_size
  pub zero_window : s'.zero_window ≡ s.zero_window
  pub isn : s'.isn ≡ s.isn
  pub syn_sent : s'.syn_sent ≡ s.syn_sent
  pub fin_sent : s'.fin_sent ≡ s.fin_sent

timer_running :
    (t : Retransmission.Retransmission) (gone rest : List TcpSenderMessage)
    → Retransmission.is_running t ≡ not (is_empty (gone ++ rest))
    → Retransmission.is_running (if not (is_empty gone) then restart_timer t rest else t)
      ≡ not (is_empty rest)
unfolding Retransmission.start Retransmission.stop Retransmission.reset_backoff Timer.start
    Timer.stop
timer_running t [] rest h = h
timer_running t (x ∷ gone) [] h = refl
timer_running t (x ∷ gone) (y ∷ rest) h = refl

restart_timer-Restarted :
    (t : Retransmission.Retransmission) (outstanding : List TcpSenderMessage)
    → Restarted t (restart_timer t outstanding) outstanding
unfolding Retransmission.start Retransmission.stop Retransmission.reset_backoff Timer.start
    Timer.stop
restart_timer-Restarted t [] = record {
  initial = refl;
  timeout = refl;
  count = refl;
  elapsed = refl;
  running = refl;
}
restart_timer-Restarted t (seg ∷ rest) = record {
  initial = refl;
  timeout = refl;
  count = refl;
  elapsed = refl;
  running = refl;
}

timer_after :
    (t : Retransmission.Retransmission) (gone rest : List TcpSenderMessage)
    → let t' = if not (is_empty gone) then restart_timer t rest else t in
      ((gone ≡ []) × (t' ≡ t)) ⊎ ((is_empty gone ≡ false) × Restarted t t' rest)
timer_after t [] rest = inl (refl, refl)
timer_after t (seg ∷ gone) rest = inr (refl, restart_timer-Restarted t rest)

module _ (s : TcpSender) (abs_ackno : ℕ) (v : IsValid s) (gone rest : List TcpSenderMessage)
    (mid : ℕ)
    (sp : Split abs_ackno s.isn
      (s.next_seqno - s.bytes_in_flight)
      s.next_seqno
      s.outstanding
      gone
      rest
      mid) where
  after : TcpSender
  after = record_acked s (rest, s.next_seqno - mid, not (is_empty gone))

  low : s.next_seqno - s.bytes_in_flight ≤ mid
  low = Chain-le s.isn (s.next_seqno - s.bytes_in_flight) mid gone sp.front

  high : mid ≤ s.next_seqno
  high = Chain-le s.isn mid s.next_seqno rest sp.back

  same_mid : mid ≡ s.next_seqno - (s.next_seqno - mid)
  same_mid = omega (arith, high)

  after-IsValid : IsValid after
  unfolding after
  after-IsValid = record {
    input_valid = v.input_valid;
    isn_word = v.isn_word;
    next_fits = v.next_fits;
    flight_le = omega arith;
    flight_small = omega (arith, low, v.flight_small, v.flight_le);
    chain = subst (λ m. Chain s.isn m rest s.next_seqno) same_mid sp.back;
    window_fits = v.window_fits;
    zero_noted = v.zero_noted;
    syn_first = v.syn_first;
    timer_runs =
        timer_running s.timer gone rest (v.timer_runs ∙ ap (λ l. not (is_empty l)) sp.parts);
  }

  after-Acked : Acked s abs_ackno after
  unfolding after
  after-Acked = record {
    gone = gone;
    split =
        subst
          (Split abs_ackno s.isn (s.next_seqno - s.bytes_in_flight) s.next_seqno s.outstanding gone
            rest)
          same_mid sp;
    flight_le = omega (arith, low, v.flight_le);
    next_seqno = refl;
    input = refl;
    timer = timer_after s.timer gone rest;
    window_size = refl;
    zero_window = refl;
    isn = refl;
    syn_sent = refl;
    fin_sent = refl;
  }

pub record_acked-Acked :
    (s : TcpSender) (abs_ackno : ℕ)
    → IsValid s
    → let s' =
        record_acked s
          (ack_loop abs_ackno s.isn s.next_seqno s.outstanding s.bytes_in_flight false) in
      IsValid s' × Acked s abs_ackno s'
unfolding after
record_acked-Acked s abs_ackno v =
    let n = s.next_seqno - s.bytes_in_flight in
    let (gone, rest, mid, e, sp) =
      ack_loop-Split abs_ackno s.isn s.next_seqno v.isn_word v.next_fits n s.outstanding false
        (omega (arith, v.flight_small, v.flight_le)) v.chain in
    let same_flight : s.next_seqno - n ≡ s.bytes_in_flight = omega (arith, v.flight_le) in
    subst (λ r. IsValid (record_acked s r) × Acked s abs_ackno (record_acked s r))
      (sym e ∙ ap (λ f. ack_loop abs_ackno s.isn s.next_seqno s.outstanding f false) same_flight)
      (after-IsValid s abs_ackno v gone rest mid sp, after-Acked s abs_ackno v gone rest mid sp)
