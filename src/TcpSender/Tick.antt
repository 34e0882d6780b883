-- ===== src/TcpSender/Tick.antt =====
-- `tick`: the retransmission timeout.
use cs_144_minnow_tcp.Base.{
  ℕ, ◌≤◌, ◌≡◌, ◌⊎◌, ap, ap₂, subst, inl, inr, refl, sym, ◌∙◌, Bool, true, false, not, ◌||◌,
  is_empty, List, [], ◌∷◌, arith, add64, mul64, Bool-cases, if◌then◌else◌,
}
use cs_144_minnow_tcp.Retransmission
use cs_144_minnow_tcp.Retransmission.{Retransmission}
use cs_144_minnow_tcp.Timer
use cs_144_minnow_tcp.Messages.{TcpSenderMessage}
use cs_144_minnow_tcp.TcpSender.{TcpSender, tick, retransmit}
use cs_144_minnow_tcp.TcpSender.Inv.{IsValid}

-- The sender differs in its timer only.
pub record OnlyTimer (s s' : TcpSender) : Type 0 where
  pub input : s'.input ≡ s.input
  pub isn : s'.isn ≡ s.isn
  pub window_size : s'.window_size ≡ s.window_size
  pub zero_window : s'.zero_window ≡ s.zero_window
  pub next_seqno : s'.next_seqno ≡ s.next_seqno
  pub bytes_in_flight : s'.bytes_in_flight ≡ s.bytes_in_flight
  pub syn_sent : s'.syn_sent ≡ s.syn_sent
  pub fin_sent : s'.fin_sent ≡ s.fin_sent
  pub outstanding : s'.outstanding ≡ s.outstanding

-- The timer after a retransmission: running from zero, and twice the timeout and one more in the
-- count, unless the window is closed.
pub record BackedOff (zero_window : Bool) (before after : Retransmission) : Type 0 where
  pub running : after.timer.running ≡ true
  pub elapsed : after.timer.elapsed_ms ≡ 0
  pub timeout :
      after.timer.timeout_ms
      ≡ (if zero_window then before.timer.timeout_ms else mul64 before.timer.timeout_ms 2)
  pub count : after.consecutive_retransmissions ≡ (
      if zero_window
      then before.consecutive_retransmissions
      else add64 before.consecutive_retransmissions 1)

-- The timer has run for the timeout, `ms` included.
abbrev pub Expires : TcpSender → ℕ → Type 0
Expires s ms =
    (s.timer.timer.running ≡ true) × (s.timer.timer.timeout_ms ≤ add64 s.timer.timer.elapsed_ms ms)

-- What `tick` has done. If the timeout has passed and a segment is outstanding, the oldest one is
-- transmitted again and the timer restarted, and only then.
pub record Ticked (s : TcpSender) (ms : ℕ) (s' : TcpSender) (msgs : List TcpSenderMessage)
    : Type 0 where
  pub valid : IsValid s'
  pub only_timer : OnlyTimer s s'
  pub outcome :
      ((msgs ≡ [])
        × (¬ Expires s ms ⊎ (s.outstanding ≡ []))
        × (s'.timer ≡ Retransmission.tick s.timer ms))
      ⊎ (Expires s ms
          × (seg : TcpSenderMessage) × (rest : List TcpSenderMessage) × (s.outstanding ≡ seg ∷ rest)
          × (msgs ≡ seg ∷ [])
          × BackedOff s.zero_window s.timer s'.timer)

tick_running :
    (t : Retransmission) (ms : ℕ)
    → Retransmission.is_running (Retransmission.tick t ms) ≡ Retransmission.is_running t
unfolding Retransmission.tick Timer.tick
tick_running t ms = ground arith

expires :
    (s : TcpSender) (ms : ℕ)
    → Retransmission.is_expired (Retransmission.tick s.timer ms) ≡ true
    → Expires s ms
unfolding Retransmission.tick Timer.tick Retransmission.is_expired Timer.is_expired
expires s ms h = ground arith

Expires-not :
    (s : TcpSender) (ms : ℕ)
    → Retransmission.is_expired (Retransmission.tick s.timer ms) ≡ false
    → ¬ Expires s ms
unfolding Retransmission.tick Timer.tick Retransmission.is_expired Timer.is_expired
Expires-not s ms h (r, e) = ground arith

retransmit_timer : (zero_window : Bool) → Retransmission → Retransmission
retransmit_timer zero_window t =
    Retransmission.start (if not zero_window then Retransmission.record_retransmission t else t)

retransmit-BackedOff :
    (zero_window : Bool) (t : Retransmission) (ms : ℕ)
    → BackedOff zero_window t (retransmit_timer zero_window (Retransmission.tick t ms))
unfolding retransmit_timer Retransmission.tick Timer.tick Retransmission.start Timer.start
    Retransmission.record_retransmission
retransmit-BackedOff true t ms = record {
  running = refl;
  elapsed = refl;
  timeout = ground arith;
  count = refl;
}
retransmit-BackedOff false t ms = record {
  running = refl;
  elapsed = refl;
  timeout = ground arith;
  count = refl;
}

timer_set-IsValid :
    (s : TcpSender) (timer : Retransmission)
    → IsValid s
    → Retransmission.is_running timer ≡ not (is_empty s.outstanding)
    → IsValid (record s { timer = timer })
timer_set-IsValid s timer v r = record {
  input_valid = v.input_valid;
  isn_word = v.isn_word;
  next_fits = v.next_fits;
  flight_le = v.flight_le;
  flight_small = v.flight_small;
  chain = v.chain;
  window_fits = v.window_fits;
  zero_noted = v.zero_noted;
  syn_first = v.syn_first;
  timer_runs = r;
}

OnlyTimer-set : (s : TcpSender) (timer : Retransmission) → OnlyTimer s (record s { timer = timer })
OnlyTimer-set s timer = record {
  input = refl;
  isn = refl;
  window_size = refl;
  zero_window = refl;
  next_seqno = refl;
  bytes_in_flight = refl;
  syn_sent = refl;
  fin_sent = refl;
  outstanding = refl;
}

List-cases : {A : Type 0} (l : List A) → (l ≡ []) ⊎ ((x : A) × (xs : List A) × (l ≡ x ∷ xs))
List-cases [] = inl refl
List-cases (x ∷ xs) = inr (x, xs, refl)

module _ (s : TcpSender) (ms : ℕ) (v : IsValid s) where
  quiet : TcpSender
  quiet = record s { timer = Retransmission.tick s.timer ms }

  quiet-IsValid : IsValid quiet
  unfolding quiet
  quiet-IsValid =
      timer_set-IsValid s (Retransmission.tick s.timer ms) v
        (tick_running s.timer ms ∙ v.timer_runs)

  quiet-Ticked : (¬ Expires s ms ⊎ (s.outstanding ≡ [])) → Ticked s ms quiet []
  unfolding quiet
  quiet-Ticked why = record {
    valid = quiet-IsValid;
    only_timer = OnlyTimer-set s (Retransmission.tick s.timer ms);
    outcome = inl (refl, why, refl);
  }

  tick-quiet :
      (not (Retransmission.is_expired quiet.timer) || is_empty s.outstanding) ≡ true
      → tick s ms ≡ (quiet, [])
  unfolding tick quiet
  tick-quiet e = rw e

  module _ (late : Retransmission.is_expired quiet.timer ≡ true) (seg : TcpSenderMessage)
      (rest : List TcpSenderMessage) (e : s.outstanding ≡ seg ∷ rest) where
    again : TcpSender
    again = record s { timer = retransmit_timer s.zero_window quiet.timer }

    tick-again : tick s ms ≡ (again, seg ∷ [])
    unfolding tick quiet again retransmit_timer
    tick-again = rw late (ap (λ l. if is_empty l then (quiet, []) else retransmit quiet l) e)

    again-Ticked : Expires s ms → Ticked s ms again (seg ∷ [])
    unfolding again quiet
    again-Ticked x =
        let timer = retransmit_timer s.zero_window quiet.timer in
        let b = retransmit-BackedOff s.zero_window s.timer ms in
        record {
          valid = timer_set-IsValid s timer v (b.running ∙ sym (ap (λ l. not (is_empty l)) e));
          only_timer = OnlyTimer-set s timer;
          outcome = inr (x, seg, rest, e, refl, b);
        }

-- tick keeps the invariant of a valid sender and changes nothing but the timer; if the time is up
-- and a segment is outstanding it transmits the oldest one and restarts the timer, with the timeout
-- doubled and counted unless the window is closed; if not it transmits nothing.
pub tick-Ticked : (s : TcpSender) (ms : ℕ) → IsValid s → Ticked s ms (tick s ms).0 (tick s ms).1
unfolding quiet
tick-Ticked s ms v =
    elim (Bool-cases (Retransmission.is_expired (Retransmission.tick s.timer ms))) [
      | inr early ↦
          subst (λ r. Ticked s ms r.0 r.1)
            (sym (tick-quiet s ms v (ap (λ b. not b || is_empty s.outstanding) early)))
            (quiet-Ticked s ms v (inl (Expires-not s ms early)))
      | inl late ↦ elim (List-cases s.outstanding) [
        | inl nothing ↦
            subst (λ r. Ticked s ms r.0 r.1)
              (sym (tick-quiet s ms v (ap₂ (λ b l. not b || is_empty l) late nothing)))
              (quiet-Ticked s ms v (inr nothing))
        | inr (seg, rest, e) ↦
            subst (λ r. Ticked s ms r.0 r.1) (sym (tick-again s ms v late seg rest e))
              (again-Ticked s ms v late seg rest e (expires s ms late))
      ]
    ]
