-- ===== src/Retransmission/Backoff.antt =====
-- The exponential backoff of `RetransmissionTimer` in src/timer.hh.
use cs_144_minnow_tcp.Base.{ℕ, zero, suc, ◌*◌, ◌^◌, ◌<◌, ◌≡◌, refl, ap, ◌∙◌, arith, mod64}
use native.Mathlib.Nat.{pow-suc}
use cs_144_minnow_tcp.Retransmission.{Retransmission, start, reset_backoff, record_retransmission}
use cs_144_minnow_tcp.Timer

-- `n` timeouts in a row, each of which restarts the clock.
pub back_off : ℕ → Retransmission → Retransmission
back_off zero r = r
back_off (suc n) r = start (record_retransmission (back_off n r))

-- After `n` retransmissions since the last reset the timeout is the initial one times 2 ^ n, as
-- long as that and the count fit in 64 bits, and the count is `n`.
pub back_off-timeout :
    (n : ℕ) (r : Retransmission)
    → n < mod64
    → r.initial_rto_ms * 2 ^ n < mod64
    → let r' = back_off n (reset_backoff r) in
      (r'.timer.timeout_ms ≡ r.initial_rto_ms * 2 ^ n)
      × (r'.consecutive_retransmissions ≡ n)
      × (r'.initial_rto_ms ≡ r.initial_rto_ms)
unfolding back_off reset_backoff record_retransmission start Timer.start
back_off-timeout zero r h k = (omega arith, refl, refl)
back_off-timeout (suc n) r h k =
    let double : r.initial_rto_ms * 2 ^ suc n ≡ 2 * (r.initial_rto_ms * 2 ^ n) =
      ap (λ p. r.initial_rto_ms * p) (pow-suc 2 n) ∙ grind arith in
    let ih = back_off-timeout n r (omega arith) (omega (arith, double)) in
    (omega (arith, ih, double), omega (arith, ih), ih.2)
