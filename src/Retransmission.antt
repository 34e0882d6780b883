-- ===== src/Retransmission.antt =====
-- src/timer.hh: `RetransmissionTimer`, a timer with exponential backoff.
pub mod Backoff
mod Tests
use cs_144_minnow_tcp.Base.{ℕ, Bool, add64, mul64}
use cs_144_minnow_tcp.Timer
use cs_144_minnow_tcp.Timer.{Timer}

pub record Retransmission : Type 0 where
  pub initial_rto_ms : ℕ
  pub timer : Timer
  pub consecutive_retransmissions : ℕ

unfoldable pub new : ℕ → Retransmission
new initial_rto_ms = record {
  initial_rto_ms = initial_rto_ms;
  timer = Timer.new initial_rto_ms;
  consecutive_retransmissions = 0;
}

unfoldable pub start : Retransmission → Retransmission
start r = record r { timer = Timer.start r.timer }

unfoldable pub stop : Retransmission → Retransmission
stop r = record r { timer = Timer.stop r.timer }

unfoldable pub tick : Retransmission → ℕ → Retransmission
tick r ms = record r { timer = Timer.tick r.timer ms }

abbrev pub is_running : Retransmission → Bool
is_running r = r.timer.running

unfoldable pub is_expired : Retransmission → Bool
is_expired r = Timer.is_expired r.timer

unfoldable pub reset_backoff : Retransmission → Retransmission
reset_backoff r = record r {
  timer = Timer.set_timeout_ms r.timer r.initial_rto_ms;
  consecutive_retransmissions = 0;
}

unfoldable pub record_retransmission : Retransmission → Retransmission
record_retransmission r = record r {
  consecutive_retransmissions = add64 r.consecutive_retransmissions 1;
  timer = Timer.set_timeout_ms r.timer (mul64 r.timer.timeout_ms 2);
}
