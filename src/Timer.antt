-- ===== src/Timer.antt =====
-- src/timer.hh: the countdown timer and the timeouts of ARP.
pub mod Elapsed
mod Tests
use cs_144_minnow_tcp.Base.{ℕ, Bool, true, false, ◌&&◌, leb, if◌then◌else◌, add64}

pub record Timer : Type 0 where
  pub timeout_ms : ℕ
  pub elapsed_ms : ℕ
  pub running : Bool

abbrev pub new : ℕ → Timer
new timeout_ms = record { timeout_ms = timeout_ms; elapsed_ms = 0; running = false }

unfoldable pub start : Timer → Timer
start t = record t { running = true; elapsed_ms = 0 }

unfoldable pub stop : Timer → Timer
stop t = record t { running = false; elapsed_ms = 0 }

unfoldable pub tick : Timer → ℕ → Timer
tick t ms = if t.running then record t { elapsed_ms = add64 t.elapsed_ms ms } else t

unfoldable pub is_expired : Timer → Bool
is_expired t = t.running && leb t.timeout_ms t.elapsed_ms

abbrev pub set_timeout_ms : Timer → ℕ → Timer
set_timeout_ms t ms = record t { timeout_ms = ms }

-- `NetworkTimer::ARP_REQUEST_TIMEOUT` and `ARP_ENTRY_TIMEOUT`
abbrev pub arp_request_timeout : ℕ
arp_request_timeout = 5000

abbrev pub arp_entry_timeout : ℕ
arp_entry_timeout = 30000
