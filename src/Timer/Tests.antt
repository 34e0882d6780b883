-- ===== src/Timer/Tests.antt =====
-- A run of the timer.
use cs_144_minnow_tcp.Base.{◌≡◌, refl, true}
use cs_144_minnow_tcp.Timer.{Timer, start, tick, is_expired}

abbrev second : Timer
second = record { timeout_ms = 1000; elapsed_ms = 70; running = true }

expires : is_expired (tick (tick (start second) 400) 600) ≡ true
unfolding is_expired tick start
expires = refl
