-- ===== src/Retransmission/Tests.antt =====
-- The backoff at a concrete timer.
use cs_144_minnow_tcp.Base.{◌≡◌, true, arith}
use cs_144_minnow_tcp.Retransmission.{Retransmission, reset_backoff}
use cs_144_minnow_tcp.Retransmission.Backoff.{back_off, back_off-timeout}

abbrev backed_off : Retransmission
backed_off = record {
  initial_rto_ms = 1000;
  timer = record { timeout_ms = 8000; elapsed_ms = 5; running = true };
  consecutive_retransmissions = 3;
}

back_off-timeout_example :
    ((back_off 2 (reset_backoff backed_off)).timer.timeout_ms ≡ 4000)
    × ((back_off 2 (reset_backoff backed_off)).consecutive_retransmissions ≡ 2)
    × ((back_off 2 (reset_backoff backed_off)).initial_rto_ms ≡ 1000)
back_off-timeout_example = back_off-timeout 2 backed_off (omega arith) (omega arith)
