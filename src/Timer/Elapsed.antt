-- ===== src/Timer/Elapsed.antt =====
-- `Timer` of src/timer.hh under sequences of ticks.
use cs_144_minnow_tcp.Base.{
  ℕ, ◌+◌, ◌<◌, ◌≡◌, refl, ap, ◌∙◌, true, false, leb, List, [], ◌∷◌, arith, mod64, add64,
}
use cs_144_minnow_tcp.Timer.{Timer, start, stop, tick, is_expired}

unfoldable pub sum : List ℕ → ℕ
sum [] = 0
sum (x ∷ xs) = x + sum xs

pub tick_all : Timer → List ℕ → Timer
tick_all t [] = t
tick_all t (ms ∷ rest) = tick_all (tick t ms) rest

tick-running :
    (t : Timer) (ms : ℕ)
    → t.running ≡ true
    → tick t ms ≡ record t { elapsed_ms = add64 t.elapsed_ms ms }
unfolding tick
tick-running t ms r = ground arith

tick_all-running :
    (t : Timer) (ticks : List ℕ)
    → t.running ≡ true
    → t.elapsed_ms + sum ticks < mod64
    → tick_all t ticks ≡ record t { elapsed_ms = t.elapsed_ms + sum ticks }
unfolding tick_all sum
tick_all-running t [] r h = ground arith
tick_all-running t (ms ∷ rest) r h =
    (ap (λ u. tick_all u rest) (tick-running t ms r)
      ∙ tick_all-running (record t { elapsed_ms = add64 t.elapsed_ms ms }) rest r (omega arith)
      ∙ ap (λ e. record t { elapsed_ms = e }) (omega arith))

-- A started timer is expired if and only if the time ticked since, short of 2 ^ 64, reaches the
-- timeout.
pub is_expired-tick_all :
    (t : Timer) (ticks : List ℕ)
    → sum ticks < mod64
    → is_expired (tick_all (start t) ticks) ≡ leb t.timeout_ms (sum ticks)
unfolding is_expired start
is_expired-tick_all t ticks h =
    rw (tick_all-running (record t { running = true; elapsed_ms = 0 }) ticks refl (omega arith))
      (ap (leb t.timeout_ms) (omega arith))

-- A stopped timer never expires, however often it is ticked.
pub is_expired-stop : (t : Timer) (ticks : List ℕ) → is_expired (tick_all (stop t) ticks) ≡ false
unfolding is_expired stop tick tick_all
is_expired-stop t [] = refl
is_expired-stop t (ms ∷ rest) = is_expired-stop t rest
