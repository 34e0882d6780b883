-- ===== src/ArpMessageQueue/Tests.antt =====
-- Runs of the queues, and their theorems at concrete datagrams.
use cs_144_minnow_tcp.Base.{ℕ, ◌≡◌, refl, true, List, [], ◌∷◌, arith}
use cs_144_minnow_tcp.Assoc.{find}
use cs_144_minnow_tcp.ArpMessageQueue.{
  Address, Queues, pop_pending, has_pending, enqueue, add_pending, tick, size, size_from,
}
use cs_144_minnow_tcp.ArpMessageQueue.Inv.{IsValid}
use cs_144_minnow_tcp.ArpMessageQueue.Refine.{
  Event, adds, passes, answers, happen_all, remembered, datagrams, waiting, seen,
  pop_pending_refines,
}
use cs_144_minnow_tcp.ArpMessageQueue.Report.{reported, expired, tick-reports}

abbrev hop : ℕ → Address
hop ip = record { ipv4_numeric = ip }

-- Datagrams 10 and 11 have waited for address 1, the first for 4000 ms.
abbrev queues : Queues ℕ
queues =
    (
      1,
      record {
        dgram = 10;
        next_hop = hop 1;
        timer = record { timeout_ms = 5000; elapsed_ms = 4000; running = true };
      }
          ∷ record {
            dgram = 11;
            next_hop = hop 1;
            timer = record { timeout_ms = 5000; elapsed_ms = 0; running = true };
          }
          ∷ [],
    )
    ∷ []

queues-IsValid : IsValid queues
unfolding find
queues-IsValid = (refl, (refl, refl, omega arith, refl), tt)

size-queues : size queues ≡ 2
unfolding size size_from
size-queues = refl

has-add_pending : has_pending (add_pending queues 12 (hop 2)) 2 ≡ true
unfolding has_pending add_pending enqueue find
has-add_pending = refl

abbrev history : List (Event ℕ)
history = adds 12 (hop 1) ∷ passes 900 ∷ adds 13 (hop 2) ∷ answers 2 ∷ []

pop_pending_refines_example :
    datagrams (pop_pending (happen_all queues history) 1).0
    ≡ waiting (remembered 1 history (seen (find 1 queues)))
pop_pending_refines_example =
    pop_pending_refines queues 1 history queues-IsValid (tt, (omega arith, (tt, (tt, tt))))

tick-reports_example : reported 1 (tick queues 1000).1 ≡ expired 1000 (seen (find 1 queues))
tick-reports_example = tick-reports queues 1 1000 queues-IsValid (omega arith)
