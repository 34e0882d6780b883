-- ===== src/ArpTable/Tests.antt =====
-- Runs of the cache, and its theorem at a concrete history.
use cs_144_minnow_tcp.Base.{◌≡◌, refl, true, none, List, [], ◌∷◌, arith}
use cs_144_minnow_tcp.Assoc.{find, erase, keep}
use cs_144_minnow_tcp.Timer
use cs_144_minnow_tcp.Timer.{Timer}
use cs_144_minnow_tcp.ArpTable.{Entries, lookup, age, tick}
use cs_144_minnow_tcp.ArpTable.Inv.{IsValid}
use cs_144_minnow_tcp.ArpTable.Refine.{
  Event, learns, passes, asks, happen_all, remembered, answer, seen, lookup_refines,
}

abbrev cache : Entries
cache =
    (
      1,
      record {
        mac = 9 ∷ [];
        ttl = record { timeout_ms = 30000; elapsed_ms = 20000; running = true };
      },
    )
    ∷ (
      2,
      record { mac = 8 ∷ []; ttl = record { timeout_ms = 30000; elapsed_ms = 5; running = true } },
    )
    ∷ []

cache-IsValid : IsValid cache
unfolding find
cache-IsValid = (
  refl,
  record { running = refl; timeout = refl; young = omega arith },
  (refl, record { running = refl; timeout = refl; young = omega arith }, tt),
)

tick_forgets : (lookup (tick cache 10000) 1).0 ≡ none
unfolding lookup find tick age keep erase Timer.tick Timer.is_expired
tick_forgets = refl

abbrev history : List Event
history = passes 9000 ∷ asks 1 ∷ learns 1 (7 ∷ []) ∷ passes 20000 ∷ []

lookup_refines_example :
    (lookup (happen_all cache history) 1).0 ≡ answer (remembered 1 history (seen (find 1 cache)))
lookup_refines_example =
    lookup_refines cache 1 history cache-IsValid (omega arith, (tt, (tt, (omega arith, tt))))
