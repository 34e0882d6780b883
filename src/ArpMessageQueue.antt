-- ===== src/ArpMessageQueue.antt =====
-- src/arp_message_queue.{hh,cc}: datagrams that wait for an answer to an ARP request, by IP address.
-- The callback of a timeout is a list of the next hops that `tick` reports, in its order; the
-- code calls the callback on each of them if one is set.
pub mod Inv
pub mod Refine
pub mod Report
mod Tests
use cs_144_minnow_tcp.Base.{
  ℕ, Bool, true, false, not, Option, none, some, List, [], ◌∷◌, ◌++◌, if◌then◌else◌, ◌==◌, is_empty,
  length, add64,
}
use cs_144_minnow_tcp.Assoc.{find, erase, keep}
use cs_144_minnow_tcp.Timer
use cs_144_minnow_tcp.Timer.{Timer, arp_request_timeout}

-- An `Address`, as far as it is read here: its `ipv4_numeric()`.
pub record Address : Type 0 where
  pub ipv4_numeric : ℕ

-- `ARPMessageQueue::PendingDatagram`, for any type of datagrams.
pub record PendingDatagram (D : Type 0) : Type 0 where
  pub dgram : D
  pub next_hop : Address
  pub timer : Timer

abbrev pub Queues : Type 0 → Type 0
Queues D = List (ℕ × List (PendingDatagram D))

abbrev pub pending_of : {D : Type 0} → D → Address → PendingDatagram D
pending_of dgram next_hop = record {
  dgram = dgram;
  next_hop = next_hop;
  timer = Timer.start (Timer.new arp_request_timeout);
}

-- `pending_[ip].emplace_back()`
unfoldable pub enqueue : {D : Type 0} → Queues D → ℕ → PendingDatagram D → Queues D
enqueue [] ip p = (ip, p ∷ []) ∷ []
enqueue ((k, queue) ∷ m) ip p =
    if k == ip then (k, queue ++ (p ∷ [])) ∷ m else (k, queue) ∷ enqueue m ip p

unfoldable pub add_pending : {D : Type 0} → Queues D → D → Address → Queues D
unfolding enqueue
add_pending m dgram next_hop = enqueue m next_hop.ipv4_numeric (pending_of dgram next_hop)

unfoldable pub pop_pending : {D : Type 0} → Queues D → ℕ → List (PendingDatagram D) × Queues D
unfolding find erase
pop_pending m ip = elim (find ip m) [ none ↦ ([], m) | some queue ↦ (queue, erase ip m) ]

unfoldable pub has_pending : {D : Type 0} → Queues D → ℕ → Bool
unfolding find
has_pending m ip = elim (find ip m) [ none ↦ false | some queue ↦ not (is_empty queue) ]

-- One queue in `tick`: what stays of it, and the next hops reported.
unfoldable pub age :
    {D : Type 0} → ℕ → List (PendingDatagram D) → Option (List (PendingDatagram D)) × List Address
age ms [] = (none, [])
age ms (head ∷ queue) =
    let timer = Timer.tick head.timer ms in
    if Timer.is_expired timer
    then (none, head.next_hop ∷ [])
    else (some (record head { timer = timer } ∷ queue), [])

unfoldable pub tick : {D : Type 0} → Queues D → ℕ → Queues D × List Address
unfolding age keep
tick [] ms = ([], [])
tick ((k, queue) ∷ m) ms =
    let (left, reported) = age ms queue in
    let (rest, others) = tick m ms in (keep k left rest, reported ++ others)

unfoldable pub size_from : {D : Type 0} → ℕ → Queues D → ℕ
size_from total [] = total
size_from total ((k, queue) ∷ m) = size_from (add64 total (length queue)) m

unfoldable pub size : {D : Type 0} → Queues D → ℕ
unfolding size_from
size m = size_from 0 m
