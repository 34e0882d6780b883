-- ===== src/ArpTable.antt =====
-- src/arp_table.{hh,cc}: the cache from IP to Ethernet addresses. The std::unordered_map is the list
-- of its entries in the order of its iteration; a new entry goes to the end.
pub mod Inv
pub mod Refine
mod Tests
use cs_144_minnow_tcp.Base.{
  ℕ, Bool, true, false, Option, none, some, List, [], ◌∷◌, if◌then◌else◌, ◌==◌,
}
use cs_144_minnow_tcp.Assoc.{find, erase, keep}
use cs_144_minnow_tcp.Timer
use cs_144_minnow_tcp.Timer.{Timer, arp_entry_timeout}

-- The six bytes of `EthernetAddress`.
abbrev pub EthernetAddress : Type 0
EthernetAddress = List ℕ

-- `ARPTable::Entry`
pub record Entry : Type 0 where
  pub mac : EthernetAddress
  pub ttl : Timer

abbrev pub Entries : Type 0
Entries = List (ℕ × Entry)

-- `entry.mac = mac; entry.ttl.start();`
unfoldable pub learn : EthernetAddress → Entry → Entry
learn mac e = record { mac = mac; ttl = Timer.start e.ttl }

abbrev pub fresh_entry : Entry
fresh_entry = record { mac = 0 ∷ 0 ∷ 0 ∷ 0 ∷ 0 ∷ 0 ∷ []; ttl = Timer.new arp_entry_timeout }

unfoldable pub add_entry : Entries → ℕ → EthernetAddress → Entries
unfolding learn
add_entry [] ip mac = (ip, learn mac fresh_entry) ∷ []
add_entry ((k, e) ∷ m) ip mac =
    if k == ip then (k, learn mac e) ∷ m else (k, e) ∷ add_entry m ip mac

abbrev pub remove_entry : Entries → ℕ → Entries
remove_entry m ip = erase ip m

unfoldable pub lookup : Entries → ℕ → Option EthernetAddress × Entries
unfolding find erase
lookup m ip = elim (find ip m) [
  | none ↦ (none, m)
  | some e ↦ if Timer.is_expired e.ttl then (none, erase ip m) else (some e.mac, m)
]

-- One entry in `tick`.
unfoldable pub age : ℕ → Entry → Option Entry
age ms e =
    let ttl = Timer.tick e.ttl ms in
    if Timer.is_expired ttl then none else some (record e { ttl = ttl })

unfoldable pub tick : Entries → ℕ → Entries
unfolding age keep
tick [] ms = []
tick ((k, e) ∷ m) ms = keep k (age ms e) (tick m ms)
