-- ===== src/ArpTable/Refine.antt =====
-- A reference for src/arp_table.cc: what is remembered of one address.
use cs_144_minnow_tcp.Base.{
  inl, inr, ℕ, ◌+◌, ◌<◌, ◌≡◌, refl, ap, ap₂, sym, subst, ◌∙◌, Option, none, some, List, [], ◌∷◌,
  if◌then◌else◌, ltb, ◌==◌, ==_iff, mod64, Bool-cases,
}
use cs_144_minnow_tcp.Assoc.{find, erase, find-erase-here, find-erase-other}
use cs_144_minnow_tcp.Timer.{Timer, arp_entry_timeout}
use cs_144_minnow_tcp.ArpTable.{
  EthernetAddress, Entry, Entries, add_entry, remove_entry, lookup, tick,
}
use cs_144_minnow_tcp.ArpTable.Inv.{
  IsValid-Distinct, erase-IsValid, IsValid, AllLive, aged, mac_of, find-add_entry,
  find-add_entry-other, find-tick, add_entry-IsValid, tick-IsValid, lookup-IsValid, age-IsLive,
  find-IsLive,
}

pub data Event : Type 0 where
  learns : ℕ → EthernetAddress → Event
  passes asks removes : ℕ → Event

-- What is remembered of an address: what it maps to, and for how long it has been known.
abbrev pub Memory : Type 0
Memory = Option (EthernetAddress × ℕ)

-- A mapping that is learnt is new; time makes it older, and after 30 seconds it is forgotten.
abbrev pub older : ℕ → Memory → Memory
older ms none = none
older ms (some (mac, n)) = if ltb (n + ms) arp_entry_timeout then some (mac, n + ms) else none

abbrev pub remember : ℕ → Event → Memory → Memory
remember ip (learns k mac) o = if ip == k then some (mac, 0) else o
remember ip (passes ms) o = older ms o
remember ip (asks k) o = o
remember ip (removes k) o = if ip == k then none else o

pub remembered : ℕ → List Event → Memory → Memory
remembered ip [] o = o
remembered ip (x ∷ events) o = remembered ip events (remember ip x o)

-- The events on the table.
pub happen : Entries → Event → Entries
happen m (learns k mac) = add_entry m k mac
happen m (passes ms) = tick m ms
happen m (asks k) = (lookup m k).1
happen m (removes k) = remove_entry m k

pub happen_all : Entries → List Event → Entries
happen_all m [] = m
happen_all m (x ∷ events) = happen_all (happen m x) events

abbrev pub seen : Option Entry → Memory
seen none = none
seen (some e) = some (e.mac, e.ttl.elapsed_ms)

-- Ticks are short of 2 ^ 64 by more than a timeout.
abbrev pub IsShort : Event → Type 0
IsShort (passes ms) = ms + arp_entry_timeout < mod64
IsShort _ = Unit {0}

abbrev pub AllShort : List Event → Type 0
AllShort [] = Unit {0}
AllShort (x ∷ events) = IsShort x × AllShort events

seen-aged :
    (ms : ℕ) (o : Option Entry)
    → AllLive o
    → ms + arp_entry_timeout < mod64
    → seen (aged ms o) ≡ older ms (seen o)
seen-aged ms none live h = refl
seen-aged ms (some e) live h = elim (Bool-cases (ltb (e.ttl.elapsed_ms + ms) arp_entry_timeout)) [
  | inl young ↦ ap seen (age-IsLive ms e live h) ∙ rw young refl
  | inr old ↦ ap seen (age-IsLive ms e live h) ∙ rw old refl
]

seen-learnt :
    (m : Entries) (ip k : ℕ) (mac : EthernetAddress)
    → IsValid m
    → seen (find ip (add_entry m k mac)) ≡ remember ip (learns k mac) (seen (find ip m))
seen-learnt m ip k mac v = elim (Bool-cases (ip == k)) [
  | inl t ↦
      let (e, found, same, started) = find-add_entry m k mac v in
      ap (λ i. seen (find i (add_entry m k mac))) ((==_iff ip k).0 t)
      ∙ ap seen found
      ∙ ap₂ (λ a (u : Timer). some (a, u.elapsed_ms)) same started
      ∙ rw t refl
  | inr t ↦ ap seen (find-add_entry-other m k ip mac t) ∙ rw t refl
]

happen-remember :
    (m : Entries) (ip : ℕ) (x : Event)
    → IsValid m
    → IsShort x
    → (seen (find ip (happen m x)) ≡ remember ip x (seen (find ip m))) × IsValid (happen m x)
unfolding happen
happen-remember m ip (learns k mac) v h = (seen-learnt m ip k mac v, add_entry-IsValid m k mac v)
happen-remember m ip (passes ms) v h = (
  ap seen (find-tick m ip ms v) ∙ seen-aged ms (find ip m) (find-IsLive m ip v) h,
  tick-IsValid m ms v h,
)
happen-remember m ip (asks k) v h =
    let same : (lookup m k).1 ≡ m = ap (λ r. r.1) (lookup-IsValid m k v) in
    (ap (λ t. seen (find ip t)) same, subst IsValid (sym same) v)
happen-remember m ip (removes k) v h = (
  elim (Bool-cases (ip == k)) [
    | inl t ↦
        ap (λ i. seen (find i (erase k m))) ((==_iff ip k).0 t)
        ∙ ap seen (find-erase-here m k (IsValid-Distinct m v))
        ∙ rw t refl
    | inr t ↦ ap seen (find-erase-other m ip k t) ∙ rw t refl
  ],
  erase-IsValid m k v,
)

happen_all-remembered :
    (m : Entries) (ip : ℕ) (events : List Event)
    → IsValid m
    → AllShort events
    → (seen (find ip (happen_all m events)) ≡ remembered ip events (seen (find ip m)))
      × IsValid (happen_all m events)
unfolding happen_all remembered
happen_all-remembered m ip [] v h = (refl, v)
happen_all-remembered m ip (x ∷ events) v h =
    let (e, v') = happen-remember m ip x v h.0 in
    let (rest, v'') = happen_all-remembered (happen m x) ip events v' h.1 in
    (rest ∙ ap (remembered ip events) e, v'')

abbrev pub answer : Memory → Option EthernetAddress
answer none = none
answer (some (mac, n)) = some mac

answer-seen : (o : Option Entry) → mac_of o ≡ answer (seen o)
answer-seen none = refl
answer-seen (some e) = refl

-- After any sequence of add_entry, remove_entry, lookup and tick calls (each tick short of 2 ^ 64
-- by more than a timeout) on a valid cache, a lookup of an address answers the mapping last learnt
-- of it, or known before, unless it was removed or 30000 ms have passed since it was learnt.
pub lookup_refines :
    (m : Entries) (ip : ℕ) (events : List Event)
    → IsValid m
    → AllShort events
    → (lookup (happen_all m events) ip).0 ≡ answer (remembered ip events (seen (find ip m)))
lookup_refines m ip events v h =
    let (e, v') = happen_all-remembered m ip events v h in
    ap (λ r. r.0) (lookup-IsValid (happen_all m events) ip v')
    ∙ answer-seen (find ip (happen_all m events))
    ∙ ap answer e
