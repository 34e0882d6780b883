-- ===== src/ArpTable/Inv.antt =====
-- The invariant of the cache: one entry for an address, and none that has expired.
use cs_144_minnow_tcp.Base.{
  ltb→lt, subst, ltb, add64, ℕ, ◌+◌, ◌<◌, ◌≡◌, inl, inr, refl, ap, sym, ◌∙◌, true, false, Option,
  none, some, [], ◌∷◌, if◌then◌else◌, ◌==◌, ==_iff, arith, mod64, Bool-cases,
}
use cs_144_minnow_tcp.Assoc.{
  find, erase, keep, Distinct, find-keep-here, find-keep-other, find-erase-none,
}
use cs_144_minnow_tcp.Timer
use cs_144_minnow_tcp.Timer.{Timer, arp_entry_timeout}
use cs_144_minnow_tcp.ArpTable.{
  EthernetAddress, Entry, Entries, learn, fresh_entry, add_entry, lookup, age, tick,
}

-- An entry of the cache runs and has not expired.
pub record IsLive (e : Entry) : Type 0 where
  pub running : e.ttl.running ≡ true
  pub timeout : e.ttl.timeout_ms ≡ arp_entry_timeout
  pub young : e.ttl.elapsed_ms < arp_entry_timeout

abbrev pub IsValid : Entries → Type 0
IsValid [] = Unit {0}
IsValid ((k, e) ∷ m) = (find k m ≡ none) × IsLive e × IsValid m

abbrev pub AllLive : Option Entry → Type 0
AllLive none = Unit {0}
AllLive (some e) = IsLive e

-- What `tick` leaves of a live entry.
abbrev pub aged : ℕ → Option Entry → Option Entry
aged ms none = none
aged ms (some e) = age ms e

pub find-add_entry-other :
    (m : Entries) (ip k : ℕ) (mac : EthernetAddress)
    → (k == ip) ≡ false
    → find k (add_entry m ip mac) ≡ find k m
unfolding find add_entry
find-add_entry-other [] ip k mac h = ground arith
find-add_entry-other ((j, e) ∷ m) ip k mac h = elim (Bool-cases (j == ip)) [
  | inl t ↦ let f : (j == k) ≡ false = ground arith in rw (t, f) refl
  | inr t ↦ rw t (elim (Bool-cases (j == k)) [
    | inl f ↦ rw f refl
    | inr f ↦ rw f (find-add_entry-other m ip k mac h)
  ])
]

-- The entry of an address after it was learnt: that address, and a timer at zero.
pub find-add_entry :
    (m : Entries) (ip : ℕ) (mac : EthernetAddress)
    → IsValid m
    → (e : Entry) × (find ip (add_entry m ip mac) ≡ some e)
      × (e.mac ≡ mac)
      × (e.ttl ≡ record { timeout_ms = arp_entry_timeout; elapsed_ms = 0; running = true })
unfolding find add_entry learn Timer.start
find-add_entry [] ip mac v =
    let t : (ip == ip) ≡ true = ground arith in (learn mac fresh_entry, rw t refl, refl, refl)
find-add_entry ((j, e) ∷ m) ip mac v = elim (Bool-cases (j == ip)) [
  | inl t ↦ (
    learn mac e,
    rw t (rw t refl),
    refl,
    ap (λ n. record { timeout_ms = n; elapsed_ms = 0; running = true }) v.1.timeout,
  )
  | inr t ↦
      let (e', found, same, started) = find-add_entry m ip mac v.2 in
      (e', rw t (rw t found), same, started)
]

pub find-tick : (m : Entries) (ip ms : ℕ) → IsValid m → find ip (tick m ms) ≡ aged ms (find ip m)
unfolding find tick
find-tick [] ip ms v = refl
find-tick ((k, e) ∷ m) ip ms v = elim (Bool-cases (k == ip)) [
  | inl t ↦
      let gone : find k (tick m ms) ≡ none = find-tick m k ms v.2 ∙ ap (aged ms) v.0 in
      rw t (
        ap (λ i. find i (keep k (age ms e) (tick m ms))) (sym ((==_iff k ip).0 t))
        ∙ find-keep-here k (age ms e) (tick m ms) gone)
  | inr t ↦ rw t (find-keep-other k ip (age ms e) (tick m ms) t ∙ find-tick m ip ms v.2)
]

pub add_entry-IsValid :
    (m : Entries) (ip : ℕ) (mac : EthernetAddress) → IsValid m → IsValid (add_entry m ip mac)
unfolding add_entry find learn Timer.start
add_entry-IsValid [] ip mac v =
    (refl, record { running = refl; timeout = refl; young = omega arith }, tt)
add_entry-IsValid ((j, e) ∷ m) ip mac v = elim (Bool-cases (j == ip)) [
  | inl t ↦ rw t (v.0, (record { running = refl; timeout = v.1.timeout; young = omega arith }), v.2)
  | inr t ↦ rw t (find-add_entry-other m ip j mac t ∙ v.0, v.1, add_entry-IsValid m ip mac v.2)
]

-- What ticks leave of a live entry, in numbers.
pub age-IsLive :
    (ms : ℕ) (e : Entry)
    → IsLive e
    → ms + arp_entry_timeout < mod64
    → age ms e ≡ (
        if ltb (e.ttl.elapsed_ms + ms) arp_entry_timeout
        then some (record e { ttl = record e.ttl { elapsed_ms = e.ttl.elapsed_ms + ms } })
        else none)
unfolding age Timer.tick Timer.is_expired
age-IsLive ms e v h =
    let sum : add64 e.ttl.elapsed_ms ms ≡ e.ttl.elapsed_ms + ms = omega (arith, v.young) in
    rw (v.running, v.timeout) (rw sum (ground arith))

keep-IsValid :
    (k : ℕ) (o : Option Entry) (m : Entries)
    → find k m ≡ none
    → AllLive o
    → IsValid m
    → IsValid (keep k o m)
unfolding keep
keep-IsValid k none m h live v = v
keep-IsValid k (some e) m h live v = (h, live, v)

not_expired : (e : Entry) → IsLive e → Timer.is_expired e.ttl ≡ false
unfolding Timer.is_expired
not_expired e v = ground (arith, v.running, v.timeout, v.young)

pub find-IsLive : (m : Entries) (ip : ℕ) → IsValid m → AllLive (find ip m)
unfolding find
find-IsLive [] ip v = tt
find-IsLive ((k, e) ∷ m) ip v = elim (Bool-cases (k == ip)) [
  | inl t ↦ rw t v.1
  | inr t ↦ rw t (find-IsLive m ip v.2)
]

age-AllLive : (ms : ℕ) (e : Entry) → IsLive e → ms + arp_entry_timeout < mod64 → AllLive (age ms e)
age-AllLive ms e v h = elim (Bool-cases (ltb (e.ttl.elapsed_ms + ms) arp_entry_timeout)) [
  | inl young ↦
      subst AllLive (sym (age-IsLive ms e v h ∙ ap (λ b. if b then some grown else none) young))
        (record { running = v.running; timeout = v.timeout; young = ltb→lt _ _ young })
  | inr old ↦
      subst AllLive (sym (age-IsLive ms e v h ∙ ap (λ b. if b then some grown else none) old)) tt
]
  where
    grown : Entry
    grown = record e { ttl = record e.ttl { elapsed_ms = e.ttl.elapsed_ms + ms } }

pub tick-IsValid :
    (m : Entries) (ms : ℕ) → IsValid m → ms + arp_entry_timeout < mod64 → IsValid (tick m ms)
unfolding tick
tick-IsValid [] ms v h = tt
tick-IsValid ((k, e) ∷ m) ms v h =
    keep-IsValid k (age ms e) (tick m ms) (find-tick m k ms v.2 ∙ ap (aged ms) v.0)
      (age-AllLive ms e v.1 h) (tick-IsValid m ms v.2 h)

abbrev pub mac_of : Option Entry → Option EthernetAddress
mac_of none = none
mac_of (some e) = some e.mac

-- A lookup of a valid cache finds nothing to evict.
pub lookup-IsValid : (m : Entries) (ip : ℕ) → IsValid m → lookup m ip ≡ (mac_of (find ip m), m)
unfolding lookup
lookup-IsValid m ip v = go (find ip m) (find-IsLive m ip v)
  where
    go :
        (o : Option Entry)
        → AllLive o
        → ◌≡◌ {A = Option EthernetAddress × Entries}
            (elim o [
              | none ↦ (none, m)
              | some e ↦ if Timer.is_expired e.ttl then (none, erase ip m) else (some e.mac, m)
            ])
            (mac_of o, m)
    go none live = refl
    go (some e) live = rw (not_expired e live) refl

pub IsValid-Distinct : (m : Entries) → IsValid m → Distinct m
IsValid-Distinct [] v = tt
IsValid-Distinct ((k, e) ∷ m) v = (v.0, IsValid-Distinct m v.2)

pub erase-IsValid : (m : Entries) (k : ℕ) → IsValid m → IsValid (erase k m)
unfolding erase
erase-IsValid [] k v = tt
erase-IsValid ((j, e) ∷ m) k v = elim (Bool-cases (j == k)) [
  | inl t ↦ rw t v.2
  | inr t ↦ rw t (find-erase-none m j k v.0 (IsValid-Distinct m v.2), v.1, erase-IsValid m k v.2)
]
