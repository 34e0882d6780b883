-- ===== src/ArpMessageQueue/Inv.antt =====
-- The invariant of the queues: one for an address, none empty, each with a request under way.
use cs_144_minnow_tcp.Base.{
  ℕ, ◌+◌, ◌<◌, ◌≡◌, inl, inr, refl, ap, sym, subst, ◌∙◌, Bool, true, false, Option, none, some,
  List, [], ◌∷◌, ◌++◌, if◌then◌else◌, ◌==◌, ==_iff, ltb, ltb→lt, arith, add64, mod64, Bool-cases,
}
use mathlib.Core.Bool.{true≢false}
use mathlib.Core.Option.{some-injective, none-ne-some}
use cs_144_minnow_tcp.Assoc.{
  find, erase, keep, Distinct, find-keep-here, find-keep-other, find-erase-none,
}
use cs_144_minnow_tcp.Timer
use cs_144_minnow_tcp.Timer.{Timer, arp_request_timeout}
use cs_144_minnow_tcp.ArpMessageQueue.{PendingDatagram, Queues, enqueue, age, tick}

-- The head of a queue is for the queue's address, and its timer runs and has not expired.
abbrev pub IsWaiting : {D : Type 0} → ℕ → List (PendingDatagram D) → Type 0
IsWaiting k [] = ◌≡◌ {A = Bool} true false
IsWaiting k (head ∷ queue) =
    (head.timer.running ≡ true)
    × (head.timer.timeout_ms ≡ arp_request_timeout)
    × (head.timer.elapsed_ms < arp_request_timeout)
    × (head.next_hop.ipv4_numeric ≡ k)

abbrev pub IsValid : {D : Type 0} → Queues D → Type 0
IsValid [] = Unit {0}
IsValid ((k, queue) ∷ m) = (find k m ≡ none) × IsWaiting k queue × IsValid m

pub IsValid-Distinct : {D : Type 0} (m : Queues D) → IsValid m → Distinct m
IsValid-Distinct [] v = tt
IsValid-Distinct ((k, queue) ∷ m) v = (v.0, IsValid-Distinct m v.2)

abbrev pub queue_of : {D : Type 0} → Option (List (PendingDatagram D)) → List (PendingDatagram D)
queue_of none = []
queue_of (some queue) = queue

module _ {D : Type 0} (p : PendingDatagram D) where
  pub find-enqueue-other :
      (m : Queues D) (ip k : ℕ) → (ip == k) ≡ false → find ip (enqueue m k p) ≡ find ip m
  unfolding find enqueue
  find-enqueue-other [] ip k h = ground arith
  find-enqueue-other ((j, q) ∷ m) ip k h = elim (Bool-cases (j == k)) [
    | inl t ↦ let f : (j == ip) ≡ false = ground arith in rw (t, f) refl
    | inr t ↦ rw t (elim (Bool-cases (j == ip)) [
      | inl f ↦ rw f refl
      | inr f ↦ rw f (find-enqueue-other m ip k h)
    ])
  ]

  pub find-enqueue-here :
      (m : Queues D) (ip : ℕ) → find ip (enqueue m ip p) ≡ some (queue_of (find ip m) ++ (p ∷ []))
  unfolding find enqueue
  find-enqueue-here [] ip = let t : (ip == ip) ≡ true = ground arith in rw t refl
  find-enqueue-here ((j, q) ∷ m) ip = elim (Bool-cases (j == ip)) [
    | inl t ↦ rw t (rw t refl)
    | inr t ↦ rw t (rw t (find-enqueue-here m ip))
  ]

  IsWaiting-snoc :
      (k : ℕ) (queue : List (PendingDatagram D))
      → IsWaiting k queue
      → IsWaiting k (queue ++ (p ∷ []))
  IsWaiting-snoc k [] w = absurd (true≢false w)
  IsWaiting-snoc k (head ∷ queue) w = w

  pub enqueue-IsValid :
      (m : Queues D) (k : ℕ) → IsValid m → IsWaiting k (p ∷ []) → IsValid (enqueue m k p)
  unfolding find enqueue
  enqueue-IsValid [] k v w = (refl, w, tt)
  enqueue-IsValid ((j, q) ∷ m) k v w = elim (Bool-cases (j == k)) [
    | inl t ↦ rw t (v.0, IsWaiting-snoc j q v.1, v.2)
    | inr t ↦ rw t (find-enqueue-other m j k t ∙ v.0, v.1, enqueue-IsValid m k v.2 w)
  ]

module _ {D : Type 0} where
  pub erase-IsValid : (m : Queues D) (k : ℕ) → IsValid m → IsValid (erase k m)
  unfolding erase
  erase-IsValid [] k v = tt
  erase-IsValid ((j, q) ∷ m) k v = elim (Bool-cases (j == k)) [
    | inl t ↦ rw t v.2
    | inr t ↦ rw t (find-erase-none m j k v.0 (IsValid-Distinct m v.2), v.1, erase-IsValid m k v.2)
  ]

  -- What `tick` leaves of the queue of an address.
  abbrev pub aged : ℕ → Option (List (PendingDatagram D)) → Option (List (PendingDatagram D))
  aged ms none = none
  aged ms (some queue) = (age ms queue).0

  pub find-tick :
      (m : Queues D) (ip ms : ℕ) → IsValid m → find ip (tick m ms).0 ≡ aged ms (find ip m)
  unfolding find tick
  find-tick [] ip ms v = refl
  find-tick ((k, q) ∷ m) ip ms v = elim (Bool-cases (k == ip)) [
    | inl t ↦
        let gone : find k (tick m ms).0 ≡ none = find-tick m k ms v.2 ∙ ap (aged ms) v.0 in
        rw t (
          ap (λ i. find i (keep k (age ms q).0 (tick m ms).0)) (sym ((==_iff k ip).0 t))
          ∙ find-keep-here k (age ms q).0 (tick m ms).0 gone)
    | inr t ↦ rw t (find-keep-other k ip (age ms q).0 (tick m ms).0 t ∙ find-tick m ip ms v.2)
  ]

  -- What is left of a queue, and what is reported, in numbers.
  pub age-IsWaiting :
      (ms k : ℕ) (head : PendingDatagram D) (queue : List (PendingDatagram D))
      → IsWaiting k (head ∷ queue)
      → ms + arp_request_timeout < mod64
      → age ms (head ∷ queue) ≡ (
          if ltb (head.timer.elapsed_ms + ms) arp_request_timeout
          then (
            some (
                record head {
                  timer = record head.timer { elapsed_ms = head.timer.elapsed_ms + ms };
                }
                ∷ queue),
            [],
          )
          else (none, head.next_hop ∷ []))
  unfolding age Timer.tick Timer.is_expired
  age-IsWaiting ms k head queue w h =
      let sum : add64 head.timer.elapsed_ms ms ≡ head.timer.elapsed_ms + ms = omega (arith, w.2) in
      rw (w.0, w.1) (rw sum (ground arith))

module _ {D : Type 0} where
  pub keep-IsValid :
      (ms k : ℕ) (queue : List (PendingDatagram D)) (m : Queues D)
      → find k m ≡ none
      → IsWaiting k queue
      → ms + arp_request_timeout < mod64
      → IsValid m
      → IsValid (keep k (age ms queue).0 m)
  unfolding keep
  keep-IsValid ms k [] m h w short v = absurd (true≢false w)
  keep-IsValid ms k (head ∷ queue) m h w short v =
      elim (Bool-cases (ltb (head.timer.elapsed_ms + ms) arp_request_timeout)) [
        | inl young ↦
            subst (λ r. IsValid (keep k r.0 m)) (sym (age-IsWaiting ms k head queue w short))
              (rw young (h, (w.0, w.1, ltb→lt _ _ young, w.3), v))
        | inr old ↦
            subst (λ r. IsValid (keep k r.0 m)) (sym (age-IsWaiting ms k head queue w short))
              (rw old v)
      ]

  pub tick-IsValid :
      (m : Queues D) (ms : ℕ) → IsValid m → ms + arp_request_timeout < mod64 → IsValid (tick m ms).0
  unfolding tick
  tick-IsValid [] ms v h = tt
  tick-IsValid ((k, q) ∷ m) ms v h =
      keep-IsValid ms k q (tick m ms).0 (find-tick m k ms v.2 ∙ ap (aged ms) v.0) v.1 h
        (tick-IsValid m ms v.2 h)

  pub find-IsWaiting :
      (m : Queues D) (ip : ℕ) (queue : List (PendingDatagram D))
      → IsValid m
      → find ip m ≡ some queue
      → IsWaiting ip queue
  unfolding find
  find-IsWaiting [] ip queue v e = absurd (none-ne-some _ e)
  find-IsWaiting ((k, q) ∷ m) ip queue v e = elim (Bool-cases (k == ip)) [
    | inl t ↦
        let same : q ≡ queue =
          some-injective q queue (sym (ap (λ b. if b then some q else find ip m) t) ∙ e) in
        subst (λ i. IsWaiting i queue) ((==_iff k ip).0 t) (subst (IsWaiting k) same v.1)
    | inr t ↦ find-IsWaiting m ip queue v.2 (sym (ap (λ b. if b then some q else find ip m) t) ∙ e)
  ]
