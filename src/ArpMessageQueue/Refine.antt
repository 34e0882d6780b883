-- ===== src/ArpMessageQueue/Refine.antt =====
-- A reference for src/arp_message_queue.cc: what waits for one address.
use cs_144_minnow_tcp.Base.{
  ℕ, ◌+◌, ◌<◌, ◌≡◌, inl, inr, refl, ap, sym, subst, ◌∙◌, false, Option, none, some, Option-cases,
  List, [], ◌∷◌, ◌++◌, if◌then◌else◌, ltb, ◌==◌, ==_iff, arith, mod64, Bool-cases,
}
use mathlib.Core.Bool.{true≢false}
use cs_144_minnow_tcp.Assoc.{find, erase, find-erase-here, find-erase-other}
use cs_144_minnow_tcp.Timer
use cs_144_minnow_tcp.Timer.{Timer, arp_request_timeout}
use cs_144_minnow_tcp.ArpMessageQueue.{
  Address, PendingDatagram, Queues, pending_of, add_pending, pop_pending, age, tick,
}
use cs_144_minnow_tcp.ArpMessageQueue.Inv.{
  IsValid, IsValid-Distinct, IsWaiting, queue_of, aged, find-enqueue-here, find-enqueue-other,
  enqueue-IsValid, erase-IsValid, find-tick, tick-IsValid, age-IsWaiting, find-IsWaiting,
}

pub data Event (D : Type 0) : Type 0 where
  adds : D → Address → Event D
  passes answers : ℕ → Event D

-- What waits for an address: the datagrams in order, and the age of the request.
abbrev pub Memory : Type 0 → Type 0
Memory D = Option (List D × ℕ)

module _ {D : Type 0} where
  abbrev pub joined : D → Memory D → Memory D
  joined d none = some (d ∷ [], 0)
  joined d (some (ds, n)) = some (ds ++ (d ∷ []), n)

  -- After five seconds without an answer all of them are dropped.
  abbrev pub older : ℕ → Memory D → Memory D
  older ms none = none
  older ms (some (ds, n)) = if ltb (n + ms) arp_request_timeout then some (ds, n + ms) else none

  abbrev pub remember : ℕ → Event D → Memory D → Memory D
  remember ip (adds d hop) o = if ip == hop.ipv4_numeric then joined d o else o
  remember ip (passes ms) o = older ms o
  remember ip (answers k) o = if ip == k then none else o

  pub remembered : ℕ → List (Event D) → Memory D → Memory D
  remembered ip [] o = o
  remembered ip (x ∷ events) o = remembered ip events (remember ip x o)

  pub happen : Queues D → Event D → Queues D
  happen m (adds d hop) = add_pending m d hop
  happen m (passes ms) = (tick m ms).0
  happen m (answers k) = (pop_pending m k).1

  pub happen_all : Queues D → List (Event D) → Queues D
  happen_all m [] = m
  happen_all m (x ∷ events) = happen_all (happen m x) events

  abbrev pub datagrams : List (PendingDatagram D) → List D
  datagrams [] = []
  datagrams (p ∷ queue) = p.dgram ∷ datagrams queue

  abbrev pub seen : Option (List (PendingDatagram D)) → Memory D
  seen none = none
  seen (some []) = none
  seen (some (p ∷ queue)) = some (datagrams (p ∷ queue), p.timer.elapsed_ms)

  abbrev pub IsShort : Event D → Type 0
  IsShort (passes ms) = ms + arp_request_timeout < mod64
  IsShort _ = Unit {0}

  abbrev pub AllShort : List (Event D) → Type 0
  AllShort [] = Unit {0}
  AllShort (x ∷ events) = IsShort x × AllShort events

  datagrams-append :
      (p q : List (PendingDatagram D)) → datagrams (p ++ q) ≡ datagrams p ++ datagrams q
  datagrams-append [] q = refl
  datagrams-append (x ∷ p) q = ap (λ l. x.dgram ∷ l) (datagrams-append p q)

  -- The age of the request is unchanged when a datagram joins.
  seen-snoc :
      (d : D) (hop : Address) (o : Option (List (PendingDatagram D)))
      → seen (some (queue_of o ++ (pending_of d hop ∷ []))) ≡ joined d (seen o)
  unfolding Timer.start
  seen-snoc d hop none = refl
  seen-snoc d hop (some []) = refl
  seen-snoc d hop (some (h ∷ queue)) =
      ap (λ l. some (h.dgram ∷ l, h.timer.elapsed_ms))
        (datagrams-append queue (pending_of d hop ∷ []))

  seen-age :
      (ms k : ℕ) (queue : List (PendingDatagram D))
      → IsWaiting k queue
      → ms + arp_request_timeout < mod64
      → seen (age ms queue).0 ≡ older ms (seen (some queue))
  seen-age ms k [] w h = absurd (true≢false w)
  seen-age ms k (p ∷ queue) w h =
      elim (Bool-cases (ltb (p.timer.elapsed_ms + ms) arp_request_timeout)) [
        | inl young ↦ ap (λ r. seen r.0) (age-IsWaiting ms k p queue w h) ∙ rw young refl
        | inr old ↦ ap (λ r. seen r.0) (age-IsWaiting ms k p queue w h) ∙ rw old refl
      ]

  seen-tick :
      (m : Queues D) (ip ms : ℕ)
      → IsValid m
      → ms + arp_request_timeout < mod64
      → seen (find ip (tick m ms).0) ≡ older ms (seen (find ip m))
  seen-tick m ip ms v h = elim (Option-cases (find ip m)) [
    | inl e ↦
        ap seen (find-tick m ip ms v)
        ∙ ap (λ o. seen (aged ms o)) e
        ∙ sym (ap (λ o. older ms (seen o)) e)
    | inr (queue, e) ↦
        ap seen (find-tick m ip ms v)
        ∙ ap (λ o. seen (aged ms o)) e
        ∙ seen-age ms ip queue (find-IsWaiting m ip queue v e) h
        ∙ sym (ap (λ o. older ms (seen o)) e)
  ]

  seen-add_pending :
      (m : Queues D) (ip : ℕ) (d : D) (hop : Address)
      → seen (find ip (add_pending m d hop)) ≡ remember ip (adds d hop) (seen (find ip m))
  unfolding add_pending
  seen-add_pending m ip d hop = elim (Bool-cases (ip == hop.ipv4_numeric)) [
    | inl t ↦
        let same = (==_iff ip hop.ipv4_numeric).0 t in
        ap (λ i. seen (find i (add_pending m d hop))) same
        ∙ ap seen (find-enqueue-here (pending_of d hop) m hop.ipv4_numeric)
        ∙ seen-snoc d hop (find hop.ipv4_numeric m)
        ∙ ap (λ i. joined d (seen (find i m))) (sym same)
        ∙ rw t refl
    | inr t ↦ ap seen (find-enqueue-other (pending_of d hop) m ip hop.ipv4_numeric t) ∙ rw t refl
  ]

  -- What `pop_pending` does with what it finds.
  abbrev popped :
      Queues D → ℕ → Option (List (PendingDatagram D)) → List (PendingDatagram D) × Queues D
  popped m k none = ([], m)
  popped m k (some queue) = (queue, erase k m)

  pop_pending-popped : (m : Queues D) (k : ℕ) → pop_pending m k ≡ popped m k (find k m)
  unfolding pop_pending
  pop_pending-popped m k = go (find k m)
    where
      go :
          (o : Option (List (PendingDatagram D)))
          → ◌≡◌ {A = List (PendingDatagram D) × Queues D}
              (elim o [ none ↦ ([], m) | some queue ↦ (queue, erase k m) ])
              (popped m k o)
      go none = refl
      go (some queue) = refl

  -- `pop_pending` returns the queue, if there is one, and leaves none.
  abbrev Taken : Queues D → ℕ → List (PendingDatagram D) × Queues D → Type 0
  Taken m k (queue, m') =
      (queue ≡ queue_of (find k m))
      × (find k m' ≡ none)
      × IsValid m'
      × ((ip : ℕ) → (ip == k) ≡ false → find ip m' ≡ find ip m)

  pop_pending-Taken : (m : Queues D) (k : ℕ) → IsValid m → Taken m k (pop_pending m k)
  pop_pending-Taken m k v = elim (Option-cases (find k m)) [
    | inl e ↦
        subst (Taken m k) (sym (pop_pending-popped m k ∙ ap (popped m k) e))
          (sym (ap queue_of e), e, v, λ ip h. refl)
    | inr (queue, e) ↦ subst (Taken m k) (sym (pop_pending-popped m k ∙ ap (popped m k) e)) (
      sym (ap queue_of e),
      find-erase-here m k (IsValid-Distinct m v),
      erase-IsValid m k v,
      λ ip h. find-erase-other m ip k h,
    )
  ]

  happen-remember :
      (m : Queues D) (ip : ℕ) (x : Event D)
      → IsValid m
      → IsShort x
      → (seen (find ip (happen m x)) ≡ remember ip x (seen (find ip m))) × IsValid (happen m x)
  unfolding happen add_pending Timer.start
  happen-remember m ip (adds d hop) v h = (
    seen-add_pending m ip d hop,
    enqueue-IsValid (pending_of d hop) m hop.ipv4_numeric v (refl, refl, omega arith, refl),
  )
  happen-remember m ip (passes ms) v h = (seen-tick m ip ms v h, tick-IsValid m ms v h)
  happen-remember m ip (answers k) v h =
      let (_, gone, valid, others) = pop_pending-Taken m k v in
      (
        elim (Bool-cases (ip == k)) [
          | inl t ↦
              ap (λ i. seen (find i (pop_pending m k).1)) ((==_iff ip k).0 t)
              ∙ ap seen gone
              ∙ rw t refl
          | inr t ↦ ap seen (others ip t) ∙ rw t refl
        ],
        valid,
      )

  happen_all-remembered :
      (m : Queues D) (ip : ℕ) (events : List (Event D))
      → IsValid m
      → AllShort events
      → (seen (find ip (happen_all m events)) ≡ remembered ip events (seen (find ip m)))
        × IsValid (happen_all m events)
  unfolding happen_all remembered
  happen_all-remembered m ip [] v h = (refl, v)
  happen_all-remembered m ip (x ∷ events) v h =
      let (e, v') = happen-remember m ip x v h.0 in
      let (rest, v'') = happen_all-remembered (happen m x) ip events v' h.1 in
      (rest ∙ ap (remembered ip events) e, v'')

  abbrev pub waiting : Memory D → List D
  waiting none = []
  waiting (some (ds, n)) = ds

  waiting-seen : (o : Option (List (PendingDatagram D))) → datagrams (queue_of o) ≡ waiting (seen o)
  waiting-seen none = refl
  waiting-seen (some []) = refl
  waiting-seen (some (p ∷ queue)) = refl

  -- After any sequence of add_pending, tick (each short of 2 ^ 64 by more than a timeout) and
  -- pop_pending calls on valid queues, pop_pending of an address returns the datagrams that wait
  -- for it, in the order they were added: those since the last answer, none if the oldest waited
  -- for 5000 ms.
  pub pop_pending_refines :
      (m : Queues D) (ip : ℕ) (events : List (Event D))
      → IsValid m
      → AllShort events
      → datagrams (pop_pending (happen_all m events) ip).0
        ≡ waiting (remembered ip events (seen (find ip m)))
  pop_pending_refines m ip events v h =
      let (e, v') = happen_all-remembered m ip events v h in
      ap datagrams (pop_pending-Taken (happen_all m events) ip v').0
      ∙ waiting-seen (find ip (happen_all m events))
      ∙ ap waiting e
