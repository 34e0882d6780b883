-- ===== src/ArpMessageQueue/Report.antt =====
-- Which next hops `tick` of src/arp_message_queue.cc reports to its callback.
use mathlib.Core.Bool.{true≢false, or_assoc}
use cs_144_minnow_tcp.Base.{
  ℕ, ◌+◌, ◌<◌, ◌≡◌, inl, inr, refl, ap, ap₂, sym, ◌∙◌, Bool, true, false, not, ◌||◌, ◌&&◌, none,
  some, List, [], ◌∷◌, ◌++◌, ltb, ◌==◌, ==_iff, mod64, Bool-cases,
}
use cs_144_minnow_tcp.Assoc.{find}
use cs_144_minnow_tcp.Timer.{arp_request_timeout}
use cs_144_minnow_tcp.ArpMessageQueue.{Address, PendingDatagram, Queues, age, tick}
use cs_144_minnow_tcp.ArpMessageQueue.Inv.{IsValid, IsWaiting, age-IsWaiting}
use cs_144_minnow_tcp.ArpMessageQueue.Refine.{Memory, seen}

abbrev pub reported : ℕ → List Address → Bool
reported ip [] = false
reported ip (hop ∷ hops) = hop.ipv4_numeric == ip || reported ip hops

reported-append :
    (ip : ℕ) (a b : List Address) → reported ip (a ++ b) ≡ (reported ip a || reported ip b)
reported-append ip [] b = refl
reported-append ip (hop ∷ a) b =
    ap (λ r. hop.ipv4_numeric == ip || r) (reported-append ip a b)
    ∙ sym (or_assoc (hop.ipv4_numeric == ip) (reported ip a) (reported ip b))

or_end : (b : Bool) → (b || false) ≡ b
or_end true = refl
or_end false = refl

and_end : (b : Bool) → b ≡ (b && true)
and_end true = refl
and_end false = refl

and_none : (b : Bool) → false ≡ (b && false)
and_none true = refl
and_none false = refl

module _ {D : Type 0} where
  -- Has the request for an address gone unanswered for too long?
  abbrev pub expired : ℕ → Memory D → Bool
  expired ms none = false
  expired ms (some (ds, n)) = not (ltb (n + ms) arp_request_timeout)

  age-reports :
      (ms k ip : ℕ) (queue : List (PendingDatagram D))
      → IsWaiting k queue
      → ms + arp_request_timeout < mod64
      → reported ip (age ms queue).1 ≡ (k == ip && expired ms (seen (some queue)))
  age-reports ms k ip [] w h = absurd (true≢false w)
  age-reports ms k ip (p ∷ queue) w h =
      elim (Bool-cases (ltb (p.timer.elapsed_ms + ms) arp_request_timeout)) [
        | inl young ↦
            ap (λ r. reported ip r.1) (age-IsWaiting ms k p queue w h)
            ∙ rw young (and_none (k == ip))
        | inr old ↦
            ap (λ r. reported ip r.1) (age-IsWaiting ms k p queue w h)
            ∙ rw old
                (or_end (p.next_hop.ipv4_numeric == ip) ∙ ap (λ j. j == ip) w.3 ∙ and_end (k == ip))
      ]

  -- A tick of valid queues, short of 2 ^ 64 by more than a timeout, reports a next hop of an
  -- address exactly if datagrams wait for it and the request for it is then 5000 ms old.
  pub tick-reports :
      (m : Queues D) (ip ms : ℕ)
      → IsValid m
      → ms + arp_request_timeout < mod64
      → reported ip (tick m ms).1 ≡ expired ms (seen (find ip m))
  unfolding tick find
  tick-reports [] ip ms v h = refl
  tick-reports ((k, q) ∷ m) ip ms v h =
      reported-append ip (age ms q).1 (tick m ms).1
      ∙ ap₂ (λ a b. a || b) (age-reports ms k ip q v.1 h) (tick-reports m ip ms v.2 h)
      ∙ elim (Bool-cases (k == ip)) [
        | inl t ↦
            let gone : find ip m ≡ none = ap (λ i. find i m) (sym ((==_iff k ip).0 t)) ∙ v.0 in
            rw (t, gone) (or_end (expired ms (seen (some q))))
        | inr t ↦ rw t refl
      ]
