-- ===== src/Router/Table.antt =====
-- The order of the forwarding table of src/router.cc, its masks and its lookups.
use mathlib.Core.List.{Memᴰ}
use mathlib.Core.Bool.{true≢false}
use native.Mathlib.Nat.{mul-div_cancel, one-le-pow}
use Prim.Native.Nat.{◌/◌}
use cs_144_minnow_tcp.Base.{
  ℕ, ◌-◌, ◌*◌, ◌^◌, ◌≤◌, ◌<◌, ◌≡◌, inl, inr, refl, ap, sym, ◌∙◌, Bool, true, false, ◌&&◌, Option,
  none, some, List, [], ◌∷◌, if◌then◌else◌, ltb, leb, ltb→lt, ltb→le, lt→ltb, ◌==◌, ==_iff, arith,
  Bool-cases,
}
use cs_144_minnow_tcp.Router.{
  RouteEntry, route_matches, masked, insert_route, add_route, find_route,
}

-- Longer prefixes first, none longer than `n`.
abbrev pub Sorted : {A : Type 0} → ℕ → List (RouteEntry A) → Type 0
Sorted n [] = Unit {0}
Sorted n (r ∷ routes) = (r.prefix_length ≤ n) × Sorted r.prefix_length routes

insert_route-Sorted :
    {A : Type 0} (n : ℕ) (entry : RouteEntry A) (routes : List (RouteEntry A))
    → entry.prefix_length ≤ n
    → Sorted n routes
    → Sorted n (insert_route entry routes)
unfolding insert_route
insert_route-Sorted n entry [] h s = (h, tt)
insert_route-Sorted n entry (r ∷ routes) h s =
    elim (Bool-cases (ltb r.prefix_length entry.prefix_length)) [
      | inl shorter ↦ rw shorter (h, (omega (arith, ltb→lt _ _ shorter), s.1))
      | inr longer ↦
          rw longer (s.0, insert_route-Sorted r.prefix_length entry routes (ltb→le _ _ longer) s.1)
    ]

-- add_route keeps a table sorted by descending prefix length, none above 32, whatever the route.
pub add_route-Sorted :
    {A : Type 0} (routes : List (RouteEntry A)) (entry : RouteEntry A)
    → Sorted 32 routes
    → Sorted 32 (add_route routes entry)
unfolding add_route
add_route-Sorted routes entry s = elim (Bool-cases (ltb 32 entry.prefix_length)) [
  | inl refused ↦ rw refused s
  | inr fits ↦ rw fits (insert_route-Sorted 32 entry routes (ltb→le _ _ fits) s)
]

-- Does a new entry come before the route found so far?
abbrev pub outranks : {A : Type 0} → RouteEntry A → Option (RouteEntry A) → Bool
outranks entry none = true
outranks entry (some r) = ltb r.prefix_length entry.prefix_length

outranks-find_route :
    {A : Type 0} (n : ℕ) (entry : RouteEntry A) (routes : List (RouteEntry A)) (destination : ℕ)
    → n < entry.prefix_length
    → Sorted n routes
    → outranks entry (find_route routes destination) ≡ true
unfolding find_route
outranks-find_route n entry [] destination h s = refl
outranks-find_route n entry (r ∷ routes) destination h s =
    elim (Bool-cases (route_matches destination r)) [
      | inl found ↦ rw found (lt→ltb _ _ (omega (arith, s.0)))
      | inr other ↦
          rw other
            (outranks-find_route r.prefix_length entry routes destination (omega (arith, s.0)) s.1)
    ]

and_true : (a b : Bool) → b ≡ true → a ≡ (a && b)
and_true a true h = ground arith
and_true a false h = ground arith

and_false : (a b : Bool) → b ≡ false → false ≡ (a && b)
and_false a b h = ground arith

abbrev pub preferred :
    {A : Type 0} → RouteEntry A → Option (RouteEntry A) → Bool → Option (RouteEntry A)
preferred entry other b = if b then some entry else other

find-insert_route :
    {A : Type 0} (n : ℕ) (entry : RouteEntry A) (routes : List (RouteEntry A)) (destination : ℕ)
    → Sorted n routes
    → find_route (insert_route entry routes) destination
      ≡ preferred entry
          (find_route routes destination)
          (route_matches destination entry && outranks entry (find_route routes destination))
unfolding insert_route find_route
find-insert_route n entry [] destination s = ap (preferred entry none) (and_true _ _ refl)
find-insert_route n entry (r ∷ routes) destination s =
    elim (Bool-cases (ltb r.prefix_length entry.prefix_length)) [
      | inl shorter ↦ rw shorter (
          ap (preferred entry (find_route (r ∷ routes) destination)) (
            and_true _ _ (
              outranks-find_route r.prefix_length entry (r ∷ routes) destination
                (ltb→lt _ _ shorter) (omega arith, s.1))))
      | inr longer ↦ rw longer (elim (Bool-cases (route_matches destination r)) [
        | inl found ↦ rw found (ap (preferred entry (some r)) (and_false _ _ longer))
        | inr other ↦ rw other (find-insert_route r.prefix_length entry routes destination s.1)
      ])
    ]

-- A lookup in a sorted table to which a route was added finds the new route if its prefix is at
-- most 32 bits long, matches, and is longer than that of the route found before, if any; and finds
-- what it found before otherwise.
pub find_route-add_route :
    {A : Type 0} (routes : List (RouteEntry A)) (entry : RouteEntry A) (destination : ℕ)
    → Sorted 32 routes
    → find_route (add_route routes entry) destination
      ≡ preferred entry (find_route routes destination) (
          leb entry.prefix_length 32
          && route_matches destination entry
          && outranks entry (find_route routes destination))
unfolding add_route
find_route-add_route routes entry destination s = elim (Bool-cases (ltb 32 entry.prefix_length)) [
  | inl refused ↦ rw refused (
      ap
        (λ b.
          preferred entry (find_route routes destination) (
            b && route_matches destination entry && outranks entry (find_route routes destination)))
        (let e : false ≡ leb entry.prefix_length 32 = ground arith in e))
  | inr fits ↦ rw fits (
      find-insert_route 32 entry routes destination s
      ∙ ap
          (λ b. preferred entry (find_route routes destination) (
            b && route_matches destination entry && outranks entry (find_route routes destination)))
          (let e : true ≡ leb entry.prefix_length 32 = ground arith in e))
]

Sorted-Memᴰ :
    {A : Type 0} (n : ℕ) (r : RouteEntry A) (routes : List (RouteEntry A))
    → Sorted n routes
    → Memᴰ r routes
    → r.prefix_length ≤ n
Sorted-Memᴰ n r [] s m = elim m [ ]
Sorted-Memᴰ n r (x ∷ routes) s (Memᴰ.head e) =
    omega (arith, s.0, ap (λ (y : RouteEntry _). y.prefix_length) e)
Sorted-Memᴰ n r (x ∷ routes) s (Memᴰ.tail m) =
    omega (arith, s.0, Sorted-Memᴰ x.prefix_length r routes s.1 m)

module _ {A : Type 0} (x : RouteEntry A) (routes : List (RouteEntry A)) (destination : ℕ) where
  find_route-here :
      route_matches destination x ≡ true → find_route (x ∷ routes) destination ≡ some x
  unfolding find_route
  find_route-here found = rw found refl

  find_route-later :
      route_matches destination x ≡ false
      → find_route (x ∷ routes) destination ≡ find_route routes destination
  unfolding find_route
  find_route-later other = rw other refl

  -- A route that matches stands behind a front that does not.
  matches_behind :
      (r : RouteEntry A)
      → Memᴰ r (x ∷ routes)
      → route_matches destination r ≡ true
      → route_matches destination x ≡ false
      → Memᴰ r routes
  matches_behind r (Memᴰ.tail m) h other = m
  matches_behind r (Memᴰ.head e) h other =
      absurd (true≢false (sym h ∙ ap (route_matches destination) e ∙ other))

-- If a route of a sorted table matches a destination, find_route returns a route of the table that
-- matches it and whose prefix is at least as long.
pub find_route_longest :
    {A : Type 0} (n : ℕ) (routes : List (RouteEntry A)) (destination : ℕ) (r : RouteEntry A)
    → Sorted n routes
    → Memᴰ r routes
    → route_matches destination r ≡ true
    → (best : RouteEntry A) × (find_route routes destination ≡ some best)
      × Memᴰ best routes
      × (route_matches destination best ≡ true)
      × (r.prefix_length ≤ best.prefix_length)
find_route_longest n [] destination r s m h = elim m [ ]
find_route_longest n (x ∷ routes) destination r s m h =
    elim (Bool-cases (route_matches destination x)) [
      | inl found ↦ (
        x,
        find_route-here x routes destination found,
        Memᴰ.head refl,
        found,
        Sorted-Memᴰ x.prefix_length r (x ∷ routes) (omega arith, s.1) m,
      )
      | inr other ↦
          let (best, e, at, fits, longest) =
            find_route_longest x.prefix_length routes destination r s.1
              (matches_behind x routes destination r m h other) h in
          (best, find_route-later x routes destination other ∙ e, Memᴰ.tail at, fits, longest)
    ]

mul_same : (a b k : ℕ) → 0 < k → (a * k == b * k) ≡ (a == b)
mul_same a b k pos = elim (Bool-cases (a == b)) [
  | inl e ↦ ground (arith, ap (λ x. x * k) ((==_iff a b).0 e))
  | inr different ↦ elim (Bool-cases (a * k == b * k)) [
    | inr e ↦ e ∙ sym different
    | inl e ↦
        let same : a ≡ b =
          sym (mul-div_cancel a pos)
          ∙ ap (λ x. x / k) ((==_iff (a * k) (b * k)).0 e)
          ∙ mul-div_cancel b pos in
        ground (arith, same)
  ]
]

-- For a 32-bit address and prefix, the masked address and prefix are equal exactly if their leading
-- bits, as many as the prefix length says, are.
pub masked_lem :
    (n address prefix : ℕ)
    → address < 2 ^ 32
    → prefix < 2 ^ 32
    → (masked n address == masked n prefix) ≡ (address / 2 ^ (32 - n) == prefix / 2 ^ (32 - n))
unfolding masked
masked_lem n address prefix h k = elim (Bool-cases (n == 0)) [
  | inl e ↦
      let none_left : true ≡ (address / 2 ^ 32 == prefix / 2 ^ 32) = ground arith in
      rw e (
        none_left
        ∙ ap (λ m. address / 2 ^ (32 - m) == prefix / 2 ^ (32 - m)) (sym ((==_iff n 0).0 e)))
  | inr e ↦ rw e (
      mul_same (address / 2 ^ (32 - n)) (prefix / 2 ^ (32 - n)) (2 ^ (32 - n))
        (one-le-pow (32 - n) 2 (omega arith)))
]
