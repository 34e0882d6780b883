-- ===== src/Router.antt =====
-- src/router.{hh,cc}: the forwarding table. An address of a next hop is opaque here.
pub mod Table
pub mod Forward
pub mod Forwarding
pub mod Draining
pub mod Routing
mod Tests
use cs_144_minnow_tcp.Base.{
  ℕ, ◌-◌, ◌*◌, ◌^◌, Bool, Option, none, some, List, [], ◌∷◌, if◌then◌else◌, ltb, ◌==◌,
}
use Prim.Native.Nat.{◌/◌}

-- `Router::RouteEntry`
pub record RouteEntry (A : Type 0) : Type 0 where
  pub prefix : ℕ
  pub prefix_length : ℕ
  pub next_hop : Option A
  pub interface_num : ℕ

-- `address & mask`, with the mask of a prefix length: none of the bits at 0, else the high ones.
unfoldable pub masked : ℕ → ℕ → ℕ
masked prefix_length address =
    if prefix_length == 0 then 0 else address / 2 ^ (32 - prefix_length) * 2 ^ (32 - prefix_length)

abbrev pub route_matches : {A : Type 0} → ℕ → RouteEntry A → Bool
route_matches destination r = masked r.prefix_length destination == masked r.prefix_length r.prefix

-- `upper_bound` in descending order, and the insertion there: before the first shorter prefix.
unfoldable pub insert_route :
    {A : Type 0} → RouteEntry A → List (RouteEntry A) → List (RouteEntry A)
insert_route entry [] = entry ∷ []
insert_route entry (r ∷ routes) =
    if ltb r.prefix_length entry.prefix_length
    then entry ∷ r ∷ routes
    else r ∷ insert_route entry routes

unfoldable pub add_route : {A : Type 0} → List (RouteEntry A) → RouteEntry A → List (RouteEntry A)
unfolding insert_route
add_route routes entry = if ltb 32 entry.prefix_length then routes else insert_route entry routes

unfoldable pub find_route : {A : Type 0} → List (RouteEntry A) → ℕ → Option (RouteEntry A)
unfolding masked
find_route [] destination = none
find_route (r ∷ routes) destination =
    if route_matches destination r then some r else find_route routes destination
