-- ===== src/Router/Table.antt =====
-- The routing table as a map from network and protocol to the entry.
use netforge.Net.{Net}
use netforge.Prelude.{
  String, ◌≡◌, refl, sym, ◌∙◌, Bool, true, false, ◌&&◌, Option, none, some, List, [], ◌∷◌, ◌==◌,
  string_eq, arith, if◌then◌else◌, Bool-cases, inl, inr,
}
use text.Mathlib.TextEquality.{eq_iff}
use netforge.Router.{RouteEntry, same_route, put_route, add_route, remove_routes_by_protocol}

abbrev pub is_route : Net → RouteEntry → String → String → Bool
is_route net entry network proto =
    net.net_string entry.network == network && entry.protocol == proto

-- The first entry of a network, by its text, and a protocol.
unfoldable pub find_route : Net → List RouteEntry → String → String → Option RouteEntry
find_route net [] network proto = none
find_route net (entry ∷ table) network proto =
    if is_route net entry network proto then some entry else find_route net table network proto

is_route-same :
    (net : Net) (entry route : RouteEntry) (network proto : String)
    → same_route net entry route ≡ true
    → is_route net entry network proto ≡ is_route net route network proto
unfolding same_route
is_route-same net entry route network proto h = ground (
  arith,
  eq_iff (net.net_string entry.network) (net.net_string route.network),
  eq_iff entry.protocol route.protocol,
)

same_route-both :
    (net : Net) (entry route : RouteEntry) (network proto : String)
    → is_route net entry network proto ≡ true
    → is_route net route network proto ≡ true
    → same_route net entry route ≡ true
unfolding same_route
same_route-both net entry route network proto he hr = ground (
  arith,
  eq_iff (net.net_string entry.network) (net.net_string route.network),
  eq_iff (net.net_string entry.network) network,
  eq_iff (net.net_string route.network) network,
  eq_iff entry.protocol route.protocol,
  eq_iff entry.protocol proto,
  eq_iff route.protocol proto,
)

skip_entry :
    (is_entry is_it : Bool) (entry route : RouteEntry) (old new : Option RouteEntry)
    → (is_entry ≡ true → is_it ≡ true → false ≡ true)
    → new ≡ (if is_it then some route else old)
    → (if is_entry then some entry else new)
      ≡ (if is_it then some route else (if is_entry then some entry else old))
skip_entry true true entry route old new k e = ground arith
skip_entry true false entry route old new k e = refl
skip_entry false is_it entry route old new k e = e

pub find_route-put_route :
    (net : Net) (table : List RouteEntry) (route : RouteEntry) (network proto : String)
    → find_route net (put_route net table route) network proto ≡ (
        if is_route net route network proto then some route else find_route net table network proto)
unfolding find_route put_route
find_route-put_route net [] route network proto = refl
find_route-put_route net (entry ∷ table) route network proto =
    elim (Bool-cases (same_route net entry route)) [
      | inl same ↦ rw (same, is_route-same net entry route network proto same) ground arith
      | inr other ↦ rw other (
          skip_entry (is_route net entry network proto) (is_route net route network proto) entry
            route (find_route net table network proto)
            (find_route net (put_route net table route) network proto)
            (λ he hr. sym other ∙ same_route-both net entry route network proto he hr)
            (find_route-put_route net table route network proto))
    ]

pub find_route-remove :
    (net : Net) (table : List RouteEntry) (gone network proto : String)
    → find_route net (remove_routes_by_protocol table gone) network proto
      ≡ (if proto == gone then none else find_route net table network proto)
unfolding find_route remove_routes_by_protocol
find_route-remove net [] gone network proto = ground arith
find_route-remove net (entry ∷ table) gone network proto = ground (
  arith,
  find_route-remove net table gone network proto,
  eq_iff entry.protocol gone,
  eq_iff entry.protocol proto,
  eq_iff proto gone,
)

-- AddRoute and RemoveRoutesByProtocol make the table a map from network and protocol to the route:
-- where the network parses, the route that was added is found under its own network and protocol
-- and no other look-up changes, and after the removal of a protocol its routes are not found and
-- the others are as before.
pub find_route-add_route :
    (net : Net) (table : List RouteEntry) (cidr network proto gone : String) (route : RouteEntry)
    → net.parse_cidr cidr ≡ some route.network
    → let after = put_route net table route in
      (add_route net table cidr route.next_hop route.interface route.metric route.protocol
          route.admin_dist
        ≡ some after)
      × (find_route net after network proto ≡ (
          if is_route net route network proto
          then some route
          else find_route net table network proto))
      × (find_route net (remove_routes_by_protocol after gone) network proto
          ≡ (if proto == gone then none else find_route net after network proto))
unfolding add_route
find_route-add_route net table cidr network proto gone route parsed = (
  rw (parsed, add_route) refl,
  find_route-put_route net table route network proto,
  find_route-remove net (put_route net table route) gone network proto,
)
