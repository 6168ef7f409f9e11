-- ===== src/Router.antt =====
-- The routing table of a router (src-tauri/engine/network/router.go): a list of entries, each with
-- its parsed network. The package `net` is the parameter `Net`; an error of ParseCIDR is none.
pub mod Table
pub mod Lookup
pub mod Acl
pub mod Nat
pub mod Cdp
use netforge.Net.{Net, IpNet}
use netforge.Prelude.{
  ℕ, String, Bool, true, false, ◌&&◌, ◌||◌, not, Option, none, some, List, [], ◌∷◌, ◌==◌, string_eq,
  nat_eq, if◌then◌else◌, keep,
}
use netforge.Prelude.Int64.{Int64, lt64, minus_one}

pub record RouteEntry : Type 0 where
  pub network : IpNet
  pub next_hop : String
  pub interface : String
  pub metric : Int64
  pub protocol : String
  pub admin_dist : Int64

-- `entry.Network.String() == ipNet.String() && entry.Protocol == proto`
unfoldable pub same_route : Net → RouteEntry → RouteEntry → Bool
same_route net entry route =
    net.net_string entry.network == net.net_string route.network && entry.protocol == route.protocol

-- The loop of addRouteLocked writes over the first route that is the same, else the append after
-- it runs.
unfoldable pub put_route : Net → List RouteEntry → RouteEntry → List RouteEntry
unfolding same_route
put_route net [] route = route ∷ []
put_route net (entry ∷ table) route =
    if same_route net entry route then route ∷ table else entry ∷ put_route net table route

unfoldable pub add_route :
    Net
    → List RouteEntry
    → String
    → String
    → String
    → Int64
    → String
    → Int64
    → Option (List RouteEntry)
unfolding put_route
add_route net table cidr next_hop out_interface metric proto admin_dist =
    elim (net.parse_cidr cidr) [
      | none ↦ none
      | some ip_net ↦ some (
          put_route net table (record {
            network = ip_net;
            next_hop = next_hop;
            interface = out_interface;
            metric = metric;
            protocol = proto;
            admin_dist = admin_dist;
          }))
    ]

unfoldable pub remove_routes_by_protocol : List RouteEntry → String → List RouteEntry
remove_routes_by_protocol table proto = keep (λ entry. not (entry.protocol == proto)) table

-- The three variables of MatchRoute's loop.
pub record Best : Type 0 where
  pub best_match : Option RouteEntry
  pub best_mask_len : Int64
  pub best_admin_dist : Int64

unfoldable pub consider : Net → List ℕ → Best → RouteEntry → Best
consider net target_ip best entry =
    let ones = net.mask_ones entry.network.mask in
    if net.contains entry.network target_ip
      && (lt64 best.best_mask_len ones
          || (ones == best.best_mask_len && lt64 entry.admin_dist best.best_admin_dist))
    then record {
      best_match = some entry;
      best_mask_len = ones;
      best_admin_dist = entry.admin_dist;
    }
    else best

unfoldable pub consider_all : Net → List ℕ → Best → List RouteEntry → Best
unfolding consider
consider_all net target_ip best [] = best
consider_all net target_ip best (entry ∷ table) =
    consider_all net target_ip (consider net target_ip best entry) table

unfoldable pub match_route : Net → List RouteEntry → String → Option RouteEntry
unfolding consider_all
match_route net table dest_ip =
    let start : Best = record {
      best_match = none;
      best_mask_len = minus_one;
      best_admin_dist = 999999;
    } in
    (consider_all net (net.parse_ip dest_ip) start table).best_match
