-- ===== src/Rip.antt =====
-- The RIP daemon (src-tauri/engine/network/protocol/rip.go): its distance-vector database and the
-- operations that write it. `net.ParseIP`, `net.ParseCIDR` and `IPNet.Contains` are the parameter
-- `Net`.
pub mod Metrics
pub mod Settled
use Prim.Native.String.{◌++◌ as append}
use netforge.Net.{Net, IpNet, is_nil, net_contains}
use netforge.Prelude.{
  any, ℕ, String, Bool, true, false, Option, none, some, List, [], ◌∷◌, ◌++◌, map, ◌==◌, string_eq,
  ◌&&◌, ◌||◌, not, if◌then◌else◌,
}
use netforge.Prelude.Int64.{Int64, add64, lt64, le64}
use netforge.Prelude.GoMap.{GoMap, get, put, delete_if, values}

-- RipMaxHop is not read by the code.
abbrev pub rip_infinity : Int64
rip_infinity = 16

-- A single RIP routing table entry.
pub record RipRoute : Type 0 where
  pub network : String
  pub next_hop : String
  pub interface : String
  pub metric : Int64
  pub learned : Int64

-- One route inside a RIP update packet.
pub record RipRouteEntry : Type 0 where
  pub network : String
  pub metric : Int64

pub record RipUpdate : Type 0 where
  pub sender_router_id : String
  pub routes : List RipRouteEntry

pub record RipDaemon : Type 0 where
  pub router_id : String
  pub enabled : Bool
  pub networks : List String
  pub routes : GoMap String RipRoute
  pub neighbors : GoMap String String

unfoldable pub new_rip_daemon : String → RipDaemon
new_rip_daemon router_id = record {
  router_id = router_id;
  enabled = false;
  networks = [];
  routes = [];
  neighbors = [];
}

unfoldable pub enable : RipDaemon → RipDaemon
enable r = record r { enabled = true }

unfoldable pub add_network : RipDaemon → String → RipDaemon
add_network r cidr = record r { networks = r.networks ++ cidr ∷ [] }

unfoldable pub add_neighbor : RipDaemon → String → String → RipDaemon
add_neighbor r port_id neighbor_ip = record r { neighbors = put r.neighbors port_id neighbor_ip }

-- The second parse is of the bare network with /24 added.
unfoldable pub statement_net : Net → String → Option IpNet
statement_net net cidr = elim (net.parse_cidr cidr) [
  | some ip_net ↦ some ip_net
  | none ↦ net.parse_cidr (append cidr "/24")
]

unfoldable pub match_interface : Net → RipDaemon → String → Bool
unfolding statement_net
match_interface net r ip =
    let ip_addr = net.parse_ip ip in
    if is_nil ip_addr
    then false
    else any (λ cidr. net_contains net (statement_net net cidr) ip_addr) r.networks

abbrev pub entry_of : RipRoute → RipRouteEntry
entry_of route = record { network = route.network; metric = route.metric }

unfoldable pub build_update : RipDaemon → List RipRoute → RipUpdate
build_update r local_routes = record {
  sender_router_id = r.router_id;
  routes = map entry_of local_routes;
}

-- `!found || newMetric < existing.Metric`
unfoldable pub improves : Int64 → Option RipRoute → Bool
improves new_metric none = true
improves new_metric (some existing) = lt64 new_metric existing.metric

-- One round of the loop of ProcessUpdate, over the database and the list `updated`.
abbrev pub Learned : Type 0
Learned = GoMap String RipRoute × List RipRoute

-- The entry that a sender's route becomes: one hop further.
abbrev pub learned_route : String → String → Int64 → RipRouteEntry → RipRoute
learned_route sender_ip in_interface sim_time entry = record {
  network = entry.network;
  next_hop = sender_ip;
  interface = in_interface;
  metric = add64 entry.metric 1;
  learned = sim_time;
}

unfoldable pub process_entry : String → String → Int64 → Learned → RipRouteEntry → Learned
unfolding improves
process_entry sender_ip in_interface sim_time l entry =
    let route = learned_route sender_ip in_interface sim_time entry in
    if le64 rip_infinity route.metric
    then l
    else if improves route.metric (get l.0 entry.network)
    then (put l.0 entry.network route, l.1 ++ route ∷ [])
    else l

unfoldable pub process_entries : String → String → Int64 → Learned → List RipRouteEntry → Learned
process_entries sender_ip in_interface sim_time l [] = l
process_entries sender_ip in_interface sim_time l (entry ∷ rest) =
    process_entries sender_ip in_interface sim_time
      (process_entry sender_ip in_interface sim_time l entry) rest

unfoldable pub process_update :
    RipDaemon → RipUpdate → String → String → Int64 → RipDaemon × List RipRoute
process_update r update sender_ip in_interface sim_time =
    let (routes, updated) =
      process_entries sender_ip in_interface sim_time (r.routes, []) update.routes in
    (record r { routes = routes }, updated)

unfoldable pub get_routes : RipDaemon → List RipRoute
get_routes r = values r.routes

unfoldable pub remove_stale_routes : RipDaemon → String → RipDaemon
remove_stale_routes r neighbor_ip = record r {
  routes = delete_if (λ _ route. route.next_hop == neighbor_ip) r.routes;
}
