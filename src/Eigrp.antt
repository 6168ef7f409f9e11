-- ===== src/Eigrp.antt =====
-- The EIGRP daemon (src-tauri/engine/network/protocol/eigrp.go): its topology table and the
-- operations that write it.
pub mod Metrics
use netforge.Prelude.{
  any, String, Bool, true, false, Option, none, some, List, [], ◌∷◌, ◌++◌, string_eq, if◌then◌else◌,
}
use netforge.Prelude.Int64.{Int64, add64, lt64}
use netforge.Prelude.GoMap.{GoMap, get, put, values}
use netforge.Net.{Net, net_contains}

-- An EIGRP topology table entry.
pub record EigrpRoute : Type 0 where
  pub network : String
  pub next_hop : String
  pub interface : String
  pub metric : Int64
  pub feasible : Bool
  pub learned : Int64

pub record EigrpDaemon : Type 0 where
  pub as_number : Int64
  pub router_id : String
  pub enabled : Bool
  pub networks : List String
  pub routes : GoMap String EigrpRoute
  pub neighbors : GoMap String Bool

unfoldable pub new_eigrp_daemon : String → Int64 → EigrpDaemon
new_eigrp_daemon router_id as_number = record {
  as_number = as_number;
  router_id = router_id;
  enabled = false;
  networks = [];
  routes = [];
  neighbors = [];
}

unfoldable pub enable : EigrpDaemon → EigrpDaemon
enable e = record e { enabled = true }

unfoldable pub add_network : EigrpDaemon → String → EigrpDaemon
add_network e cidr = record e { networks = e.networks ++ cidr ∷ [] }

unfoldable pub add_neighbor : EigrpDaemon → String → EigrpDaemon
add_neighbor e ip = record e { neighbors = put e.neighbors ip true }

abbrev pub hop_cost : Int64
hop_cost = 100000

-- `!found || newMetric < existing.Metric`
unfoldable pub improves : Int64 → Option EigrpRoute → Bool
improves new_metric none = true
improves new_metric (some existing) = lt64 new_metric existing.metric

abbrev pub learned_route : String → String → Int64 → EigrpRoute → EigrpRoute
learned_route sender in_iface sim_time route = record {
  network = route.network;
  next_hop = sender;
  interface = in_iface;
  metric = add64 route.metric hop_cost;
  feasible = true;
  learned = sim_time;
}

-- The table and the list `updated`.
abbrev pub Learned : Type 0
Learned = GoMap String EigrpRoute × List EigrpRoute

unfoldable pub process_route : String → String → Int64 → Learned → EigrpRoute → Learned
unfolding improves
process_route sender in_iface sim_time l route =
    let r = learned_route sender in_iface sim_time route in
    if improves r.metric (get l.0 route.network)
    then (put l.0 route.network r, l.1 ++ r ∷ [])
    else l

unfoldable pub process_routes : String → String → Int64 → Learned → List EigrpRoute → Learned
process_routes sender in_iface sim_time l [] = l
process_routes sender in_iface sim_time l (route ∷ rest) =
    process_routes sender in_iface sim_time (process_route sender in_iface sim_time l route) rest

unfoldable pub process_update :
    EigrpDaemon → List EigrpRoute → String → String → Int64 → EigrpDaemon × List EigrpRoute
process_update e routes sender in_iface sim_time =
    let (table, updated) = process_routes sender in_iface sim_time (e.routes, []) routes in
    (record e { routes = table }, updated)

unfoldable pub get_advertisement : EigrpDaemon → List EigrpRoute → List EigrpRoute
get_advertisement e local = local ++ values e.routes

-- Contains of a nil address is false, so no test on the address stands here.
unfoldable pub match_network : Net → EigrpDaemon → String → Bool
match_network net e ip =
    any (λ cidr. net_contains net (net.parse_cidr cidr) (net.parse_ip ip)) e.networks
