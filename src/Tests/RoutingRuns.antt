-- ===== src/Tests/RoutingRuns.antt =====
-- Updates of the three distance-vector and path-vector daemons.
use netforge.Prelude.{true, ◌≡◌, refl, some, List, [], ◌∷◌, string_eq, All}
use netforge.Prelude.Int64.{Int64}
use netforge.Prelude.GoMap.{get, values}
use netforge.Rip.{RipDaemon, RipUpdate, RipRoute, RipRouteEntry}
use netforge.Rip as Rip
use netforge.Rip.Metrics as Rip_Metrics
use netforge.Eigrp.{EigrpDaemon, EigrpRoute}
use netforge.Eigrp as Eigrp
use netforge.Eigrp.Metrics as Eigrp_Metrics
use netforge.Bgp.{BgpDaemon, BgpRoute, BgpPeer}
use netforge.Bgp as Bgp
use netforge.Bgp.Loops as Bgp_Loops
use netforge.Bgp.Paths as Bgp_Paths

abbrev rip : RipDaemon
rip = record {
  router_id = "R1";
  enabled = true;
  networks = [];
  routes =
      (
        "10.0.0.0/8",
        record {
          network = "10.0.0.0/8";
          next_hop = "1.1.1.1";
          interface = "g0";
          metric = 4;
          learned = 0;
        },
      )
      ∷ [];
  neighbors = [];
}

abbrev update : RipUpdate
update = record {
  sender_router_id = "R2";
  routes =
      record { network = "10.0.0.0/8"; metric = 1 }
      ∷ record { network = "20.0.0.0/8"; metric = 15 }
      ∷ [];
}

process_update-best_offer_example :
    Rip_Metrics.metric_at (Rip.process_update rip update "2.2.2.2" "g1" 9).0.routes "10.0.0.0/8"
    ≡ some 2
unfolding get Rip_Metrics.best_offer
process_update-best_offer_example =
    Rip_Metrics.process_update-best_offer rip update "2.2.2.2" "g1" 9 "10.0.0.0/8"

abbrev eigrp : EigrpDaemon
eigrp = record {
  as_number = 1;
  router_id = "R1";
  enabled = true;
  networks = [];
  routes = [];
  neighbors = [];
}

abbrev offered : List EigrpRoute
offered =
    record {
      network = "10.0.0.0/8";
      next_hop = "";
      interface = "g0";
      metric = 100;
      feasible = true;
      learned = 0;
    }
    ∷ []

process_update-best_metric_example :
    Eigrp_Metrics.metric_at
      (Eigrp.process_update eigrp offered "2.2.2.2" "g1" 9).0.routes
      "10.0.0.0/8"
    ≡ some 100100
unfolding get Eigrp_Metrics.best_offer
process_update-best_metric_example =
    Eigrp_Metrics.process_update-best_metric eigrp offered "2.2.2.2" "g1" 9 "10.0.0.0/8"

abbrev peer : BgpPeer
peer = record { peer_ip = "2.2.2.2"; remote_as = 200; local_as = 100; state = "Established" }

abbrev bgp : BgpDaemon
bgp = record {
  local_as = 100;
  router_id = "R1";
  enabled = true;
  peers = ("2.2.2.2", peer) ∷ [];
  routes = [];
}

abbrev route_of : List Int64 → BgpRoute
route_of path = record {
  prefix = "10.0.0.0/8";
  next_hop = "9.9.9.9";
  as_path = path;
  origin = "IGP";
}

process_update-IsLoopFree_example :
    All
      (Bgp_Loops.IsLoopFree 100)
      (values (Bgp.process_update bgp (route_of (200 ∷ 300 ∷ []) ∷ []) "2.2.2.2").0.routes)
process_update-IsLoopFree_example =
    Bgp_Loops.process_update-IsLoopFree bgp (route_of (200 ∷ 300 ∷ []) ∷ []) "2.2.2.2" tt

process_update-shortest_example :
    Bgp_Paths.length_at
      (Bgp.process_update bgp (route_of (200 ∷ 300 ∷ []) ∷ []) "2.2.2.2").0.routes
      "10.0.0.0/8"
    ≡ some 2
unfolding get Bgp_Paths.best_offer
process_update-shortest_example =
    Bgp_Paths.process_update-shortest bgp (route_of (200 ∷ 300 ∷ []) ∷ []) "2.2.2.2" peer
      "10.0.0.0/8" refl
