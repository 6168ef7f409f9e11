-- ===== src/Tests/OspfRuns.antt =====
-- Two OSPF daemons, and a link-state database of three routers in a row.
use netforge.Prelude.{
  ℕ, ◌*◌, String, true, ◌≡◌, ◌≢◌, refl, none, some, List, [], ◌∷◌, arith, string_eq, All,
}
use netforge.Prelude.Int64.{Int64}
use netforge.Prelude.GoMap.{GoMap, get, put, values}
use netforge.Ospf.{
  OspfDaemon, OspfNeighbor, OspfState, RouterLsa, LsaLink, generate_hello, handle_incoming_hello,
  generate_router_lsa, check_dead_interval, second,
}
use netforge.Ospf.Adjacency.{IsInit, Daemons, Reach, Step, never_adjacent, get-check_dead_interval}
use netforge.Ospf.Spf.{
  compute_spf, unreached_all, start, nearest, relax, relax_all, rounds, collect, search_spf,
}
use netforge.Ospf.Spf.Routes.{IsWalked, compute_spf-IsWalked}
use netforge.Ospf.Spf.Known.{compute_spf-IsKnown}

abbrev router : String → OspfDaemon
router id = record {
  router_id = id;
  process_id = 1;
  enabled = true;
  networks = [];
  neighbors = [];
  lsdb = [];
  interfaces = [];
}

abbrev lan : Daemons
lan = ("R1", router "R1") ∷ ("R2", router "R2") ∷ []

abbrev greeted : OspfDaemon
greeted = (handle_incoming_hello (router "R2") "g0" (generate_hello (router "R1") "g1" "/24") 5).0

never_adjacent_example :
    All IsInit (values greeted.neighbors)
    × ((generate_router_lsa greeted (("10.0.0.0/8", 0) ∷ [])).links
        ≡ record { connected_id = "10.0.0.0/8"; link_type = "stub"; cost = 0 } ∷ [])
unfolding get put
never_adjacent_example =
    never_adjacent {ds = lan} {es = put lan "R2" greeted} "R2" greeted (("10.0.0.0/8", 0) ∷ [])
      (tt, (tt, tt))
      (Reach.next Reach.here
        (Step.hello "R1" "R2" "g1" "/24" "g0" 5 (router "R1") (router "R2") refl refl))
      refl

abbrev heard_at : Int64 → OspfNeighbor
heard_at t = record { router_id = "R1"; state = OspfState.init; last_seen = t; interface = "g0" }

get-check_dead_interval_example :
    let o = record (router "R2") {
      neighbors = ("R1", heard_at 5) ∷ ("R3", heard_at (41 * second)) ∷ [];
    } in
    get (check_dead_interval o (45 * second)).0.neighbors "R1" ≡ none
unfolding get
get-check_dead_interval_example =
    get-check_dead_interval
      (record (router "R2") {
        neighbors = ("R1", heard_at 5) ∷ ("R3", heard_at (41 * second)) ∷ [];
      })
      (45 * second) "R1" (refl, (refl, tt)) (ground arith) (ground arith, (ground arith, tt))

abbrev lsa : String → ℕ → List LsaLink → RouterLsa
lsa id sequence links = record { router_id = id; sequence = sequence; links = links; age = 0 }

abbrev link : String → Int64 → LsaLink
link id cost = record { connected_id = id; link_type = "router"; cost = cost }

abbrev chain : GoMap String RouterLsa
chain =
    ("R1", lsa "R1" 1 (link "R2" 1 ∷ []))
    ∷ ("R2", lsa "R2" 1 (link "R3" 1 ∷ []))
    ∷ ("R3", lsa "R3" 1 (link "R2" 1 ∷ link "10.0.0.0/8" 0 ∷ []))
    ∷ []

compute_spf-IsWalked_example : All (IsWalked chain "R1") (values (compute_spf chain "R1"))
compute_spf-IsWalked_example = compute_spf-IsWalked chain "R1"

is_some : {A : Type 0} (a : A) → some a ≢ none
is_some a = ground arith

compute_spf-IsKnown_example : ◌≢◌ {A = String} "R3" "R1" × (get chain "R3" ≢ none)
unfolding get put compute_spf unreached_all start nearest relax relax_all rounds collect search_spf
compute_spf-IsKnown_example =
    compute_spf-IsKnown chain "R1" "R3"
      ((omega arith, tt), ((omega arith, tt), ((omega arith, (omega arith, tt)), tt)))
      (is_some (record { destination = "R3"; next_hop = "R2"; metric = 2 }))
