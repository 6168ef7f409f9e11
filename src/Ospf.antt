-- ===== src/Ospf.antt =====
-- The OSPF daemon (src-tauri/engine/network/protocol/ospf.go): its neighbours, its link-state
-- database and the operations that write them. The shortest-path computation is in Ospf/Spf.antt.
-- Times are in nanoseconds, as in Go's time.Duration.
pub mod Adjacency
pub mod Lsdb
pub mod Spf
use netforge.Prelude.{
  ℕ, ◌*◌, String, Bool, true, false, ◌||◌, Option, none, some, List, [], ◌∷◌, ◌++◌, any, map, leb,
  ◌==◌, nat_eq, string_eq, if◌then◌else◌,
}
use netforge.Prelude.Int64.{Int64, sub64, lt64}
use netforge.Prelude.GoMap.{GoMap, get, put, delete_if, keys, values}
use netforge.Net.{Net, is_nil, net_contains}

pub data OspfState : Type 0 where
  down init two_way full : OspfState

abbrev pub second : Int64
second = 1_000_000_000

abbrev pub ospf_dead_interval : Int64
ospf_dead_interval = 40 * second

-- A directed connection to a subnet or neighbour; the type is "router" or "stub".
pub record LsaLink : Type 0 where
  pub connected_id : String
  pub link_type : String
  pub cost : Int64

pub record RouterLsa : Type 0 where
  pub router_id : String
  pub sequence : ℕ
  pub links : List LsaLink
  pub age : Int64

pub record OspfHelloPacket : Type 0 where
  pub router_id : String
  pub network_mask : String
  pub hello_interval : ℕ
  pub dead_interval : ℕ
  pub active_neighbors : List String

pub record OspfNeighbor : Type 0 where
  pub router_id : String
  pub state : OspfState
  pub last_seen : Int64
  pub interface : String

pub record OspfNetwork : Type 0 where
  pub cidr : String
  pub area : Int64

pub record OspfIfaceConfig : Type 0 where
  pub port_id : String
  pub ip : String
  pub mask : String
  pub area : Int64
  pub cost : Int64

pub record OspfDaemon : Type 0 where
  pub router_id : String
  pub process_id : Int64
  pub enabled : Bool
  pub networks : List OspfNetwork
  pub neighbors : GoMap String OspfNeighbor
  pub lsdb : GoMap String RouterLsa
  pub interfaces : GoMap String OspfIfaceConfig

unfoldable pub new_ospf_daemon : String → Int64 → OspfDaemon
new_ospf_daemon router_id process_id = record {
  router_id = router_id;
  process_id = process_id;
  enabled = false;
  networks = [];
  neighbors = [];
  lsdb = [];
  interfaces = [];
}

unfoldable pub enable : OspfDaemon → OspfDaemon
enable o = record o { enabled = true }

unfoldable pub add_network : OspfDaemon → String → Int64 → OspfDaemon
add_network o cidr area = record o {
  networks = o.networks ++ record { cidr = cidr; area = area } ∷ [];
}

-- The first statement whose network holds the address.
unfoldable pub find_statement : Net → List ℕ → List OspfNetwork → Option OspfNetwork
find_statement net ip_addr [] = none
find_statement net ip_addr (stmt ∷ rest) =
    if net_contains net (net.parse_cidr stmt.cidr) ip_addr
    then some stmt
    else find_statement net ip_addr rest

unfoldable pub match_interface : Net → OspfDaemon → String → String → Option OspfNetwork
match_interface net o ip mask =
    let ip_addr = net.parse_ip ip in
    if is_nil ip_addr then none else find_statement net ip_addr o.networks

unfoldable pub enable_interface : OspfDaemon → String → String → String → Int64 → OspfDaemon
enable_interface o port_id ip mask area = record o {
  interfaces =
      put o.interfaces port_id
        (record { port_id = port_id; ip = ip; mask = mask; area = area; cost = 1 });
}

abbrev pub is_full : OspfState → Bool
is_full full = true
is_full _ = false

abbrev pub is_adjacent : OspfState → Bool
is_adjacent full = true
is_adjacent two_way = true
is_adjacent _ = false

-- The loop of GenerateHello.
unfoldable pub active_ids : GoMap String OspfNeighbor → List String
active_ids [] = []
active_ids ((id, n) ∷ rest) = if is_adjacent n.state then id ∷ active_ids rest else active_ids rest

unfoldable pub generate_hello : OspfDaemon → String → String → OspfHelloPacket
unfolding active_ids
generate_hello o iface_name mask = record {
  router_id = o.router_id;
  network_mask = mask;
  hello_interval = 10;
  dead_interval = 40;
  active_neighbors = active_ids o.neighbors;
}

-- Both tests of the branch: INIT goes through 2-WAY to FULL in one hello.
abbrev pub seen_state : OspfState → OspfState
seen_state init = full
seen_state two_way = full
seen_state other = other

unfoldable pub hello_neighbor : String → OspfNeighbor → OspfHelloPacket → Int64 → OspfNeighbor
hello_neighbor own_id neighbor hello sim_time =
    if any (λ seen_id. seen_id == own_id) hello.active_neighbors
    then record neighbor { last_seen = sim_time; state = seen_state neighbor.state }
    else record neighbor { last_seen = sim_time; state = init }

-- A neighbour heard for the first time is entered in INIT.
abbrev pub heard : OspfDaemon → String → OspfHelloPacket → Int64 → OspfNeighbor
heard o incoming_iface hello sim_time = elim (get o.neighbors hello.router_id) [
  | none ↦ record {
    router_id = hello.router_id;
    state = init;
    last_seen = sim_time;
    interface = incoming_iface;
  }
  | some neighbor ↦ hello_neighbor o.router_id neighbor hello sim_time
]

unfoldable pub handle_incoming_hello :
    OspfDaemon → String → OspfHelloPacket → Int64 → OspfDaemon × OspfState
handle_incoming_hello o incoming_iface hello sim_time =
    let neighbor = heard o incoming_iface hello sim_time in
    (record o { neighbors = put o.neighbors hello.router_id neighbor }, neighbor.state)

abbrev pub is_dead : Int64 → OspfNeighbor → Bool
is_dead sim_time neighbor = lt64 ospf_dead_interval (sub64 sim_time neighbor.last_seen)

unfoldable pub dead_ids : Int64 → GoMap String OspfNeighbor → List String
dead_ids sim_time [] = []
dead_ids sim_time ((id, n) ∷ rest) =
    if is_dead sim_time n then id ∷ dead_ids sim_time rest else dead_ids sim_time rest

unfoldable pub check_dead_interval : OspfDaemon → Int64 → OspfDaemon × List String
check_dead_interval o sim_time = (
  record o { neighbors = delete_if (λ _ neighbor. is_dead sim_time neighbor) o.neighbors },
  dead_ids sim_time o.neighbors,
)

unfoldable pub router_links : GoMap String OspfNeighbor → List LsaLink
router_links [] = []
router_links ((id, n) ∷ rest) =
    if is_full n.state
    then record { connected_id = id; link_type = "router"; cost = 1 } ∷ router_links rest
    else router_links rest

abbrev pub stub_link : String × Int64 → LsaLink
stub_link (subnet, cost) = record { connected_id = subnet; link_type = "stub"; cost = cost }

unfoldable pub generate_router_lsa : OspfDaemon → GoMap String Int64 → RouterLsa
unfolding router_links
generate_router_lsa o connected_subnets = record {
  router_id = o.router_id;
  sequence = 1;
  links = router_links o.neighbors ++ map stub_link connected_subnets;
  age = 0;
}

-- `found && existing.Sequence >= lsa.Sequence`
abbrev pub is_stale : Option RouterLsa → RouterLsa → Bool
is_stale none lsa = false
is_stale (some existing) lsa = leb lsa.sequence existing.sequence

unfoldable pub update_lsdb : OspfDaemon → RouterLsa → OspfDaemon × Bool
update_lsdb o lsa =
    if is_stale (get o.lsdb lsa.router_id) lsa
    then (o, false)
    else (record o { lsdb = put o.lsdb lsa.router_id lsa }, true)

unfoldable pub get_neighbors : OspfDaemon → List OspfNeighbor
get_neighbors o = values o.neighbors
