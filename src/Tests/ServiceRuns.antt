-- ===== src/Tests/ServiceRuns.antt =====
-- The router's tables, the firewall, the event log and the configurations at concrete data.
use netforge.Prelude.{
  ℕ, ◌≤◌, String, true, false, ◌≡◌, refl, none, some, ◌||◌, List, [], ◌∷◌, arith, ◌==◌, string_eq,
  All, nat_eq, if◌then◌else◌,
}
use netforge.Prelude.GoMap.{GoMap, get}
use netforge.Prelude.Int64.{Int64}
use netforge.Net.{Net, IpNet}
use netforge.Pdu.{Ipv4Packet}
use netforge.Router.{RouteEntry, match_route}
use netforge.Router.Table.{find_route}
use netforge.Device.{Router, new_router}
use netforge.Ospf.{OspfDaemon, RouterLsa}
use netforge.Ospf.Spf.{compute_spf}
use netforge.Topology.Routes.{run_ospf_spf}
use netforge.Topology.Routes.Current.{IsCurrent, find_route-run_ospf_spf}
use netforge.Router.Lookup.{IsBestOf, match_route-IsBestOf}
use netforge.Router.Acl.{AclRule, evaluate_acl, add_acl_rule, rule_matches, match_acl_net}
use netforge.Router.Acl.Order.{evaluate_acl-add_acl_rule}
use netforge.Router.Nat.{
  NatEntry, NatTable, NatRouter, translate_outbound, translate_inbound, with_destination,
  static_out, static_in,
}
use netforge.Router.Nat.Replies.{translate_inbound-translate_outbound}
use netforge.Asa.{AsaFirewall, inspect_packet, evaluate_rules}
use netforge.Asa.Stateful.{add_rules, inspect_packet-established}
use netforge.EventLog.Latest.{Event, entry_of, record_events, record_events-last_of, last_of}
use netforge.ConfigStore.{ConfigStore, write_memory, get_startup, get_running}
use netforge.ConfigStore.Startup.{append_lines, get_startup-write_memory}

-- Addresses of one byte: a network is its text, "a" covers 1 and 2 and "b" covers 2.
abbrev net_a : IpNet
net_a = record { ip = 1 ∷ []; mask = 8 ∷ [] }

abbrev net_b : IpNet
net_b = record { ip = 2 ∷ []; mask = 9 ∷ [] }

abbrev first_of : List ℕ → ℕ
first_of [] = 0
first_of (x ∷ _) = x

abbrev tiny : Net
tiny = record {
  parse_ip = λ s. if s == "two" then 2 ∷ [] else 1 ∷ [];
  parse_cidr = λ s. if s == "a" then some net_a else if s == "b" then some net_b else none;
  contains = λ n ip. first_of n.ip == 1 || first_of n.ip == first_of ip;
  to4 = λ ip. ip;
  mask_ip = λ ip mask. ip;
  equal = λ a b. first_of a == first_of b;
  ip_string = λ ip. if first_of ip == 2 then "two" else "one";
  net_string = λ n. if first_of n.ip == 2 then "b" else "a";
  mask_ones = λ mask. if first_of mask == 9 then 9 else 8;
}

abbrev static_route : IpNet → String → RouteEntry
static_route n next_hop = record {
  network = n;
  next_hop = next_hop;
  interface = "g0";
  metric = 0;
  protocol = "S";
  admin_dist = 1;
}

abbrev x_to_b : GoMap String RouterLsa
x_to_b =
    (
      "x",
      record {
        router_id = "x";
        sequence = 1;
        links = record { connected_id = "b"; link_type = "router"; cost = 1 } ∷ [];
        age = 0;
      },
    )
    ∷ ("b", record { router_id = "b"; sequence = 1; links = []; age = 0 })
    ∷ []

abbrev ospf_x : OspfDaemon
ospf_x = record {
  router_id = "x";
  process_id = 1;
  enabled = true;
  networks = [];
  neighbors = [];
  lsdb = x_to_b;
  interfaces = [];
}

abbrev router_x : Router ℕ ℕ
router_x = record (new_router "x") {
  routing_table =
      record (static_route net_b "one") { protocol = "O" } ∷ static_route net_a "one" ∷ [];
  port_neighbors = ("g1", record { router_id = "b"; port_id = "g0"; remote_ip = "two" }) ∷ [];
  ospf = some ospf_x;
}

find_route-run_ospf_spf_example :
    let after = (run_ospf_spf tiny router_x).routing_table in
    (find_route tiny after "a" "S" ≡ some (static_route net_a "one"))
    × All (IsCurrent tiny router_x (compute_spf x_to_b "x")) after
unfolding new_router find_route
find_route-run_ospf_spf_example =
    find_route-run_ospf_spf tiny router_x ospf_x "a" "S" refl refl refl

tiny-short : (mask : List ℕ) → tiny.mask_ones mask ≤ 128
tiny-short mask = ground arith

match_route-IsBestOf_example :
    IsBestOf tiny
      (static_route net_a "one" ∷ static_route net_b "two" ∷ [])
      (2 ∷ [])
      (match_route tiny (static_route net_a "one" ∷ static_route net_b "two" ∷ []) "two")
match_route-IsBestOf_example =
    match_route-IsBestOf tiny (static_route net_a "one" ∷ static_route net_b "two" ∷ []) "two"
      tiny-short

abbrev packet : String → String → Ipv4Packet Unit
packet source destination = record {
  version = 4;
  ttl = 64;
  protocol = 1;
  dscp = 0;
  source_ip = source;
  destination_ip = destination;
  src_port = 0;
  dst_port = 0;
  body = tt;
}

abbrev permit_icmp : AclRule
permit_icmp = record {
  action = "permit";
  protocol = "icmp";
  src_net = "any";
  dst_net = "any";
  src_port = 0;
  dst_port = 0;
}

evaluate_acl-add_acl_rule_example :
    evaluate_acl tiny (add_acl_rule [] "in" permit_icmp) "in" (packet "one" "two") ≡ true
unfolding get rule_matches match_acl_net
evaluate_acl-add_acl_rule_example =
    evaluate_acl-add_acl_rule tiny [] "in" "in" permit_icmp (packet "one" "two") refl

abbrev pinned : NatEntry
pinned = record { inside_local = "h1"; inside_global = "g1"; outside_global = "g1" }

abbrev pinned_table : NatTable
pinned_table = record { overload = false; static = pinned ∷ []; pat = [] }

abbrev pinned_router : NatRouter
pinned_router = record {
  interfaces = ("out", "g0") ∷ [];
  nat_outside = ("out", true) ∷ [];
  nat = some pinned_table;
}

translate_inbound-translate_outbound_example :
    let sent = translate_outbound pinned_router "out" (packet "h1" "web") in
    translate_inbound sent.0 "out" (with_destination (packet "web" "") sent.1.source_ip)
    ≡ packet "web" "h1"
unfolding get static_out static_in
translate_inbound-translate_outbound_example =
    translate_inbound-translate_outbound pinned_router "out" (packet "h1" "web") (packet "web" "")
      pinned_table pinned refl refl (refl, refl, tt) refl

abbrev asa : AsaFirewall
asa = record {
  id = "fw";
  interfaces = [];
  interface_mac = [];
  interface_mask = [];
  interface_zone = ("in", "inside") ∷ ("out", "outside") ∷ [];
  rules = [];
  conn_table = [];
  inspection_on = true;
}

abbrev deny_all : AclRule
deny_all = record {
  action = "deny";
  protocol = "ip";
  src_net = "any";
  dst_net = "any";
  src_port = 0;
  dst_port = 0;
}

inspect_packet-established_example :
    let after = inspect_packet tiny (λ _. "1") asa "in" (packet "one" "two") 5 in
    (after.1 ≡ true)
    × ((inspect_packet tiny
          (λ _. "1")
          (add_rules after.0 (deny_all ∷ []))
          "out"
          (packet "one" "two")
          1000000).1
        ≡ true)
unfolding get evaluate_rules
inspect_packet-established_example =
    inspect_packet-established tiny (λ _. "1") asa "in" "out" (packet "one" "two")
      (packet "one" "two") (deny_all ∷ []) 5 1000000 refl refl refl refl (ground arith)
      (ground arith)

abbrev event : String → Int64 → Event Unit
event message t = record {
  sim_time = t;
  category = "link";
  node_id = "R1";
  port_id = "g0";
  message = message;
  details = tt;
}

record_events-last_of_example :
    (record_events
      (record { entries = []; max_size = 2 })
      (event "a" 1 ∷ event "b" 2 ∷ event "c" 3 ∷ [])).entries
    ≡ entry_of (event "b" 2) ∷ entry_of (event "c" 3) ∷ []
unfolding last_of
record_events-last_of_example =
    record_events-last_of (record { entries = []; max_size = 2 })
      (event "a" 1 ∷ event "b" 2 ∷ event "c" 3 ∷ []) (ground arith) (ground arith) (ground arith)

get_startup-write_memory_example :
    let store : ConfigStore = ("R1", record { running = "hostname R1" ∷ []; startup = [] }) ∷ [] in
    let after = append_lines (write_memory store "R1") "R1" ("router rip" ∷ []) in
    (get_startup after "R1" ≡ "hostname R1" ∷ [])
    × (get_running after "R1" ≡ "hostname R1" ∷ "router rip" ∷ [])
unfolding get get_running
get_startup-write_memory_example =
    get_startup-write_memory (("R1", record { running = "hostname R1" ∷ []; startup = [] }) ∷ [])
      "R1" "R1" ("router rip" ∷ [])
