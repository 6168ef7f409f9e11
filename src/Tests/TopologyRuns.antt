-- ===== src/Tests/TopologyRuns.antt =====
-- Two routers with a link and a tunnel between them.
use netforge.Device.{Router, LinkText, new_router}
use netforge.Ipsec.{Visits, encapsulate_esp, decapsulate_esp}
use netforge.Ipsec.Negotiation.{negotiate_ike}
use netforge.Ipsec.Tunnels.{HasPeer, negotiate_ike-tunnel}
use netforge.Net.{Net}
use netforge.Pdu.{Ipv4Packet}
use netforge.Prelude.{ℕ, ◌≡◌, ◌↔◌, refl, String, Bool, false, none, some, [], ◌∷◌, string_eq, ok}
use netforge.Prelude.GoMap.{GoMap, get}
use netforge.Topology.{Manager, TopologyLink, new_manager, find_neighbor_on_port, add_link}
use netforge.Topology.Cables.{IsCabled, find_neighbor-add_link}
use netforge.VpnConfig.{IkePeerState}

abbrev vpn_router : String → String → String → Router ℕ ℕ
vpn_router id ip peer = record (new_router id) {
  interfaces = ("s0", ip) ∷ [];
  pre_shared_keys = (peer, "key") ∷ [];
}

abbrev vpn_routers : GoMap String (Router ℕ ℕ)
vpn_routers =
    ("R1", vpn_router "R1" "203.0.113.1" "203.0.113.2")
    ∷ ("R2", vpn_router "R2" "203.0.113.2" "203.0.113.1")
    ∷ []

abbrev no_prefix : String → String → Bool
no_prefix s prefix = false

abbrev inner : Ipv4Packet ℕ
inner = record {
  version = 4;
  ttl = 64;
  protocol = 6;
  dscp = 0;
  source_ip = "10.1.0.5";
  destination_ip = "10.2.0.5";
  src_port = 1024;
  dst_port = 80;
  body = 3;
}

abbrev kept : Visits
kept = record { mapped = λ ports. ports; public = λ ports. ports; all = λ ports. ports }

negotiate_ike-tunnel_example :
    (after : GoMap String (Router ℕ ℕ)) × (l : Router ℕ ℕ) × (r : Router ℕ ℕ) × (negotiate_ike
        no_prefix kept kept vpn_routers "R1" "203.0.113.2" "" 9
      ≡ ok after)
    × (get after "R1" ≡ some l)
    × (get after "R2" ≡ some r)
    × HasPeer l "203.0.113.2"
    × HasPeer r "203.0.113.1"
    × ((peer : IkePeerState)
        → (decapsulate_esp r (encapsulate_esp l inner peer "s0") ≡ some inner)
          × (decapsulate_esp l (encapsulate_esp r inner peer "s0") ≡ some inner))
unfolding get new_router netforge.Ipsec.Negotiation.find_router_by_peer_ip netforge.Device.owns_ip
    netforge.Ipsec.public_ip netforge.Ipsec.Negotiation.local_key
    netforge.Ipsec.Negotiation.remote_key netforge.Ipsec.get_psk
negotiate_ike-tunnel_example =
    negotiate_ike-tunnel no_prefix kept kept vpn_routers "R1" "R2" "203.0.113.2" "" "s0" "s0" 9
      (vpn_router "R1" "203.0.113.1" "203.0.113.2") (vpn_router "R2" "203.0.113.2" "203.0.113.1")
      inner (refl, (refl, tt)) refl refl refl refl refl refl

abbrev cable : TopologyLink
cable = record {
  id = "L1";
  source_node_id = "R1";
  source_port_id = "s0";
  target_node_id = "R2";
  target_port_id = "s0";
  cable_length = 0;
  bandwidth = 1000;
}

abbrev lab : Manager ℕ ℕ
lab = record new_manager { routers = vpn_routers; links = [] }

abbrev no_net : Net
no_net = record {
  parse_ip = λ s. [];
  parse_cidr = λ s. none;
  contains = λ n ip. false;
  to4 = λ ip. ip;
  mask_ip = λ ip mask. ip;
  equal = λ a b. false;
  ip_string = λ ip. "";
  net_string = λ n. "";
  mask_ones = λ mask. 0;
}

abbrev texts : LinkText
texts = record { link_ip = λ a b c. "10.0.0.1"; link_mac = λ a b c. "m" }

find_neighbor-add_link_example :
    let links = (add_link no_net texts lab cable).links in
    IsCabled links
    × (find_neighbor_on_port links "R1" "s0" ≡ some ("R2", "s0"))
    × (find_neighbor_on_port links "R2" "s0" ≡ some ("R1", "s0"))
    × ((find_neighbor_on_port links "R1" "s0" ≡ some ("R2", "s0"))
        ↔ (find_neighbor_on_port links "R2" "s0" ≡ some ("R1", "s0")))
unfolding find_neighbor_on_port
find_neighbor-add_link_example =
    find_neighbor-add_link no_net texts lab cable "R1" "s0" "R2" "s0" tt refl refl refl
