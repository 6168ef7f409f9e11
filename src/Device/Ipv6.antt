-- ===== src/Device/Ipv6.antt =====
-- IPv6 on a router (src-tauri/engine/network/ipv6_stack.go): its addresses and routes, and
-- neighbour discovery. A nil network, of an address that does not parse, is none; net.CIDRMask is a
-- parameter.
pub mod Longest
use netforge.Device.{Router, Ipv6RouteEntry, route_connected, text_of}
use netforge.Neighbors.{lookup_mac, learn_mac, enqueue, dequeue}
use netforge.Net.{Net, IpNet, is_nil}
use netforge.Pdu.{
  NdpPacket, Codec, WireFrame, ndp_neighbor_solicit, ndp_neighbor_advert, mac_ipv6_multicast,
  new_ndp_frame, wire_from,
}
use netforge.Prelude.{
  ℕ, String, Bool, true, false, ◌&&◌, ◌||◌, not, Option, none, some, List, [], ◌∷◌, ◌++◌, any, ◌==◌,
  nat_eq, string_eq, if◌then◌else◌,
}
use netforge.Prelude.Int64.{Int64, lt64, minus_one}
use netforge.Prelude.GoMap.{GoMap, get, put, values}

unfoldable pub ipv6_cidr : Net → (Int64 → List ℕ) → String → Int64 → Option IpNet
ipv6_cidr net cidr_mask ip prefix_len =
    let ip_addr = net.parse_ip ip in
    let mask = cidr_mask prefix_len in
    if is_nil ip_addr then none else some (record { ip = net.mask_ip ip_addr mask; mask = mask })

-- The two variables of MatchIPv6Route's loop.
pub record BestIpv6 : Type 0 where
  pub best : Option Ipv6RouteEntry
  pub best_len : Int64

abbrev pub covers : Net → List ℕ → Ipv6RouteEntry → Bool
covers net target entry = elim entry.network [
  | none ↦ false
  | some network ↦ not (is_nil target) && net.contains network target
]

abbrev pub ones_of : Net → Option IpNet → Int64
ones_of net none = 0
ones_of net (some network) = net.mask_ones network.mask

abbrev pub prefix_ones : Net → Ipv6RouteEntry → Int64
prefix_ones net entry = ones_of net entry.network

unfoldable pub consider_ipv6 : Net → List ℕ → BestIpv6 → Ipv6RouteEntry → BestIpv6
consider_ipv6 net target b entry =
    if covers net target entry && lt64 b.best_len (prefix_ones net entry)
    then record { best = some entry; best_len = prefix_ones net entry }
    else b

unfoldable pub consider_routes : Net → List ℕ → BestIpv6 → List Ipv6RouteEntry → BestIpv6
unfolding consider_ipv6
consider_routes net target b [] = b
consider_routes net target b (entry ∷ rest) =
    consider_routes net target (consider_ipv6 net target b entry) rest

unfoldable pub match_ipv6_route : Net → List Ipv6RouteEntry → String → Option Ipv6RouteEntry
unfolding consider_routes
match_ipv6_route net routes dest =
    let start : BestIpv6 = record { best = none; best_len = minus_one } in
    (consider_routes net (net.parse_ip dest) start routes).best

-- The loop of HandleNDP: the address of the port, where it is the target.
unfoldable pub solicited : GoMap String String → String → String → Option String
solicited [] port_id target_ip = none
solicited ((port, iface_ip) ∷ rest) port_id target_ip =
    if iface_ip == target_ip && port == port_id
    then some iface_ip
    else solicited rest port_id target_ip

module _ {P Q : Type 0} where
  unfoldable pub add_ipv6_interface :
      Net → (Int64 → List ℕ) → Router P Q → String → String → Int64 → Router P Q
  unfolding ipv6_cidr
  add_ipv6_interface net cidr_mask r port_id ip prefix_len = record r {
    ipv6_interfaces = put r.ipv6_interfaces port_id ip;
    ipv6_prefixes = put r.ipv6_prefixes port_id prefix_len;
    ipv6_routes =
        r.ipv6_routes
        ++ record {
          network = ipv6_cidr net cidr_mask ip prefix_len;
          next_hop = "";
          interface = port_id;
          metric = 0;
          protocol = route_connected;
        }
          ∷ [];
  }

  unfoldable pub owns_ipv6 : Router P Q → String → Bool
  owns_ipv6 r ip = any (λ iface_ip. iface_ip == ip) (values r.ipv6_interfaces)

  unfoldable pub lookup_ndp : Router P Q → String → Int64 → Option String
  unfolding lookup_mac
  lookup_ndp r ip sim_time = lookup_mac r.ndp_cache ip sim_time

  unfoldable pub learn_ndp : Router P Q → String → String → Int64 → Router P Q
  unfolding learn_mac
  learn_ndp r ip mac sim_time = record r { ndp_cache = learn_mac r.ndp_cache ip mac sim_time }

  unfoldable pub queue_ipv6_packet : Router P Q → String → Q → Router P Q
  unfolding enqueue
  queue_ipv6_packet r next_hop pkt = record r { ipv6_queue = enqueue r.ipv6_queue next_hop pkt }

  unfoldable pub dequeue_ipv6 : Router P Q → String → Router P Q × List Q
  unfolding dequeue
  dequeue_ipv6 r next_hop =
      let (queue, pkts) = dequeue r.ipv6_queue next_hop in (record r { ipv6_queue = queue }, pkts)

  unfoldable pub build_ndp_solicit : Codec → Router P Q → String → String → WireFrame
  unfolding new_ndp_frame
  build_ndp_solicit codec r port_id target =
      let src_mac = text_of (get r.interface_mac port_id) in
      let ndp : NdpPacket = record {
        type = ndp_neighbor_solicit;
        target_ip = target;
        sender_ip = text_of (get r.ipv6_interfaces port_id);
        sender_mac = src_mac;
        target_mac = "";
      } in
      wire_from "" r.id port_id (new_ndp_frame codec mac_ipv6_multicast src_mac ndp)

  abbrev pub advert_frame : Codec → Router P Q → String → NdpPacket → String → WireFrame
  advert_frame codec r port_id ndp iface_ip =
      let src_mac = text_of (get r.interface_mac port_id) in
      let reply : NdpPacket = record {
        type = ndp_neighbor_advert;
        target_ip = ndp.target_ip;
        sender_ip = iface_ip;
        sender_mac = src_mac;
        target_mac = ndp.sender_mac;
      } in
      wire_from "" r.id port_id (new_ndp_frame codec ndp.sender_mac src_mac reply)

  abbrev pub learn_sender : Router P Q → NdpPacket → Int64 → Router P Q
  learn_sender r ndp sim_time =
      if not (ndp.sender_ip == "") && not (ndp.sender_mac == "")
      then learn_ndp r ndp.sender_ip ndp.sender_mac sim_time
      else r

  -- The router, the frame to send, and the packets that have waited. A solicitation that is for no
  -- address of the port falls through to the test for an advertisement, which it is not.
  unfoldable pub handle_ndp :
      Codec → Router P Q → String → NdpPacket → Int64 → Router P Q × Option WireFrame × List Q
  unfolding learn_ndp solicited dequeue_ipv6
  handle_ndp codec r port_id ndp sim_time =
      let learned = learn_sender r ndp sim_time in
      if ndp.type == ndp_neighbor_solicit
      then (elim (solicited r.ipv6_interfaces port_id ndp.target_ip) [
        | some iface_ip ↦ (learned, some (advert_frame codec r port_id ndp iface_ip), [])
        | none ↦ (learned, none, [])
      ])
      else if ndp.type == ndp_neighbor_advert
      then (let (after, waiting) = dequeue_ipv6 learned ndp.sender_ip in (after, none, waiting))
      else (learned, none, [])
