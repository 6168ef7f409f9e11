-- ===== src/Host.antt =====
-- An end station (src-tauri/engine/network/host.go): its addresses, the caches of hardware addresses
-- and the packets that wait for one. IPv4 packets are of the type `P` and IPv6 packets of `Q`; the
-- host only keeps them.
pub mod Delivery
use netforge.Net.{Net, is_nil}
use netforge.Neighbors.{ArpEntry, lookup_mac, learn_mac, enqueue, dequeue}
use netforge.Prelude.{
  ℕ, String, Bool, true, false, ◌||◌, not, Option, none, some, List, [], ◌∷◌, ◌==◌, string_eq,
  if◌then◌else◌,
}
use netforge.Prelude.Int64.{Int64}
use netforge.Prelude.GoMap.{GoMap}

pub record Host (P Q : Type 0) : Type 0 where
  pub id : String
  pub ip : String
  pub ipv6 : String
  pub mask : String
  pub gateway : String
  pub ipv6_gateway : String
  pub mac : String
  pub port_id : String
  pub uplink_node : String
  pub arp_cache : GoMap String ArpEntry
  pub ndp_cache : GoMap String ArpEntry
  pub packet_queue : GoMap String (List P)
  pub ipv6_queue : GoMap String (List Q)

pub record HostSnapshot : Type 0 where
  pub id : String
  pub ip : String
  pub mask : String
  pub gateway : String
  pub mac : String
  pub port_id : String
  pub uplink_node : String

-- `ipAddr.Mask(maskAddr).Equal(hostIP.Mask(maskAddr))`, false where an address or the mask is nil.
unfoldable pub same_network : Net → List ℕ → List ℕ → List ℕ → Bool
same_network net ip_addr mask_addr host_ip =
    if is_nil ip_addr || is_nil mask_addr
    then false
    else net.equal (net.mask_ip ip_addr mask_addr) (net.mask_ip host_ip mask_addr)

module _ {P Q : Type 0} where
  unfoldable pub new_host : String → Host P Q
  new_host id = record {
    id = id;
    ip = "";
    ipv6 = "";
    mask = "";
    gateway = "";
    ipv6_gateway = "";
    mac = "";
    port_id = "FastEthernet0";
    uplink_node = "";
    arp_cache = [];
    ndp_cache = [];
    packet_queue = [];
    ipv6_queue = [];
  }

  unfoldable pub configure_ipv6 : Host P Q → String → String → Host P Q
  configure_ipv6 h ip gateway = record h { ipv6 = ip; ipv6_gateway = gateway }

  unfoldable pub owns_ipv6 : Host P Q → String → Bool
  owns_ipv6 h ip = h.ipv6 == ip

  unfoldable pub lookup_ndp : Host P Q → String → Int64 → Option String
  unfolding lookup_mac
  lookup_ndp h ip sim_time = lookup_mac h.ndp_cache ip sim_time

  unfoldable pub learn_ndp : Host P Q → String → String → Int64 → Host P Q
  unfolding learn_mac
  learn_ndp h ip mac sim_time = record h { ndp_cache = learn_mac h.ndp_cache ip mac sim_time }

  unfoldable pub queue_ipv6_packet : Host P Q → String → Q → Host P Q
  unfolding enqueue
  queue_ipv6_packet h next_hop pkt = record h { ipv6_queue = enqueue h.ipv6_queue next_hop pkt }

  unfoldable pub dequeue_ipv6 : Host P Q → String → Host P Q × List Q
  unfolding dequeue
  dequeue_ipv6 h next_hop =
      let (queue, pkts) = dequeue h.ipv6_queue next_hop in (record h { ipv6_queue = queue }, pkts)

  unfoldable pub resolve_next_hop_ipv6 : Host P Q → String → String
  resolve_next_hop_ipv6 h dest = if not (h.ipv6_gateway == "") then h.ipv6_gateway else dest

  unfoldable pub configure : Host P Q → String → String → String → String → Host P Q
  configure h ip mask gateway mac = record h { ip = ip; mask = mask; gateway = gateway; mac = mac }

  unfoldable pub set_uplink : Host P Q → String → Host P Q
  set_uplink h node_id = record h { uplink_node = node_id }

  -- IsLocalAddress takes the lock and is otherwise isLocalLocked.
  unfoldable pub is_local : Net → Host P Q → String → Bool
  unfolding same_network
  is_local net h ip =
      same_network net (net.parse_ip ip) (net.to4 (net.parse_ip h.mask)) (net.parse_ip h.ip)

  unfoldable pub resolve_next_hop_ip : Net → Host P Q → String → String
  unfolding is_local
  resolve_next_hop_ip net h dest =
      if is_local net h dest then dest else if not (h.gateway == "") then h.gateway else dest

  unfoldable pub lookup_arp : Host P Q → String → Int64 → Option String
  unfolding lookup_mac
  lookup_arp h ip sim_time = lookup_mac h.arp_cache ip sim_time

  unfoldable pub learn_arp : Host P Q → String → String → Int64 → Host P Q
  unfolding learn_mac
  learn_arp h ip mac sim_time = record h { arp_cache = learn_mac h.arp_cache ip mac sim_time }

  unfoldable pub queue_packet : Host P Q → String → P → Host P Q
  unfolding enqueue
  queue_packet h next_hop pkt = record h { packet_queue = enqueue h.packet_queue next_hop pkt }

  unfoldable pub dequeue_packets : Host P Q → String → Host P Q × List P
  unfolding dequeue
  dequeue_packets h next_hop =
      let (queue, pkts) = dequeue h.packet_queue next_hop in
      (record h { packet_queue = queue }, pkts)

  unfoldable pub owns_ip : Host P Q → String → Bool
  owns_ip h ip = h.ip == ip

  unfoldable pub snapshot : Host P Q → HostSnapshot
  snapshot h = record {
    id = h.id;
    ip = h.ip;
    mask = h.mask;
    gateway = h.gateway;
    mac = h.mac;
    port_id = h.port_id;
    uplink_node = h.uplink_node;
  }

  unfoldable pub restore_host : HostSnapshot → Host P Q
  unfolding new_host configure set_uplink
  restore_host s =
      let h : Host P Q = configure (new_host s.id) s.ip s.mask s.gateway s.mac in
      set_uplink (record h { port_id = s.port_id }) s.uplink_node
