-- ===== src/Device.antt =====
-- A router (src-tauri/engine/network/router_forward.go): its ports, its routes, its caches and its
-- daemons. The fields that only its services read are in the modules of those services. Packets are
-- of the types `P` (IPv4) and `Q` (IPv6). A nil map is empty, a nil daemon is none, and an empty
-- address or port of a missing key is "". `LinkText` stands for the two calls of fmt.Sprintf.
pub mod Arp
pub mod Ipv6
pub mod Processes
pub mod Snapshots
use Prim.Native.String.{◌++◌ as append}
use netforge.Bgp.{BgpDaemon}
use netforge.Eigrp.{EigrpDaemon}
use netforge.Hsrp.{Groups, owns_hsrp_virtual_ip}
use netforge.Neighbors.{ArpEntry, lookup_mac, enqueue}
use netforge.Net.{Net, IpNet, is_nil}
use netforge.Ospf.{OspfDaemon}
use netforge.Rip.{RipDaemon}
use netforge.Router.{RouteEntry, add_route}
use netforge.Router.Acl.{Acls}
use netforge.Router.Cdp.{CdpNeighbor}
use netforge.VpnConfig.{IsakmpPolicy, IpSecTransformSet, CryptoMapEntry, IkePeerState}
use netforge.Prelude.{
  ℕ, ◌+◌, ◌*◌, ◌/◌, ◌%◌, String, Bool, true, false, ◌||◌, Option, none, some, List, [], ◌∷◌, any,
  ◌==◌, string_eq, if◌then◌else◌,
}
use netforge.Prelude.Int64.{Int64}
use netforge.Prelude.GoMap.{GoMap, get, put, values}

pub record PortNeighbor : Type 0 where
  pub router_id : String
  pub port_id : String
  pub remote_ip : String

-- ipv6_stack.go
pub record Ipv6RouteEntry : Type 0 where
  pub network : Option IpNet
  pub next_hop : String
  pub interface : String
  pub metric : Int64
  pub protocol : String

pub record Router (P Q : Type 0) : Type 0 where
  pub id : String
  pub interfaces : GoMap String String
  pub interface_mac : GoMap String String
  pub interface_mask : GoMap String String
  pub routing_table : List RouteEntry
  pub arp_cache : GoMap String ArpEntry
  pub packet_queue : GoMap String (List P)
  pub port_neighbors : GoMap String PortNeighbor
  pub ospf : Option OspfDaemon
  pub rip : Option RipDaemon
  pub eigrp : Option EigrpDaemon
  pub bgp : Option BgpDaemon
  pub ipv6_interfaces : GoMap String String
  pub ipv6_prefixes : GoMap String Int64
  pub ipv6_routes : List Ipv6RouteEntry
  pub ndp_cache : GoMap String ArpEntry
  pub ipv6_queue : GoMap String (List Q)
  pub cdp_neighbors : List CdpNeighbor
  pub hsrp_groups : Groups
  pub acls : Acls
  pub isakmp_policies : GoMap Int64 IsakmpPolicy
  pub transform_sets : GoMap String IpSecTransformSet
  pub crypto_maps : GoMap String (List CryptoMapEntry)
  pub iface_crypto_map : GoMap String String
  pub pre_shared_keys : GoMap String String
  pub ike_peers : GoMap String IkePeerState

-- The index of a map of texts, "" for a missing key.
abbrev pub text_of : Option String → String
text_of none = ""
text_of (some text) = text

abbrev pub route_connected : String
route_connected = "C"

abbrev pub route_static : String
route_static = "S"

-- AdminDistConnected and AdminDistStatic
abbrev pub dist_connected : Int64
dist_connected = 0

abbrev pub dist_static : Int64
dist_static = 1

-- router.go
unfoldable pub ip_to_cidr : Net → String → String → String
ip_to_cidr net ip mask =
    let ip_addr = net.parse_ip ip in
    let mask_addr = net.to4 (net.parse_ip mask) in
    if is_nil ip_addr || is_nil mask_addr
    then append ip "/24"
    else net.net_string (record { ip = net.mask_ip ip_addr mask_addr; mask = mask_addr })

-- The table where the network does not parse: the error is dropped.
abbrev pub table_or : List RouteEntry → Option (List RouteEntry) → List RouteEntry
table_or table none = table
table_or _ (some table) = table

-- fmt.Sprintf with the formats of AssignLinkAddress.
pub record LinkText : Type 0 where
  pub link_ip : ℕ → ℕ → ℕ → String
  pub link_mac : ℕ → ℕ → ℕ → String

abbrev pub link_mask : String
link_mask = "255.255.255.252"

-- The address and the hardware address of an end of a link.
unfoldable pub link_address : LinkText → ℕ → Bool → String
link_address text link_index is_first =
    text.link_ip (link_index * 4 / 256) (link_index * 4 % 256) (if is_first then 1 else 2)

unfoldable pub link_mac_address : LinkText → ℕ → String
link_mac_address text link_index =
    text.link_mac (link_index * 4 / 256) (link_index * 4 % 256) (link_index % 254 + 1)

module _ {P Q : Type 0} where
  unfoldable pub new_router : String → Router P Q
  new_router id = record {
    id = id;
    interfaces = [];
    interface_mac = [];
    interface_mask = [];
    routing_table = [];
    arp_cache = [];
    packet_queue = [];
    port_neighbors = [];
    ospf = none;
    rip = none;
    eigrp = none;
    bgp = none;
    ipv6_interfaces = [];
    ipv6_prefixes = [];
    ipv6_routes = [];
    ndp_cache = [];
    ipv6_queue = [];
    cdp_neighbors = [];
    hsrp_groups = [];
    acls = [];
    isakmp_policies = [];
    transform_sets = [];
    crypto_maps = [];
    iface_crypto_map = [];
    pre_shared_keys = [];
    ike_peers = [];
  }

  unfoldable pub add_interface : Net → Router P Q → String → String → String → String → Router P Q
  unfolding ip_to_cidr add_route
  add_interface net r port_id ip mask mac = record r {
    interfaces = put r.interfaces port_id ip;
    interface_mask = put r.interface_mask port_id mask;
    interface_mac = put r.interface_mac port_id mac;
    routing_table = table_or r.routing_table (
        add_route net r.routing_table (ip_to_cidr net ip mask) "" port_id 0 route_connected
          dist_connected);
  }

  -- The index is the number of links, so it is no negative number, and neither are the quotients.
  unfoldable pub assign_link_address : Net → LinkText → Router P Q → String → ℕ → Bool → Router P Q
  unfolding add_interface link_address link_mac_address
  assign_link_address net text r port_id link_index is_first = elim (get r.interfaces port_id) [
    | some exists ↦ r
    | none ↦
        add_interface net r port_id (link_address text link_index is_first) link_mask
          (link_mac_address text link_index)
  ]

  unfoldable pub set_neighbor : Router P Q → String → String → String → String → Router P Q
  set_neighbor r local_port remote_router_id remote_port remote_ip = record r {
    port_neighbors =
        put r.port_neighbors local_port
          (record { router_id = remote_router_id; port_id = remote_port; remote_ip = remote_ip });
  }

  unfoldable pub owns_ip : Router P Q → String → Bool
  unfolding owns_hsrp_virtual_ip
  owns_ip r ip =
      any (λ iface_ip. iface_ip == ip) (values r.interfaces)
      || owns_hsrp_virtual_ip r.hsrp_groups ip

  unfoldable pub lookup_arp : Router P Q → String → Int64 → Option String
  unfolding lookup_mac
  lookup_arp r ip sim_time = lookup_mac r.arp_cache ip sim_time

  unfoldable pub queue_packet : Router P Q → String → P → Router P Q
  unfolding enqueue
  queue_packet r next_hop pkt = record r { packet_queue = enqueue r.packet_queue next_hop pkt }
