-- ===== src/Topology.antt =====
-- The manager's topology (src-tauri/engine/network/manager.go and device.go): the devices by their
-- names, the links between their ports, and the pings in flight. A device that the source reaches
-- through a pointer is written where it stands in its map. The WAN manager, the logs, the call
-- managers and the scheduler are modelled with their own files and stand outside this record. The
-- goroutine that AddLink starts is `try_auto_negotiate_ike` of Ipsec/Negotiation.antt, a later step.
pub mod Cables
pub mod Removal
pub mod Routes
pub mod Addresses
pub mod Purged
pub mod Timers
pub mod Pending
pub mod Alive
use netforge.Asa.{AsaFirewall}
use netforge.Device.{
  Router, LinkText, new_router, assign_link_address, set_neighbor, route_static, dist_static,
  text_of,
}
use netforge.Host.{Host, new_host, set_uplink}
use netforge.Mobile.{CellularGateway, MobileUe}
use netforge.Net.{Net}
use netforge.Rip.{RipDaemon, add_neighbor}
use netforge.Router.{add_route}
use netforge.Switch.{Switch, new_switch, register_port}
use netforge.Voip.{VoipPhone}
use netforge.Wireless.{AccessPoint}
use netforge.Prelude.{
  ℕ, String, Bool, true, false, ◌&&◌, ◌||◌, not, Option, none, some, List, [], ◌∷◌, ◌++◌, length,
  ◌==◌, nat_eq, string_eq, if◌then◌else◌, Result, ok, err,
}
use netforge.Prelude.Int64.{Int64}
use netforge.Prelude.GoMap.{GoMap, get, put}

-- The length is a float64, which is only passed on: its 64-bit pattern.
pub record TopologyLink : Type 0 where
  pub id : String
  pub source_node_id : String
  pub source_port_id : String
  pub target_node_id : String
  pub target_port_id : String
  pub cable_length : ℕ
  pub bandwidth : Int64

-- dataplane.go; the target of the reply is its request.
pub record PingSession : Type 0 where
  pub id : String
  pub source_id : String
  pub dest_ip : String
  pub icmp_id : ℕ
  pub sequence : ℕ
  pub sent_at : Int64
  pub request_id : String

pub record PingResult : Type 0 where
  pub source_id : String
  pub dest_ip : String
  pub success : Bool
  pub rtt : ℕ
  pub message : String
  pub request_id : String

pub record Manager (P Q : Type 0) : Type 0 where
  pub routers : GoMap String (Router P Q)
  pub switches : GoMap String Switch
  pub hosts : GoMap String (Host P Q)
  pub access_points : GoMap String AccessPoint
  pub asa_firewalls : GoMap String AsaFirewall
  pub voip_phones : GoMap String VoipPhone
  pub cellular_gateways : GoMap String CellularGateway
  pub mobile_ues : GoMap String MobileUe
  pub links : List TopologyLink
  pub ping_sessions : GoMap String PingSession
  pub pending_ping_results : List PingResult

pub data TopologyError : Type 0 where
  device_not_found : String → TopologyError
  link_not_found : String → TopologyError
  bad_cidr : String → TopologyError

-- device.go
pub data DeviceType : Type 0 where
  device_router device_switch device_host device_ap device_asa : DeviceType

abbrev pub has {ℓ} : {A : Type ℓ} → Option A → Bool
has none = false
has (some a) = true

abbrev pub is_source : TopologyLink → String → String → Bool
is_source l node_id port_id = l.source_node_id == node_id && l.source_port_id == port_id

abbrev pub is_target : TopologyLink → String → String → Bool
is_target l node_id port_id = l.target_node_id == node_id && l.target_port_id == port_id

-- The node and port at the other end of the first link of a port. ResolveLinkPeer has the same loop
-- and also returns the length and the bandwidth of the link.
unfoldable pub find_neighbor_on_port :
    List TopologyLink → String → String → Option (String × String)
find_neighbor_on_port [] node_id port_id = none
find_neighbor_on_port (l ∷ rest) node_id port_id =
    if is_source l node_id port_id
    then some (l.target_node_id, l.target_port_id)
    else if is_target l node_id port_id
    then some (l.source_node_id, l.source_port_id)
    else find_neighbor_on_port rest node_id port_id

-- The node, the port, the bandwidth and the length.
unfoldable pub resolve_link_peer :
    List TopologyLink → String → String → Option (String × String × Int64 × ℕ)
resolve_link_peer [] node_id port_id = none
resolve_link_peer (l ∷ rest) node_id port_id =
    if is_source l node_id port_id
    then some (l.target_node_id, l.target_port_id, l.bandwidth, l.cable_length)
    else if is_target l node_id port_id
    then some (l.source_node_id, l.source_port_id, l.bandwidth, l.cable_length)
    else resolve_link_peer rest node_id port_id

-- `if r.Rip != nil && r.Rip.Enabled && ip != "" { r.Rip.AddNeighbor(port, ip) }`
abbrev pub add_rip_neighbor : Option RipDaemon → String → String → Option RipDaemon
add_rip_neighbor none port ip = none
add_rip_neighbor (some d) port ip =
    some (if d.enabled && not (ip == "") then add_neighbor d port ip else d)

abbrev pub register_at : GoMap String Switch → String → String → GoMap String Switch
register_at switches node_id port_id = elim (get switches node_id) [
  | none ↦ switches
  | some sw ↦ put switches node_id (register_port sw port_id)
]

module _ {P Q : Type 0} where
  -- A call of a method through the pointer that the map holds.
  abbrev pub change_at :
      (Router P Q → Router P Q) → String → GoMap String (Router P Q) → GoMap String (Router P Q)
  change_at f id routers = elim (get routers id) [ none ↦ routers | some r ↦ put routers id (f r) ]

  abbrev pub ip_at : GoMap String (Router P Q) → String → String → String
  ip_at routers id port = elim (get routers id) [
    | none ↦ ""
    | some r ↦ text_of (get r.interfaces port)
  ]

  unfoldable pub new_manager : Manager P Q
  new_manager = record {
    routers = [];
    switches = [];
    hosts = [];
    access_points = [];
    asa_firewalls = [];
    voip_phones = [];
    cellular_gateways = [];
    mobile_ues = [];
    links = [];
    ping_sessions = [];
    pending_ping_results = [];
  }

  unfoldable pub add_router : Manager P Q → String → Manager P Q
  add_router m id = record m { routers = put m.routers id (new_router id) }

  unfoldable pub add_switch : Manager P Q → String → Manager P Q
  add_switch m id = record m { switches = put m.switches id (new_switch id) }

  unfoldable pub add_host : Manager P Q → String → Manager P Q
  add_host m id = record m { hosts = put m.hosts id (new_host id) }

  unfoldable pub node_type_of : Manager P Q → String → Option DeviceType
  node_type_of m node_id =
      if has (get m.routers node_id)
      then some device_router
      else if has (get m.switches node_id)
      then some device_switch
      else if has (get m.hosts node_id)
      then some device_host
      else if has (get m.access_points node_id)
      then some device_ap
      else if has (get m.asa_firewalls node_id)
      then some device_asa
      else none

  abbrev pub uplink_at : GoMap String (Host P Q) → String → String → GoMap String (Host P Q)
  uplink_at hosts node_id peer = elim (get hosts node_id) [
    | none ↦ hosts
    | some host ↦ put hosts node_id (set_uplink host peer)
  ]

  -- What one end of a link between routers is given: its address, then its neighbour.
  abbrev pub addressed : Net → LinkText → Router P Q → String → ℕ → Bool → Router P Q
  addressed net text r port_id link_index is_first =
      assign_link_address net text r port_id link_index is_first

  abbrev pub with_rip_neighbor : Router P Q → String → String → Router P Q
  with_rip_neighbor r port_id ip = record r { rip = add_rip_neighbor r.rip port_id ip }

  -- The loop of RefreshRipNeighbors.
  unfoldable pub refresh_rip_neighbors :
      GoMap String (Router P Q) → List TopologyLink → GoMap String (Router P Q)
  refresh_rip_neighbors routers [] = routers
  refresh_rip_neighbors routers (l ∷ rest) =
      let src_ip = ip_at routers l.source_node_id l.source_port_id in
      let dst_ip = ip_at routers l.target_node_id l.target_port_id in
      let one =
        change_at (λ r. with_rip_neighbor r l.source_port_id dst_ip) l.source_node_id routers in
      let two = change_at (λ r. with_rip_neighbor r l.target_port_id src_ip) l.target_node_id one in
      refresh_rip_neighbors
        (if has (get routers l.source_node_id) && has (get routers l.target_node_id)
          then two
          else routers)
        rest

  abbrev pub neighbored : Router P Q → String → String → String → String → Router P Q
  neighbored r port_id peer_id peer_port peer_ip =
      let known = set_neighbor r port_id peer_id peer_port peer_ip in
      record known { rip = add_rip_neighbor known.rip port_id peer_ip }

  -- The branch of applyLinkState where both ends are routers. The second router is read again after
  -- the write of the first, since a link may have both its ends at one router.
  unfoldable pub link_routers :
      Net → LinkText → GoMap String (Router P Q) → TopologyLink → ℕ → GoMap String (Router P Q)
  unfolding assign_link_address set_neighbor
  link_routers net text routers link link_index = elim (get routers link.source_node_id) [
    | none ↦ routers
    | some src ↦ elim (get routers link.target_node_id) [
      | none ↦ routers
      | some dst ↦
          let one =
            change_at (λ r. addressed net text r link.source_port_id link_index true)
              link.source_node_id routers in
          let two =
            change_at (λ r. addressed net text r link.target_port_id link_index false)
              link.target_node_id one in
          let src_ip = ip_at two link.source_node_id link.source_port_id in
          let dst_ip = ip_at two link.target_node_id link.target_port_id in
          let three =
            change_at
              (λ r. neighbored r link.source_port_id link.target_node_id link.target_port_id dst_ip)
              link.source_node_id two in
          change_at
            (λ r. neighbored r link.target_port_id link.source_node_id link.source_port_id src_ip)
            link.target_node_id three
    ]
  ]

  unfoldable pub add_link : Net → LinkText → Manager P Q → TopologyLink → Manager P Q
  unfolding link_routers register_port set_uplink
  add_link net text m link =
      let links = m.links ++ link ∷ [] in
      record m {
        links = links;
        switches =
            register_at (register_at m.switches link.source_node_id link.source_port_id)
              link.target_node_id link.target_port_id;
        routers = link_routers net text m.routers link (length links);
        hosts =
            uplink_at (uplink_at m.hosts link.source_node_id link.target_node_id)
              link.target_node_id link.source_node_id;
      }

  unfoldable pub add_static_route :
      Net
      → Manager P Q
      → String
      → String
      → String
      → String
      → Int64
      → Result TopologyError (Manager P Q)
  unfolding add_route
  add_static_route net m router_id cidr next_hop iface metric = elim (get m.routers router_id) [
    | none ↦ err (device_not_found router_id)
    | some r ↦
        elim (add_route net r.routing_table cidr next_hop iface metric route_static dist_static) [
          | none ↦ err (bad_cidr cidr)
          | some table ↦
              ok (record m {
                routers = put m.routers router_id (record r { routing_table = table });
              })
        ]
  ]
