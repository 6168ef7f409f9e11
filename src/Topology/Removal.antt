-- ===== src/Topology/Removal.antt =====
-- The removal of links and devices (src-tauri/engine/network/topology_ops.go). A range over a map
-- that deletes entries is `delete_if`; the set of the removed addresses is the test on their list.
use netforge.Device.{Router, route_connected}
use netforge.Host.{Host}
use netforge.Mobile.{CellularGateway, MobileUe}
use netforge.Ospf.{OspfDaemon, RouterLsa}
use netforge.Rip.{RipDaemon}
use netforge.Router.{RouteEntry}
use netforge.Topology.{
  Manager, TopologyLink, TopologyError, device_not_found, link_not_found, PingSession, PingResult,
  has,
}
use netforge.Prelude.{
  String, Bool, false, ◌||◌, not, Option, none, some, List, [], ◌∷◌, ◌++◌, any, keep, ◌==◌,
  string_eq, if◌then◌else◌, Result, ok, err,
}
use netforge.Prelude.GoMap.{GoMap, get, delete, delete_if, values}

abbrev pub in_set : List String → String → Bool
in_set ips ip = any (λ x. x == ip) ips

abbrev pub touches : String → TopologyLink → Bool
touches node_id l = l.source_node_id == node_id || l.target_node_id == node_id

-- RemoveLink of the list of links.
unfoldable pub remove_link : List TopologyLink → String → Result TopologyError (List TopologyLink)
remove_link links link_id =
    if any (λ l. l.id == link_id) links
    then ok (keep (λ l. not (l.id == link_id)) links)
    else err (link_not_found link_id)

abbrev pub delete_all : GoMap String RouterLsa → List String → GoMap String RouterLsa
delete_all lsdb [] = lsdb
delete_all lsdb (ip ∷ ips) = delete_all (delete lsdb ip) ips

unfoldable pub purge_ospf : OspfDaemon → String → List String → OspfDaemon
purge_ospf o removed_node_id ips =
    if o.enabled
    then record o {
      neighbors = delete_if (λ ip n. in_set ips ip) o.neighbors;
      lsdb = delete_all (delete o.lsdb removed_node_id) ips;
    }
    else o

unfoldable pub purge_rip : RipDaemon → List String → RipDaemon
purge_rip d ips = record d {
  neighbors = delete_if (λ port neighbor_ip. in_set ips neighbor_ip) d.neighbors;
}

abbrev pub map_some {ℓ κ} : {A : Type ℓ} {B : Type κ} → (A → B) → Option A → Option B
map_some f none = none
map_some f (some a) = some (f a)

-- A route survives where it is connected or its next hop is no removed address.
abbrev pub survives : List String → RouteEntry → Bool
survives ips route = route.protocol == route_connected || not (in_set ips route.next_hop)

-- `if ip != "" { ips = append(ips, ip) }`
abbrev pub if_set : String → List String
if_set ip = if not (ip == "") then ip ∷ [] else []

abbrev pub gateway_ips : Option CellularGateway → List String
gateway_ips none = []
gateway_ips (some gw) = values gw.interfaces ++ if_set gw.public_ip

abbrev pub ue_ips : Option MobileUe → List String
ue_ips none = []
ue_ips (some ue) = if_set ue.ip

-- The result that a ping of the removed device ends with.
abbrev pub cancelled : PingSession → PingResult
cancelled sess = record {
  source_id = sess.source_id;
  dest_ip = sess.dest_ip;
  success = false;
  rtt = 0;
  message = "source device removed";
  request_id = sess.request_id;
}

unfoldable pub cancelled_pings : String → GoMap String PingSession → List PingResult
cancelled_pings node_id [] = []
cancelled_pings node_id ((id, sess) ∷ rest) =
    if sess.source_id == node_id
    then cancelled sess ∷ cancelled_pings node_id rest
    else cancelled_pings node_id rest

module _ {P Q : Type 0} where
  abbrev pub router_ips : Option (Router P Q) → List String
  router_ips none = []
  router_ips (some r) = values r.interfaces

  abbrev pub host_ips : Option (Host P Q) → List String
  host_ips none = []
  host_ips (some h) = h.ip ∷ []

  unfoldable pub collect_device_ips : Manager P Q → String → List String
  collect_device_ips m node_id =
      router_ips (get m.routers node_id)
      ++ host_ips (get m.hosts node_id)
      ++ gateway_ips (get m.cellular_gateways node_id)
      ++ ue_ips (get m.mobile_ues node_id)

  unfoldable pub purge_router_references : Router P Q → String → List String → Router P Q
  unfolding purge_ospf purge_rip
  purge_router_references r removed_node_id ips = record r {
    arp_cache = delete_if (λ ip entry. in_set ips ip) r.arp_cache;
    packet_queue = delete_if (λ ip pkts. in_set ips ip) r.packet_queue;
    cdp_neighbors = keep (λ n. not (n.device_id == removed_node_id)) r.cdp_neighbors;
    port_neighbors = delete_if (λ port pn. pn.router_id == removed_node_id) r.port_neighbors;
    ospf = map_some (λ o. purge_ospf o removed_node_id ips) r.ospf;
    rip = map_some (λ d. purge_rip d ips) r.rip;
    routing_table = keep (survives ips) r.routing_table;
    ike_peers = delete_if (λ ip peer. in_set ips ip) r.ike_peers;
  }

  -- The range over the routers that remain.
  unfoldable pub purge_all :
      GoMap String (Router P Q) → String → List String → GoMap String (Router P Q)
  unfolding purge_router_references
  purge_all [] removed_node_id ips = []
  purge_all ((id, r) ∷ rest) removed_node_id ips =
      (id, purge_router_references r removed_node_id ips) ∷ purge_all rest removed_node_id ips

  abbrev pub is_device : Manager P Q → String → Bool
  is_device m node_id =
      has (get m.routers node_id)
      || has (get m.switches node_id)
      || has (get m.hosts node_id)
      || has (get m.access_points node_id)
      || has (get m.asa_firewalls node_id)
      || has (get m.voip_phones node_id)
      || has (get m.cellular_gateways node_id)
      || has (get m.mobile_ues node_id)

  -- A device that is in no map is left where it is: a delete of a missing key does nothing.
  unfoldable pub remove_device : Manager P Q → String → Result TopologyError (Manager P Q)
  unfolding collect_device_ips purge_all cancelled_pings
  remove_device m node_id =
      let removed_ips = collect_device_ips m node_id in
      if is_device m node_id
      then ok (record m {
        routers = purge_all (delete m.routers node_id) node_id removed_ips;
        switches = delete m.switches node_id;
        hosts = delete m.hosts node_id;
        access_points = delete m.access_points node_id;
        asa_firewalls = delete m.asa_firewalls node_id;
        voip_phones = delete m.voip_phones node_id;
        cellular_gateways = delete m.cellular_gateways node_id;
        mobile_ues = delete m.mobile_ues node_id;
        links = keep (λ l. not (touches node_id l)) m.links;
        ping_sessions = delete_if (λ id sess. sess.source_id == node_id) m.ping_sessions;
        pending_ping_results = m.pending_ping_results ++ cancelled_pings node_id m.ping_sessions;
      })
      else err (device_not_found node_id)
