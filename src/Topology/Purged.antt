-- ===== src/Topology/Purged.antt =====
-- What is left of a device that was removed.
use netforge.Device.{Router, route_connected}
use netforge.Router.{RouteEntry}
use netforge.Ospf.{OspfDaemon}
use netforge.Rip.{RipDaemon}
use netforge.Topology.{Manager, TopologyError, device_not_found}
use netforge.Topology.Addresses.{IsOwn}
use netforge.Topology.Removal.{
  touches, map_some, collect_device_ips, purge_router_references, is_device,
}
use netforge.Prelude.{
  ◌≡◌, ◌≢◌, ◌⊎◌, String, true, false, Option, none, some, All, ◌==◌, string_eq, if◌then◌else◌,
  Result, ok, err,
}
use netforge.Prelude.GoMap.{GoMap, get, values}

-- No announcement of the name, and no adjacency or announcement of the address, is left in an OSPF
-- daemon that runs.
abbrev pub IsForgotten : String → Option OspfDaemon → Type 0
IsForgotten node_id none = Unit
IsForgotten node_id (some o) = o.enabled ≡ true → get o.lsdb node_id ≡ none

abbrev pub IsOspfPurged : String → Option OspfDaemon → Type 0
IsOspfPurged ip none = Unit
IsOspfPurged ip (some o) = o.enabled ≡ true → (get o.neighbors ip ≡ none) × (get o.lsdb ip ≡ none)

abbrev pub IsRipPurged : String → Option RipDaemon → Type 0
IsRipPurged ip none = Unit
IsRipPurged ip (some d) = All (λ neighbor_ip. neighbor_ip ≢ ip) (values d.neighbors)

-- A route that is connected, or whose next hop is another one.
abbrev pub IsKept : String → RouteEntry → Type 0
IsKept ip route = (route.protocol ≡ route_connected) ⊎ (route.next_hop ≢ ip)

module _ {P Q : Type 0} where
  -- A router that refers nowhere to the address.
  abbrev pub IsUnreferenced : Router P Q → String → Type 0
  IsUnreferenced r ip =
      (get r.arp_cache ip ≡ none)
      × (get r.packet_queue ip ≡ none)
      × (get r.ike_peers ip ≡ none)
      × All (IsKept ip) r.routing_table
      × IsOspfPurged ip r.ospf
      × IsRipPurged ip r.rip

  -- A router that refers nowhere to the device of the name.
  abbrev pub IsPurged : Manager P Q → String → Router P Q → Type 0
  IsPurged m node_id r =
      ((ip : String) → IsOwn m node_id ip → IsUnreferenced r ip)
      × All (λ n. (n.device_id == node_id) ≡ false) r.cdp_neighbors
      × All (λ pn. (pn.router_id == node_id) ≡ false) (values r.port_neighbors)
      × IsForgotten node_id r.ospf

abbrev pub IsRemoval :
    {P Q : Type 0} → Manager P Q → String → String → Result TopologyError (Manager P Q) → Type 0
IsRemoval m node_id id (err e) = (e ≡ device_not_found node_id) × (is_device m node_id ≡ false)
IsRemoval m node_id id (ok after) =
    let ips = collect_device_ips m node_id in
    (is_device m node_id ≡ true)
    × (is_device after node_id ≡ false)
    × All (λ l. touches node_id l ≡ false) after.links
    × All (λ sess. (sess.source_id == node_id) ≡ false) (values after.ping_sessions)
    × All (IsPurged m node_id) (values after.routers)
    × (get after.routers id ≡ (
        if node_id == id
        then none
        else map_some (λ r. purge_router_references r node_id ips) (get m.routers id)))
