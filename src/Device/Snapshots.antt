-- ===== src/Device/Snapshots.antt =====
-- What is saved of a router, and a router made of it again (src-tauri/engine/network/router.go):
-- Snapshot, RestoreRouter and the rows that the user interface shows.
pub mod Reloaded
use netforge.Device.{
  Router, new_router, add_interface, table_or, route_connected, route_static, dist_static, text_of,
}
use netforge.Device.Processes.{
  enable_ospf, configure_ospf_networks, enable_rip, configure_rip_networks, enable_eigrp,
  configure_eigrp_networks, enable_bgp,
}
use netforge.Net.{Net}
use netforge.Ospf.{OspfNetwork}
use netforge.Router.{RouteEntry, add_route}
use netforge.Prelude.{
  String, Bool, true, false, Option, none, some, List, [], ◌∷◌, map, keep, ◌==◌, string_eq,
  if◌then◌else◌,
}
use netforge.Prelude.Int64.{Int64}
use netforge.Prelude.GoMap.{GoMap, get}

-- persistence.go
pub record IfaceSnapshot : Type 0 where
  pub port_id : String
  pub ip : String
  pub mask : String
  pub mac : String

pub record StaticRouteSnap : Type 0 where
  pub cidr : String
  pub next_hop : String
  pub interface : String
  pub metric : Int64

pub record RouterSnapshot : Type 0 where
  pub id : String
  pub interfaces : List IfaceSnapshot
  pub static_routes : List StaticRouteSnap
  pub ospf_enabled : Bool
  pub ospf_process_id : Int64
  pub ospf_networks : List OspfNetwork
  pub rip_enabled : Bool
  pub rip_networks : List String
  pub eigrp_enabled : Bool
  pub eigrp_as : Int64
  pub eigrp_networks : List String
  pub bgp_enabled : Bool
  pub bgp_local_as : Int64

-- manager.go
pub record RouteTableRow : Type 0 where
  pub protocol : String
  pub network : String
  pub metric : Int64
  pub next_hop : String
  pub interface : String

unfoldable pub format_route_table : Net → List RouteEntry → List RouteTableRow
format_route_table net table =
    map
      (λ entry. record {
        protocol = entry.protocol;
        network = net.net_string entry.network;
        metric = entry.metric;
        next_hop =
            if entry.protocol == route_connected then "directly connected" else entry.next_hop;
        interface = entry.interface;
      })
      table

unfoldable pub static_snaps : Net → List RouteEntry → List StaticRouteSnap
static_snaps net table =
    map
      (λ entry. record {
        cidr = net.net_string entry.network;
        next_hop = entry.next_hop;
        interface = entry.interface;
        metric = entry.metric;
      })
      (keep (λ entry. entry.protocol == route_static) table)

module _ {P Q : Type 0} where
  unfoldable pub iface_snaps : Router P Q → GoMap String String → List IfaceSnapshot
  iface_snaps r interfaces =
      map
        (λ entry. record {
          port_id = entry.0;
          ip = entry.1;
          mask = text_of (get r.interface_mask entry.0);
          mac = text_of (get r.interface_mac entry.0);
        })
        interfaces

  -- Each of the four daemons: its fields are written where it runs.
  abbrev pub with_ospf : Router P Q → RouterSnapshot → RouterSnapshot
  with_ospf r snap = elim r.ospf [
    | none ↦ snap
    | some d ↦
        if d.enabled
        then record snap {
          ospf_enabled = true;
          ospf_process_id = d.process_id;
          ospf_networks = d.networks;
        }
        else snap
  ]

  abbrev pub with_rip : Router P Q → RouterSnapshot → RouterSnapshot
  with_rip r snap = elim r.rip [
    | none ↦ snap
    | some d ↦
        if d.enabled then record snap { rip_enabled = true; rip_networks = d.networks } else snap
  ]

  abbrev pub with_eigrp : Router P Q → RouterSnapshot → RouterSnapshot
  with_eigrp r snap = elim r.eigrp [
    | none ↦ snap
    | some d ↦
        if d.enabled
        then record snap {
          eigrp_enabled = true;
          eigrp_as = d.as_number;
          eigrp_networks = d.networks;
        }
        else snap
  ]

  abbrev pub with_bgp : Router P Q → RouterSnapshot → RouterSnapshot
  with_bgp r snap = elim r.bgp [
    | none ↦ snap
    | some d ↦
        if d.enabled then record snap { bgp_enabled = true; bgp_local_as = d.local_as } else snap
  ]

  unfoldable pub snapshot : Net → Router P Q → RouterSnapshot
  unfolding iface_snaps static_snaps
  snapshot net r =
      let bare : RouterSnapshot = record {
        id = r.id;
        interfaces = iface_snaps r r.interfaces;
        static_routes = static_snaps net r.routing_table;
        ospf_enabled = false;
        ospf_process_id = 0;
        ospf_networks = [];
        rip_enabled = false;
        rip_networks = [];
        eigrp_enabled = false;
        eigrp_as = 0;
        eigrp_networks = [];
        bgp_enabled = false;
        bgp_local_as = 0;
      } in
      with_bgp r (with_eigrp r (with_rip r (with_ospf r bare)))

  unfoldable pub add_interfaces : Net → Router P Q → List IfaceSnapshot → Router P Q
  unfolding add_interface
  add_interfaces net r [] = r
  add_interfaces net r (iface ∷ rest) =
      add_interfaces net (add_interface net r iface.port_id iface.ip iface.mask iface.mac) rest

  unfoldable pub add_static_routes : Net → Router P Q → List StaticRouteSnap → Router P Q
  add_static_routes net r [] = r
  add_static_routes net r (sr ∷ rest) =
      add_static_routes net
        (record r {
          routing_table = table_or r.routing_table (
              add_route net r.routing_table sr.cidr sr.next_hop sr.interface sr.metric route_static
                dist_static);
        })
        rest

  -- The four daemons that the snapshot starts, one after the other.
  unfoldable pub restore_daemons : Net → Router P Q → RouterSnapshot → Router P Q
  restore_daemons net r snap =
      let with_ospf =
        if snap.ospf_enabled
        then configure_ospf_networks net (enable_ospf r snap.ospf_process_id) snap.ospf_networks
        else r in
      let with_rip =
        if snap.rip_enabled
        then configure_rip_networks (enable_rip with_ospf) snap.rip_networks
        else with_ospf in
      let with_eigrp =
        if snap.eigrp_enabled
        then configure_eigrp_networks (enable_eigrp with_rip snap.eigrp_as) snap.eigrp_networks
        else with_rip in
      if snap.bgp_enabled then enable_bgp with_eigrp snap.bgp_local_as else with_eigrp

  unfoldable pub restore_router : Net → RouterSnapshot → Router P Q
  unfolding add_interfaces add_static_routes restore_daemons
  restore_router net snap =
      restore_daemons net
        (add_static_routes net (add_interfaces net (new_router snap.id) snap.interfaces)
          snap.static_routes)
        snap
